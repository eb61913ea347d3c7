-- ===== src/Snapshots/Store/Accounting.antt =====
-- What the counters of the store stand for: `_resident_bytes` is the sum over the resident
-- snapshots, and a `refcount` is the number of references to a snapshot. The proofs that the
-- writes keep the counters so are in the modules below.
pub mod Bytes
pub mod References
pub mod Pinned
pub mod Presence
use riderless.Prelude.{
  ℕ, ◌+◌, ◌≤◌, ◌<◌, String, ◌≡◌, true, false, Option, none, some, List, refers, if◌then◌else◌,
}
use riderless.Snapshots.Store.Types.{SnapshotRecord, Store}
use riderless.Snapshots.Store.Dict.{find}
use riderless.Snapshots.Store.Dict.Laws.{total}
use riderless.Snapshots.Store.Core.{extra_parent}
use riderless.Snapshots.Store.Manifest.{valid_id}

-- the bytes that a record takes of the budget
abbrev pub charge : SnapshotRecord → ℕ
charge r = if r.resident then r.host_bytes else 0

abbrev pub count_ref : Option String → String → ℕ
count_ref o k = if refers o k then 1 else 0

-- how often a record references the snapshot `k`
unfoldable pub uses : String → SnapshotRecord → ℕ
uses k r = count_ref r.parent k + count_ref (extra_parent r) k

-- the `refcount` that the dict shows, and 0 for a missing snapshot
abbrev pub tally : Option SnapshotRecord → ℕ
tally none = 0
tally (some r) = r.refcount

abbrev pub IsAccounted : Store → Type 0
IsAccounted s = s.resident_bytes ≡ total charge s.records

-- So nothing references a snapshot that is missing.
pub record IsCounted (s : Store) : Type 0 where
  pub at : (k : String) → total (uses k) s.records ≡ tally (find k s.records)

abbrev pub IsWithin : Store → Type 0
IsWithin s = s.resident_bytes ≤ s.config.host_bytes

-- The snapshot `k` is there, and leased.
pub record IsPinned (k : String) (s : Store) : Type 0 where
  pub pinned : SnapshotRecord
  pub found : find k s.records ≡ some pinned
  pub is_leased : 0 < pinned.leases

-- The snapshot `k` is there, leased, and not in the worker's memory.
pub record IsShelved (k : String) (s : Store) : Type 0 where
  pub shelved : SnapshotRecord
  pub found : find k s.records ≡ some shelved
  pub is_leased : 0 < shelved.leases
  pub is_out : shelved.resident ≡ false

abbrev pub IsAbsent : String → Store → Type 0
IsAbsent k s = find k s.records ≡ none

-- Every key is a safe opaque reference.
pub record IsNamed (s : Store) : Type 0 where
  pub at : (k : String) (r : SnapshotRecord) → find k s.records ≡ some r → valid_id k ≡ true

-- The invariant of the store: with `Inv`, the ids are distinct too.
abbrev pub IsSound : Store → Type 0
IsSound s = IsAccounted s × (IsCounted s × (IsWithin s × IsNamed s))

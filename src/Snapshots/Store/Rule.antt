-- ===== src/Snapshots/Store/Rule.antt =====
-- What the writes of the store have in common: which fields they leave alone, and which record they
-- are about. A predicate that survives every write survives the loops (Rule/Loops).
pub mod Safe
pub mod Loops
pub mod Publishing
pub mod Evictions
pub mod Expiry
pub mod Fuel
use riderless.Prelude.{
  ℕ, ◌+◌, ◌<◌, String, ◌≡◌, refl, Bool, true, false, ◌&&◌, Option, none, some, List, [], ◌∷◌, All,
  arith, ltb, eqb, leb, ◌==◌, eq_iff, if◌then◌else◌, Bool-cases, inl, inr,
}
use riderless.Snapshots.Store.Types.{SnapshotRecord, Store}
use riderless.Snapshots.Store.Dict.{find}
use riderless.Snapshots.Store.Dict.Laws.{Unique}
use riderless.Snapshots.Store.Core.{first}
use riderless.Snapshots.Store.Budget.{select, insert_by_use, sort_by_use}

-- The fields that the accounting reads are the same.
pub record Alike (x r : SnapshotRecord) : Type 0 where
  pub id : x.id ≡ r.id
  pub parent : x.parent ≡ r.parent
  pub context_parent : x.context_parent ≡ r.context_parent
  pub resident : x.resident ≡ r.resident
  pub host_bytes : x.host_bytes ≡ r.host_bytes
  pub leases : x.leases ≡ r.leases
  pub refcount : x.refcount ≡ r.refcount

abbrev pub Neutral : (SnapshotRecord → SnapshotRecord) → Type 0
Neutral f = (r : SnapshotRecord) → Alike (f r) r

-- The object `r` that the code holds is the record of the store, up to other fields.
pub record Current (r : SnapshotRecord) (rs : List SnapshotRecord) : Type 0 where
  pub held : SnapshotRecord
  pub found : find r.id rs ≡ some held
  pub alike : Alike held r

pub Current-of_find :
    (r : SnapshotRecord) (rs : List SnapshotRecord) → find r.id rs ≡ some r → Current r rs
Current-of_find r rs h = record {
  held = r;
  found = h;
  alike = record {
    id = refl;
    parent = refl;
    context_parent = refl;
    resident = refl;
    host_bytes = refl;
    leases = refl;
    refcount = refl;
  };
}

module _ (test : SnapshotRecord → Bool) where
  pub test-first :
      (rs : List SnapshotRecord) (r : SnapshotRecord) → first test rs ≡ some r → test r ≡ true
  unfolding first
  test-first [] r h = cc
  test-first (x ∷ rs) r h = ground (arith, test-first rs r)

  first-keyed :
      (rs : List SnapshotRecord) (r : SnapshotRecord) (k : String)
      → find k rs ≡ none
      → first test rs ≡ some r
      → (r.id == k) ≡ false
  unfolding first find
  first-keyed [] r k n h = cc
  first-keyed (x ∷ rs) r k n h = ground (arith, first-keyed rs r k)

  pub find-first :
      (rs : List SnapshotRecord) (r : SnapshotRecord)
      → Unique rs
      → first test rs ≡ some r
      → find r.id rs ≡ some r
  unfolding first find
  find-first [] r u h = cc
  find-first (x ∷ rs) r u h =
      ground
        (arith, find-first rs r u.1, first-keyed rs r x.id u.0, eq_iff x.id r.id, eq_iff r.id x.id)

abbrev Found : List SnapshotRecord → SnapshotRecord → Type 0
Found rs r = find r.id rs ≡ some r

Found-cons :
    (x : SnapshotRecord) (all rs : List SnapshotRecord)
    → find x.id all ≡ none
    → All (Found all) rs
    → All (Found (x ∷ all)) rs
unfolding find
Found-cons x all [] n h = tt
Found-cons x all (r ∷ rs) n h = (ground (arith, eq_iff x.id r.id, h.0), Found-cons x all rs n h.1)

-- Where the ids are distinct, each record is found under its id.
pub Found-All : (rs : List SnapshotRecord) → Unique rs → All (λ r. find r.id rs ≡ some r) rs
unfolding find
Found-All [] u = tt
Found-All (x ∷ rs) u = (ground (arith, eq_iff x.id x.id), Found-cons x rs rs u.0 (Found-All rs u.1))

module _ (P : SnapshotRecord → Type 0) where
  pub All-select :
      (test : SnapshotRecord → Bool) (rs : List SnapshotRecord)
      → All P rs
      → All (λ r. P r × (test r ≡ true)) (select test rs)
  unfolding select
  All-select test [] h = tt
  All-select test (x ∷ rs) h = elim (Bool-cases (test x)) [
    | inl e ↦ rw e ((h.0, e), All-select test rs h.1)
    | inr e ↦ rw e (All-select test rs h.1)
  ]

  All-insert :
      (r : SnapshotRecord) (rs : List SnapshotRecord) → P r → All P rs → All P (insert_by_use r rs)
  unfolding insert_by_use
  All-insert r [] p h = (p, tt)
  All-insert r (x ∷ xs) p h = elim (Bool-cases (leb r.last_used x.last_used)) [
    | inl e ↦ rw e (p, h)
    | inr e ↦ rw e (h.0, All-insert r xs p h.1)
  ]

  pub All-sort : (rs : List SnapshotRecord) → All P rs → All P (sort_by_use rs)
  unfolding sort_by_use
  All-sort [] h = tt
  All-sort (r ∷ rs) h = All-insert r (sort_by_use rs) h.0 (All-sort rs h.1)

-- ===== src/Snapshots/Store/Accounting/Pinned.antt =====
-- Leased snapshots under the writes of the loops.
use riderless.Prelude.{ℕ, ◌-◌, String, ◌≡◌, refl, false, arith, refers, eq_iff, if◌then◌else◌, ◌==◌}
use riderless.Snapshots.Store.Types.{SnapshotRecord, Store, Config}
use riderless.Snapshots.Store.Dict.{modify}
use riderless.Snapshots.Store.Dict.Laws.{Unique, find-modify, find-pop}
use riderless.Snapshots.Store.Core.{forget, released, release_ref, extra_parent}
use riderless.Snapshots.Store.Budget.{page_out}
use riderless.Snapshots.Store.Rule.{Current}
use riderless.Snapshots.Store.Rule.Safe.{Safe, release_ref-Unique}
use riderless.Snapshots.Store.Accounting.{IsPinned}
use riderless.Snapshots.Store.Accounting.Bytes.{find-release_ref}

module _ (k : String) (s : Store) where
  pub modify-IsPinned :
      (j : String) (f : SnapshotRecord → SnapshotRecord)
      → ((r : SnapshotRecord) → (f r).id ≡ r.id)
      → ((r : SnapshotRecord) → (f r).leases ≡ r.leases)
      → (t n : ℕ) → IsPinned k s
      → IsPinned k (record s { records = modify j f s.records; tick = t; resident_bytes = n })
  modify-IsPinned j f id count t n h = record {
    pinned = if j == k then f h.pinned else h.pinned;
    found = ground (arith, find-modify f id j k s.records, h.found);
    is_leased = ground (arith, count h.pinned, h.is_leased);
  }

  forget-IsPinned :
      (r : SnapshotRecord)
      → Current r s.records
      → r.leases ≡ 0
      → Unique s.records
      → IsPinned k s
      → IsPinned k (forget r s)
  unfolding forget
  forget-IsPinned r c l u h =
      let a = c.alike in
      let once = release_ref r.parent s.records in
      let twice = release_ref (extra_parent r) once in
      let unique =
        release_ref-Unique (extra_parent r) once (release_ref-Unique r.parent s.records u) in
      record {
        pinned =
            if refers (extra_parent r) k
            then released (if refers r.parent k then released h.pinned else h.pinned)
            else (if refers r.parent k then released h.pinned else h.pinned);
        found = ground (
          arith,
          h.found,
          h.is_leased,
          c.found,
          a.leases,
          l,
          find-pop r.id k twice unique,
          eq_iff r.id k,
          find-release_ref r.parent k s.records,
          find-release_ref (extra_parent r) k once,
        );
        is_leased = ground (arith, h.is_leased);
      }

pub IsPinned-Safe : (k : String) → Safe (IsPinned k)
unfolding page_out
IsPinned-Safe k = record {
  stable = record {
    neutral = λ s j f t n h.
        modify-IsPinned k s j f (λ r. (n r).id) (λ r. (n r).leases) t s.resident_bytes h;
    ticks = λ s t h. record { pinned = h.pinned; found = h.found; is_leased = h.is_leased };
  };
  forgets = λ s r c l _ u h. forget-IsPinned k s r c l u h;
  pages_out = λ s r c _ _ u h.
      modify-IsPinned k s r.id (λ x. record x { resident = false }) (λ x. refl) (λ x. refl) s.tick
        (s.resident_bytes - r.host_bytes) h;
}

-- The configuration never changes.
pub config-Safe : (c : Config) → Safe (λ s. s.config ≡ c)
unfolding forget page_out
config-Safe c = record {
  stable = record { neutral = λ s k f t n h. h; ticks = λ s t h. h };
  forgets = λ s r _ _ _ _ h. h;
  pages_out = λ s r _ _ _ _ h. h;
}

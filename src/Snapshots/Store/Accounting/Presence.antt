-- ===== src/Snapshots/Store/Accounting/Presence.antt =====
-- Which keys the store holds: a missing key stays missing, a present one has the form of an id, and
-- a leased snapshot that is not resident stays where it is.
use mathlib.Core.Option
use riderless.Prelude.{
  ℕ, ◌-◌, String, ◌≡◌, refl, true, false, Option, none, some, List, arith, refers, eq_iff,
  if◌then◌else◌, ◌==◌, ◌⊎◌, inl, inr,
}
use riderless.Snapshots.Store.Types.{SnapshotRecord, Store}
use riderless.Snapshots.Store.Dict.{find, modify, pop}
use riderless.Snapshots.Store.Dict.Laws.{Unique, find-modify, find-pop}
use riderless.Snapshots.Store.Core.{forget, released, release_ref, extra_parent}
use riderless.Snapshots.Store.Budget.{page_out}
use riderless.Snapshots.Store.Manifest.{valid_id}
use riderless.Snapshots.Store.Rule.{Current}
use riderless.Snapshots.Store.Rule.Safe.{Safe, Safe-both, release_ref-Unique}
use riderless.Snapshots.Store.Accounting.{IsShelved, IsAbsent, IsNamed, IsSound}
use riderless.Snapshots.Store.Accounting.Bytes.{find-release_ref, IsAccounted-Safe, IsWithin-Safe}
use riderless.Snapshots.Store.Accounting.References.{IsCounted-Safe}

module _ (k j : String) (f : SnapshotRecord → SnapshotRecord)
    (keep : (r : SnapshotRecord) → (f r).id ≡ r.id) (rs : List SnapshotRecord) where
  pub modify-absent : find k rs ≡ none → find k (modify j f rs) ≡ none
  modify-absent h = ground (arith, find-modify f keep j k rs, h)

  -- What is there after the write was there before it.
  pub modify-present :
      (r : SnapshotRecord)
      → find k (modify j f rs) ≡ some r
      → (x : SnapshotRecord) × (find k rs ≡ some x)
  modify-present r h = go (find k rs) (find-modify f keep j k rs)
    where
      go :
          (o : Option SnapshotRecord)
          → find k (modify j f rs) ≡ (if j == k then Option.map f o else o)
          → (x : SnapshotRecord) × (o ≡ some x)
      go none e = absurd (ground (arith, e, h))
      go (some x) e = (x, refl)

release-absent :
    (k : String) (o : Option String) (rs : List SnapshotRecord)
    → find k rs ≡ none
    → find k (release_ref o rs) ≡ none
release-absent k o rs h = ground (arith, find-release_ref o k rs, h)

module _ (s : Store) (r : SnapshotRecord) (u : Unique s.records) where
  abbrev freed : List SnapshotRecord
  freed = release_ref (extra_parent r) (release_ref r.parent s.records)

  freed-Unique : Unique freed
  freed-Unique =
      release_ref-Unique (extra_parent r) (release_ref r.parent s.records)
        (release_ref-Unique r.parent s.records u)

  -- `forget` leaves no record under its own key, and makes none.
  pub forget-IsAbsent_self : IsAbsent r.id (forget r s)
  unfolding forget
  forget-IsAbsent_self = ground (arith, find-pop r.id r.id freed freed-Unique, eq_iff r.id r.id)

  forget-IsAbsent : (k : String) → IsAbsent k s → IsAbsent k (forget r s)
  unfolding forget
  forget-IsAbsent k h = ground (
    arith,
    find-pop r.id k freed freed-Unique,
    release-absent k (extra_parent r) (release_ref r.parent s.records),
    release-absent k r.parent s.records h,
  )

  forget-IsNamed : IsNamed s → IsNamed (forget r s)
  unfolding forget
  forget-IsNamed h = record {
    at = λ k x e. elim (cases k x e) [ inl gone ↦ absurd gone | inr (y, here) ↦ h.at k y here ];
  }
    where
      cases :
          (k : String) (x : SnapshotRecord)
          → find k (pop r.id freed) ≡ some x
          → ⊥ ⊎ ((y : SnapshotRecord) × (find k s.records ≡ some y))
      cases k x e = go (find k s.records) refl
        where
          go :
              (o : Option SnapshotRecord)
              → find k s.records ≡ o
              → ⊥ ⊎ ((y : SnapshotRecord) × (o ≡ some y))
          go none n = inl (ground (arith, e, forget-IsAbsent k n))
          go (some y) n = inr (y, refl)

  forget-IsShelved :
      (k : String) → Current r s.records → r.leases ≡ 0 → IsShelved k s → IsShelved k (forget r s)
  unfolding forget
  forget-IsShelved k c l h =
      let a = c.alike in
      let once = release_ref r.parent s.records in
      record {
        shelved =
            if refers (extra_parent r) k
            then released (if refers r.parent k then released h.shelved else h.shelved)
            else (if refers r.parent k then released h.shelved else h.shelved);
        found = ground (
          arith,
          h.found,
          h.is_leased,
          c.found,
          a.leases,
          l,
          find-pop r.id k freed freed-Unique,
          eq_iff r.id k,
          find-release_ref r.parent k s.records,
          find-release_ref (extra_parent r) k once,
        );
        is_leased = ground (arith, h.is_leased);
        is_out = ground (arith, h.is_out);
      }

pub IsAbsent-Safe : (k : String) → Safe (IsAbsent k)
unfolding page_out
IsAbsent-Safe k = record {
  stable = record {
    neutral = λ s j f t n h. modify-absent k j f (λ r. (n r).id) s.records h;
    ticks = λ s t h. h;
  };
  forgets = λ s r _ _ _ u h. forget-IsAbsent s r u k h;
  pages_out = λ s r _ _ _ u h.
      modify-absent k r.id (λ x. record x { resident = false }) (λ x. refl) s.records h;
}

modify-IsNamed :
    (s : Store) (j : String) (f : SnapshotRecord → SnapshotRecord)
    → ((r : SnapshotRecord) → (f r).id ≡ r.id)
    → IsNamed s
    → (k : String) (r : SnapshotRecord) → find k (modify j f s.records) ≡ some r
    → valid_id k ≡ true
modify-IsNamed s j f keep h k r e =
    let (x, here) = modify-present k j f keep s.records r e in h.at k x here

pub IsNamed-Safe : Safe IsNamed
unfolding page_out
IsNamed-Safe = record {
  stable = record {
    neutral = λ s j f t n h. record { at = modify-IsNamed s j f (λ r. (n r).id) h };
    ticks = λ s t h. record { at = h.at };
  };
  forgets = λ s r _ _ _ u h. forget-IsNamed s r u h;
  pages_out = λ s r _ _ _ u h. record {
    at = modify-IsNamed s r.id (λ x. record x { resident = false }) (λ x. refl) h;
  };
}

modify-IsShelved :
    (k j : String) (s : Store) (f : SnapshotRecord → SnapshotRecord)
    → ((r : SnapshotRecord) → (f r).id ≡ r.id)
    → ((r : SnapshotRecord) → (f r).leases ≡ r.leases)
    → ((r : SnapshotRecord) → r.resident ≡ false → (f r).resident ≡ false)
    → (t n : ℕ) → IsShelved k s
    → IsShelved k (record s { records = modify j f s.records; tick = t; resident_bytes = n })
modify-IsShelved k j s f id count out t n h = record {
  shelved = if j == k then f h.shelved else h.shelved;
  found = ground (arith, find-modify f id j k s.records, h.found);
  is_leased = ground (arith, count h.shelved, h.is_leased);
  is_out = ground (arith, out h.shelved h.is_out, h.is_out);
}

pub IsShelved-Safe : (k : String) → Safe (IsShelved k)
unfolding page_out
IsShelved-Safe k = record {
  stable = record {
    neutral = λ s j f t n h.
        modify-IsShelved k j s f (λ r. (n r).id) (λ r. (n r).leases)
          (λ r e. ground (arith, (n r).resident, e)) t s.resident_bytes h;
    ticks = λ s t h. record {
      shelved = h.shelved;
      found = h.found;
      is_leased = h.is_leased;
      is_out = h.is_out;
    };
  };
  forgets = λ s r c l _ u h. forget-IsShelved s r u k c l h;
  pages_out = λ s r c _ _ u h.
      modify-IsShelved k r.id s (λ x. record x { resident = false }) (λ x. refl) (λ x. refl)
        (λ x _. refl) s.tick (s.resident_bytes - r.host_bytes) h;
}

pub IsSound-Safe : Safe IsSound
IsSound-Safe =
    Safe-both IsAccounted-Safe (Safe-both IsCounted-Safe (Safe-both IsWithin-Safe IsNamed-Safe))

-- ===== src/Snapshots/Store/Lease/Pins.antt =====
-- `lease`: what it leases is in the store and leased while the body runs, and its counters return.
use riderless.Prelude.{
  ℕ, ◌≤◌, ◌<◌, String, ◌≡◌, refl, true, false, some, List, [], ◌∷◌, All, arith, eq_iff, ◌==◌,
  if◌then◌else◌, Bool-cases, inl, inr,
}
use riderless.Snapshots.Store.Types.{SnapshotRecord, Store}
use riderless.Snapshots.Store.Dict.{find, modify}
use riderless.Snapshots.Store.Dict.Laws.{find-modify, modify-Unique}
use riderless.Snapshots.Store.Rule.Safe.{Inv}
use riderless.Snapshots.Store.Accounting.{IsPinned, IsShelved}
use riderless.Snapshots.Store.Lease.{contains, union, leased, unleased, modify_each, pin, unpin}

pub union-retains :
    (k : String) (pinned ids : List String)
    → contains k pinned ≡ true
    → contains k (union pinned ids) ≡ true
unfolding union
union-retains k pinned [] h = h
union-retains k pinned (id ∷ ids) h =
    union-retains k (if contains id pinned then pinned else id ∷ pinned) ids (ground (arith, h))

pub union-adds :
    (k : String) (pinned ids : List String)
    → contains k ids ≡ true
    → contains k (union pinned ids) ≡ true
unfolding union
union-adds k pinned [] h = cc
union-adds k pinned (id ∷ ids) h = elim (Bool-cases (id == k)) [
  | inl same ↦
      union-retains k (if contains id pinned then pinned else id ∷ pinned) ids
        (ground (arith, same, eq_iff id k))
  | inr other ↦
      union-adds k (if contains id pinned then pinned else id ∷ pinned) ids
        (ground (arith, h, other))
]

-- the leases that `modify_each leased` adds
module _ (k : String) where
  each-found :
      (ids : List String) (rs : List SnapshotRecord) (x : SnapshotRecord)
      → find k rs ≡ some x
      → (y : SnapshotRecord) × (find k (modify_each leased ids rs) ≡ some y)
        × (x.leases ≤ y.leases)
        × (contains k ids ≡ true → x.leases < y.leases)
        × (y.resident ≡ x.resident)
  unfolding modify_each
  each-found [] rs x h = (x, h, omega arith, (λ e. cc), refl)
  each-found (id ∷ ids) rs x h =
      let x' : SnapshotRecord = if id == k then leased x else x in
      let h' : find k (modify id leased rs) ≡ some x' =
        ground (arith, find-modify leased (λ r. refl) id k rs, h) in
      let (y, found, le, lt, same) = each-found ids (modify id leased rs) x' h' in
      (y, found, ground (arith, le), (λ e. ground (arith, le, lt, e)), ground (arith, same))

  module _ (ids : List String) (s : Store) (x : SnapshotRecord) (h : find k s.records ≡ some x)
      (e : contains k ids ≡ true) where
    -- What is pinned is in the store and leased.
    pub pin-IsPinned : IsPinned k (pin ids s)
    unfolding pin
    pin-IsPinned =
        let (y, found, _, lt, _) = each-found ids s.records x h in
        record { pinned = y; found = found; is_leased = ground (arith, lt e) }

    pub pin-IsShelved : x.resident ≡ false → IsShelved k (pin ids s)
    unfolding pin
    pin-IsShelved out =
        let (y, found, _, lt, same) = each-found ids s.records x h in
        record {
          shelved = y;
          found = found;
          is_leased = ground (arith, lt e);
          is_out = ground (arith, same, out);
        }

-- A predicate that reads no leases.
pub record Lends (P : Store → Type 0) : Type 0 where
  pub lend : (s : Store) (k : String) → P s → P (record s { records = modify k leased s.records })
  pub give_back :
      (s : Store) (k : String) → P s → P (record s { records = modify k unleased s.records })

module _ (P : Store → Type 0) (lends : Lends P) where
  pub pin-Inv : (ids : List String) (s : Store) → Inv P s → Inv P (pin ids s)
  unfolding pin modify_each
  pin-Inv [] s h = h
  pin-Inv (id ∷ ids) s h =
      pin-Inv ids (record s { records = modify id leased s.records })
        (record {
          unique = modify-Unique leased (λ r. refl) id s.records h.unique;
          rest = lends.lend s id h.rest;
        })

  pub unpin-Inv : (ids : List String) (s : Store) → Inv P s → Inv P (unpin ids s)
  unfolding unpin modify_each
  unpin-Inv [] s h = h
  unpin-Inv (id ∷ ids) s h =
      unpin-Inv ids (record s { records = modify id unleased s.records })
        (record {
          unique = modify-Unique unleased (λ r. refl) id s.records h.unique;
          rest = lends.give_back s id h.rest;
        })

-- The store holds `k`, and `pinned` names it.
pub record Member (pinned : List String) (s : Store) (k : String) : Type 0 where
  pub object : SnapshotRecord
  pub found : find k s.records ≡ some object
  pub named : contains k pinned ≡ true

pub modify-Member :
    (s : Store) (j : String) (f : SnapshotRecord → SnapshotRecord)
    → ((r : SnapshotRecord) → (f r).id ≡ r.id)
    → (pinned : List String) (t : ℕ) (k : String) → Member pinned s k
    → Member pinned (record s { records = modify j f s.records; tick = t }) k
modify-Member s j f keep pinned t k m = record {
  object = if j == k then f m.object else m.object;
  found = ground (arith, find-modify f keep j k s.records, m.found);
  named = m.named;
}

pub All-map :
    {P Q : String → Type 0} (xs : List String) → ((x : String) → P x → Q x) → All P xs → All Q xs
All-map [] f h = tt
All-map (x ∷ xs) f h = (f x h.0, All-map xs f h.1)

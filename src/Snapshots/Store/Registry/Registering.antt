-- ===== src/Snapshots/Store/Registry/Registering.antt =====
-- `register` as a whole: its tests, and the lease of the parents round `admit`.
use riderless.Prelude.{
  String, ◌≡◌, refl, subst, Bool, true, false, not, ◌&&◌, Option, none, some, List, [], ◌∷◌, ◌++◌,
  All, arith, is_some, if◌then◌else◌, ◌==◌, eq_iff, Bool-cases, inl, inr,
}
use riderless.Action.Triple.{Triple, Triple-then}
use riderless.Snapshots.Errors.{Error}
use riderless.Snapshots.Store.Types.{SnapshotRecord, Store}
use riderless.Snapshots.Store.Dict.{find, modify}
use riderless.Snapshots.Store.Dict.Laws.{find-modify}
use riderless.Snapshots.Store.Env.{Env, Sys}
use riderless.Snapshots.Store.Env.Rules.{On, Triple-reads}
use riderless.Snapshots.Store.Core.{expire}
use riderless.Snapshots.Store.Manifest.{valid_id}
use riderless.Snapshots.Store.Lease.{with_lease, leased, unleased, modify_each, pin, unpin}
use riderless.Snapshots.Store.Lease.Pins.{Member, pin-Inv, unpin-Inv, pin-IsPinned}
use riderless.Snapshots.Store.Lease.Scope.{Triple-with_lease}
use riderless.Snapshots.Store.Rule.Safe.{Safe-both, Inv}
use riderless.Snapshots.Store.Rule.Loops.{expire-Keeps}
use riderless.Snapshots.Store.Accounting.{IsSound, IsAbsent, IsNamed}
use riderless.Snapshots.Store.Accounting.Presence.{IsSound-Safe, IsAbsent-Safe, modify-absent}
use riderless.Snapshots.Store.Registry.{
  Registration, is_known, truthy, is_misplaced, admit, register,
}
use riderless.Snapshots.Store.Registry.Loading.{IsSound-Lends}
use riderless.Snapshots.Store.Registry.Soundness.{Sound, Triple-guard}
use riderless.Snapshots.Store.Registry.Admission.{PinnedRef, Ready, Registered, admit-Registered}

-- The reference, if any, is not the empty text.
abbrev IsNonempty : Option String → Type 0
IsNonempty none = Unit
IsNonempty (some k) = (k == "") ≡ false

valid_id-empty : valid_id "" ≡ false
unfolding valid_id
valid_id-empty = refl

-- A known reference is the id of a record, which the empty text is not.
known-IsNonempty :
    (s : Store) (o : Option String) → IsNamed s → is_known s.records o ≡ true → IsNonempty o
known-IsNonempty s none n h = tt
known-IsNonempty s (some k) n h = elim (Bool-cases (k == "")) [
  | inl e ↦ absurd (empty k e h)
  | inr e ↦ e
]
  where
    present : (o : Option SnapshotRecord) → is_some o ≡ true → (x : SnapshotRecord) × (o ≡ some x)
    present none h = cc
    present (some x) h = (x, refl)

    empty : (k : String) → (k == "") ≡ true → is_known s.records (some k) ≡ true → ⊥
    empty k e h =
        let (x, found) = present (find k s.records) h in
        let valid : valid_id "" ≡ true =
          subst (λ z. valid_id z ≡ true) ((eq_iff k "").0 e) (n.at k x found) in
        cc (valid, valid_id-empty)

All-split : (P : String → Type 0) (xs ys : List String) → All P (xs ++ ys) → All P xs × All P ys
All-split P [] ys h = (tt, h)
All-split P (x ∷ xs) ys h = let r = All-split P xs ys h.1 in ((h.0, r.0), r.1)

pinned_ref :
    (o : Option String) (pinned : List String) (s : Store)
    → IsNonempty o
    → All (Member pinned s) (truthy o)
    → PinnedRef o (pin pinned s)
pinned_ref none pinned s e h = tt
pinned_ref (some k) pinned s e h =
    let m : Member pinned s k = go (k == "") e h in pin-IsPinned k pinned s m.object m.found m.named
  where
    go :
        (b : Bool)
        → b ≡ false
        → All (Member pinned s) (if b then [] else k ∷ [])
        → Member pinned s k
    go true e h = cc
    go false e h = h.0

modify_each-absent :
    (f : SnapshotRecord → SnapshotRecord)
    → ((r : SnapshotRecord) → (f r).id ≡ r.id)
    → (k : String) (ids : List String) (rs : List SnapshotRecord) → find k rs ≡ none
    → find k (modify_each f ids rs) ≡ none
unfolding modify_each
modify_each-absent f keep k [] rs h = h
modify_each-absent f keep k (id ∷ ids) rs h =
    modify_each-absent f keep k ids (modify id f rs) (modify-absent k id f keep rs h)

modify_each-present :
    (k : String) (ids : List String) (rs : List SnapshotRecord)
    → is_some (find k rs) ≡ true
    → is_some (find k (modify_each unleased ids rs)) ≡ true
unfolding modify_each
modify_each-present k [] rs h = h
modify_each-present k (id ∷ ids) rs h =
    modify_each-present k ids (modify id unleased rs)
      (ground (arith, find-modify unleased (λ r. refl) id k rs, h))

module _ (a : Registration) (first : IsNonempty a.parent)
    (second : IsNonempty a.context_parent) where
  -- Under the pins everything is ready to enter the snapshot.
  pin-Ready :
      (pinned : List String) (s : Store)
      → Inv (λ t. IsSound t × IsAbsent a.snapshot_id t) s
      → All (Member pinned s) (truthy a.parent ++ truthy a.context_parent)
      → Inv (Ready a) (pin pinned s)
  unfolding pin
  pin-Ready pinned s h ms =
      let parts = All-split (Member pinned s) (truthy a.parent) (truthy a.context_parent) ms in
      let sound =
        pin-Inv IsSound IsSound-Lends pinned s (record { unique = h.unique; rest = h.rest.0 }) in
      record {
        unique = sound.unique;
        rest = (
          sound.rest,
          (
            modify_each-absent leased (λ r. refl) a.snapshot_id pinned s.records h.rest.1,
            (
              pinned_ref a.parent pinned s first parts.0,
              pinned_ref a.context_parent pinned s second parts.1,
            ),
          ),
        );
      }

  unpin-Registered :
      (pinned : List String) (r : SnapshotRecord) (s : Store)
      → Registered a r s
      → Registered a r (unpin pinned s)
  unfolding unpin
  unpin-Registered pinned r s h = (
    unpin-Inv IsSound IsSound-Lends pinned s h.0,
    (h.1.0, modify_each-present a.snapshot_id pinned s.records h.1.1),
  )

  lease_admit :
      (env : Env)
      → valid_id a.snapshot_id ≡ true
      → Triple
          (On {env = env} (Inv (λ t. IsSound t × IsAbsent a.snapshot_id t)))
          (with_lease env (truthy a.parent ++ truthy a.context_parent) (admit env a))
          (λ r. On (Registered a r))
          (λ _. On Sound)
  lease_admit env valid =
      Triple-with_lease env (λ t. IsSound t × IsAbsent a.snapshot_id t)
        (Safe-both IsSound-Safe (IsAbsent-Safe a.snapshot_id)).stable (Ready a) Sound (Registered a)
        (truthy a.parent ++ truthy a.context_parent) (admit env a) pin-Ready
        (admit-Registered env a valid) unpin-Registered (unpin-Inv IsSound IsSound-Lends)
        (λ s h. record { unique = h.unique; rest = h.rest.0 })

-- From a sound store, `register` returns with the snapshot in a sound store, or raises and leaves a
-- sound store, whatever the worker, the disk and the clock do. So the bytes stay in the budget.
pub register-Registered :
    (env : Env) (a : Registration)
    → Triple (On {env = env} Sound) (register env a) (λ r. On (Registered a r)) (λ _. On Sound)
unfolding register
register-Registered env a =
    Triple-then (λ _. On Sound) (expire env) _ (expire-Keeps env IsSound IsSound-Safe)
      λ _.
        Triple-guard Sound (valid_id a.snapshot_id) Error.integrity _ (λ s h. h)
          λ valid.
            Triple-reads Sound (λ s. s.records) _
              λ rs.
                let Q = λ (s : Store). Sound s × (s.records ≡ rs) in
                Triple-guard Q (not (is_some (find a.snapshot_id rs))) Error.integrity _
                  (λ s h. h.0)
                  λ new.
                    Triple-guard Q (is_known rs a.parent && is_known rs a.context_parent)
                      Error.not_found _ (λ s h. h.0)
                      λ known.
                        Triple-guard Q (not (is_misplaced a.promotion_of a.parent)) Error.integrity
                          _ (λ s h. h.0)
                          λ placed. record {
                            holds = λ (s : Sys env) (h : Sound s.store × (s.store.records ≡ rs)).
                                let named = h.0.rest.1.1.1 in
                                let ps : is_known s.store.records a.parent ≡ true =
                                  rw h.1 (ground (arith, known)) in
                                let cs : is_known s.store.records a.context_parent ≡ true =
                                  rw h.1 (ground (arith, known)) in
                                let absent : find a.snapshot_id s.store.records ≡ none =
                                  rw h.1 (ground (arith, new)) in
                                (lease_admit a (known-IsNonempty s.store a.parent named ps)
                                    (known-IsNonempty s.store a.context_parent named cs) env
                                    valid).holds
                                  s (record { unique = h.0.unique; rest = (h.0.rest, absent) });
                          }

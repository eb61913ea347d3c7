-- ===== src/Snapshots/Store/Lease/Scope.antt =====
-- The rule for `with self.lease(...)`: what the body needs holds under the pins, and what it leaves
-- holds after the leases are given back, whether the body returns or raises.
use riderless.Prelude.{String, ◌≡◌, subst, some, List, [], ◌∷◌, All}
use riderless.Action.Triple.{
  Triple, Triple-bind, Triple-then, Triple-pure, Triple-weaken, Triple-finally,
}
use riderless.Snapshots.Store.Types.{Store}
use riderless.Snapshots.Store.Dict.{find}
use riderless.Snapshots.Store.Env.{Env, Do, writes}
use riderless.Snapshots.Store.Env.Rules.{On, Triple-writes}
use riderless.Snapshots.Store.Core.{get}
use riderless.Snapshots.Store.Rule.Safe.{Stable, Inv, Stable-both}
use riderless.Snapshots.Store.Rule.Loops.{Holding, get-keeps}
use riderless.Snapshots.Store.Lease.{ancestors, union, pin, unpin, collect, with_lease}
use riderless.Snapshots.Store.Lease.Ancestors.{contains-ancestors}
use riderless.Snapshots.Store.Lease.Pins.{union-retains, union-adds, Member, modify-Member, All-map}

Members-Stable : (pinned ks : List String) → Stable (λ s. All (Member pinned s) ks)
Members-Stable pinned ks = record {
  neutral = λ s j f t n h. All-map ks (modify-Member s j f (λ r. (n r).id) pinned t) h;
  ticks =
      λ s t h. All-map ks (λ k m. record { object = m.object; found = m.found; named = m.named }) h;
}

Member-grows :
    (pinned ids : List String) (s : Store) (k : String)
    → Member pinned s k
    → Member (union pinned ids) s k
Member-grows pinned ids s k m = record {
  object = m.object;
  found = m.found;
  named = union-retains k pinned ids m.named;
}

module _ (env : Env) (P : Store → Type 0) (stable : Stable P) where
  -- The snapshots that `collect` is given are in the store, and in its result.
  collect-members :
      (ids pinned ks : List String)
      → Triple
          (On {env = env} (Inv (λ s. P s × All (Member pinned s) ks)))
          (collect env ids pinned)
          (λ p. On (λ s. Inv P s × (All (Member p s) ks × All (Member p s) ids)))
          (λ _. On (Inv P))
  unfolding collect
  collect-members [] pinned ks =
      Triple-pure pinned (λ s h. (record { unique = h.unique; rest = h.rest.0 }, (h.rest.1, tt)))
  collect-members (id ∷ ids) pinned ks =
      let G = λ (s : Store). P s × All (Member pinned s) ks in
      Triple-then (λ r. On (λ s. Holding G r s × (r.id ≡ id))) (get env id) _
        (Triple-weaken (get env id) (λ s h. h) (λ a s h. h)
          (λ e s h. record { unique = h.unique; rest = h.rest.0 })
          (get-keeps env G (Stable-both stable (Members-Stable pinned ks)) id))
        λ r. record {
          holds = λ s h.
              let rs = s.store.records in
              let more = ancestors rs id in
              let object = h.0.1.held in
              let here : find id rs ≡ some object =
                subst (λ k. find k rs ≡ some object) h.1 h.0.1.found in
              (Triple-weaken (collect env ids (union pinned more)) (λ s h. h)
                  (λ p s h. (h.0, (h.1.0.1, (h.1.0.0, h.1.1)))) (λ e s h. h)
                  (collect-members ids (union pinned more) (id ∷ ks))).holds
                s
                (record {
                  unique = h.0.0.unique;
                  rest = (
                    h.0.0.rest.0,
                    (
                      record {
                        object = object;
                        found = here;
                        named = union-adds id pinned more (contains-ancestors rs id object here);
                      },
                      All-map ks (Member-grows pinned more s.store) h.0.0.rest.1,
                    ),
                  );
                });
        }

  module _ {A : Type 0} (R F : Store → Type 0) (G : A → Store → Type 0) (ids : List String) where
    pub Triple-with_lease :
        (body : Do env A)
        → ((pinned : List String) (s : Store)
            → Inv P s
            → All (Member pinned s) ids
            → Inv R (pin pinned s))
        → Triple (On (Inv R)) body (λ a. On (G a)) (λ _. On F)
        → ((pinned : List String) (a : A) (s : Store) → G a s → G a (unpin pinned s))
        → ((pinned : List String) (s : Store) → F s → F (unpin pinned s))
        → ((s : Store) → Inv P s → F s)
        → Triple (On (Inv P)) (with_lease env ids body) (λ a. On (G a)) (λ _. On F)
    unfolding with_lease
    Triple-with_lease body enter inside leave fail lost =
        Triple-bind (λ p. On (λ s. Inv P s × All (Member p s) ids)) (collect env ids []) _
          (Triple-weaken (collect env ids [])
            (λ s h. record { unique = h.unique; rest = (h.rest, tt) }) (λ p s h. (h.0, h.1.1))
            (λ e s h. lost s.store h) (collect-members ids [] []))
          λ p.
            Triple-then (λ _. On (Inv R)) (writes (pin p)) _
              (Triple-writes (λ s. Inv P s × All (Member p s) ids) (Inv R) (pin p)
                (λ s h. enter p s h.0 h.1))
              λ _.
                Triple-finally (λ a. On (G a)) (λ _. On F) body (writes (unpin p)) inside
                  (λ a. Triple-writes (G a) (G a) (unpin p) (λ s h. leave p a s h))
                  (λ e. Triple-writes F F (unpin p) (λ s h. fail p s h))

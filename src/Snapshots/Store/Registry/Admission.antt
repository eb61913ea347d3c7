-- ===== src/Snapshots/Store/Registry/Admission.antt =====
-- `register` from the reservation of the bytes on: the ways it may return or raise.
use riderless.Prelude.{◌+◌, String, ◌≡◌, refl, subst, sym, true, Option, none, some, arith, is_some}
use riderless.Action.{pure, ◌>>=◌, ◌>>◌, on_error}
use riderless.Action.Triple.{
  Triple, Triple-then, Triple-pure, Triple-if, Triple-on_error, Triple-weaken,
}
use riderless.Snapshots.Errors.{Error}
use riderless.Snapshots.Schema.{is_disk}
use riderless.Snapshots.Store.Types.{SnapshotRecord, Store}
use riderless.Snapshots.Store.Dict.{find}
use riderless.Snapshots.Store.Env.{Env, ask, reads, writes}
use riderless.Snapshots.Store.Env.Rules.{
  On, Keeps, Keeps-then, Keeps-bind, Keeps-ask, Triple-writes,
}
use riderless.Snapshots.Store.Core.{forget}
use riderless.Snapshots.Store.Manifest.{valid_id}
use riderless.Snapshots.Store.Persist.{guard, persist}
use riderless.Snapshots.Store.Budget.{fits, enforce_budget}
use riderless.Snapshots.Store.Rule.{Current-of_find}
use riderless.Snapshots.Store.Rule.Safe.{Safe, Safe-both, Inv, forget-Inv}
use riderless.Snapshots.Store.Rule.Loops.{Holding}
use riderless.Snapshots.Store.Rule.Publishing.{persist-Keeps, Keeps-lift}
use riderless.Snapshots.Store.Rule.Evictions.{Room, enforce_budget-keeps}
use riderless.Snapshots.Store.Accounting.{IsSound, IsAbsent, IsPinned}
use riderless.Snapshots.Store.Accounting.Pinned.{IsPinned-Safe}
use riderless.Snapshots.Store.Accounting.Presence.{IsSound-Safe, IsAbsent-Safe}
use riderless.Snapshots.Store.Registry.{
  Registration, new_record, is_promotion, current, enter, check_against, check_promotion,
  persist_new, admit,
}
use riderless.Snapshots.Store.Registry.Entering.{Resolved, find-enter, enter-IsSound}
use riderless.Snapshots.Store.Registry.Soundness.{Sound}

-- A reference, if there is one, leads to a leased snapshot.
abbrev pub PinnedRef : Option String → Store → Type 0
PinnedRef none s = Unit
PinnedRef (some k) s = IsPinned k s

PinnedRef-Safe : (o : Option String) → Safe (PinnedRef o)
PinnedRef-Safe none = record {
  stable = record { neutral = λ s k f t n h. tt; ticks = λ s t h. tt };
  forgets = λ s r c l n u h. tt;
  pages_out = λ s r c l n u h. tt;
}
PinnedRef-Safe (some k) = IsPinned-Safe k

PinnedRef-Resolved : (o : Option String) (s : Store) → PinnedRef o s → Resolved o s.records
PinnedRef-Resolved none s h = tt
PinnedRef-Resolved (some k) s h = (h.pinned, h.found)

-- What `admit` needs: a sound store without the new key, and leased parents.
abbrev pub Ready : Registration → Store → Type 0
Ready a s =
    IsSound s × (IsAbsent a.snapshot_id s × (PinnedRef a.parent s × PinnedRef a.context_parent s))

Ready-Safe : (a : Registration) → Safe (Ready a)
Ready-Safe a = Safe-both IsSound-Safe (
    Safe-both (IsAbsent-Safe a.snapshot_id)
      (Safe-both (PinnedRef-Safe a.parent) (PinnedRef-Safe a.context_parent)))

-- The store holds the snapshot that a call registered.
abbrev pub Registered : Registration → SnapshotRecord → Store → Type 0
Registered a r s =
    Sound s × ((r.id ≡ a.snapshot_id) × (is_some (find a.snapshot_id s.records) ≡ true))

module _ (env : Env) where
  check_against-Keeps :
      (Q : Store → Type 0) (r : SnapshotRecord) (o : Option SnapshotRecord)
      → Keeps {env = env} Q (check_against env r o)
  unfolding check_against
  check_against-Keeps Q r none = record { holds = λ s h. h }
  check_against-Keeps Q r (some p) = Keeps-lift Q (guard (is_promotion r p) Error.integrity)

  check_promotion-Keeps :
      (Q : Store → Type 0) (r : SnapshotRecord) → Keeps {env = env} Q (check_promotion env r)
  unfolding check_promotion
  check_promotion-Keeps Q r = go r.promotion_of
    where
      go :
          (o : Option String)
          → Keeps {env = env} {A = Unit {0}} Q (elim o [
            | none ↦ pure tt
            | some id ↦ do parent ← reads (λ s. find id s.records); check_against env r parent
          ])
      go none = record { holds = λ s h. h }
      go (some id) = record {
        holds = λ s h. (check_against-Keeps Q r (find id s.store.records)).holds s h;
      }

  -- The `try` block keeps the record, or forgets it.
  persist_new-Sound :
      (r : SnapshotRecord)
      → r.leases ≡ 0
      → r.refcount ≡ 0
      → Triple
          (On (Holding IsSound r))
          (persist_new env r)
          (λ _. On (Holding IsSound r))
          (λ _. On Sound)
  unfolding persist_new
  persist_new-Sound r l n =
      let H = Holding IsSound r in
      Triple-if (is_disk r.persistence) (on_error (persist env r) (writes (forget r))) (pure tt)
        (λ _.
          Triple-on_error (λ _. On H) (persist env r) (writes (forget r))
            (persist-Keeps env IsSound IsSound-Safe.stable r)
            (λ e.
              Triple-writes H Sound (forget r) (λ s h. forget-Inv IsSound-Safe s r h.1 l n h.0)))
        (λ _. Triple-pure tt (λ s h. h))

  -- Once the record is built: it is checked, entered, and persisted if it is for the disk.
  settle_record :
      (a : Registration) (r : SnapshotRecord)
      → r.id ≡ a.snapshot_id
      → r.parent ≡ a.parent
      → r.context_parent ≡ a.context_parent
      → r.host_bytes ≡ a.host_bytes
      → r.leases ≡ 0
      → r.refcount ≡ 0
      → r.resident ≡ true
      → valid_id a.snapshot_id ≡ true
      → Triple
          (On {env = env} (Room env (Ready a) (Ready-Safe a) a.host_bytes))
          (do check_promotion env r; writes (enter r); persist_new env r; reads (current r))
          (λ x. On (Registered a x))
          (λ _. On Sound)
  settle_record a r id parent context bytes l n live valid =
      let Q = Room env (Ready a) (Ready-Safe a) a.host_bytes in
      Keeps-then Q Sound (check_promotion env r) _ (check_promotion-Keeps Q r) weaken (
        Triple-then (λ _. On (Holding IsSound r)) (writes (enter r)) _
          (Triple-writes Q (Holding IsSound r) (enter r) entering)
          λ _.
            Triple-then (λ _. On (Holding IsSound r)) (persist_new env r) (reads (current r))
              (persist_new-Sound r l n) λ _. record { holds = λ s h. finished s.store h })
    where
      sound : (s : Store) → Inv (Ready a) s → Sound s
      sound s h = record { unique = h.unique; rest = h.rest.0 }

      weaken : (s : Store) → Room env (Ready a) (Ready-Safe a) a.host_bytes s → Sound s
      weaken s h = sound s h.0

      entering :
          (s : Store)
          → Room env (Ready a) (Ready-Safe a) a.host_bytes s
          → Holding IsSound r (enter r s)
      entering s h =
          let absent : IsAbsent r.id s = subst (λ k. IsAbsent k s) (sym id) h.0.rest.1.0 in
          let p : Resolved r.parent s.records =
            subst (λ o. Resolved o s.records) (sym parent)
              (PinnedRef-Resolved a.parent s h.0.rest.1.1.0) in
          let c : Resolved r.context_parent s.records =
            subst (λ o. Resolved o s.records) (sym context)
              (PinnedRef-Resolved a.context_parent s h.0.rest.1.1.1) in
          (
            enter-IsSound r s (sound s h.0) absent p c n live
                (subst (λ b. fits b s ≡ true) (sym bytes) h.1)
                (subst (λ k. valid_id k ≡ true) (sym id) valid),
            Current-of_find r (enter r s).records (find-enter r s (sound s h.0) absent p c n),
          )

      finished : (s : Store) → Holding IsSound r s → Registered a (current r s) s
      finished s h =
          let found = h.1.found in
          let same = h.1.alike in
          (
            h.0,
            (
              ground (arith, found, same.id, id),
              subst (λ k. is_some (find k s.records) ≡ true) id (ground (arith, found)),
            ),
          )

  pub admit-Registered :
      (a : Registration)
      → valid_id a.snapshot_id ≡ true
      → Triple
          (On {env = env} (Inv (Ready a)))
          (admit env a)
          (λ x. On (Registered a x))
          (λ _. On Sound)
  unfolding admit new_record fits
  admit-Registered a valid =
      let Q = Room env (Ready a) (Ready-Safe a) a.host_bytes in
      Triple-then (λ _. On Q) (enforce_budget env a.host_bytes) _
        (Triple-weaken (enforce_budget env a.host_bytes) (λ s h. h) (λ _ s h. h)
          (λ e s h. record { unique = h.unique; rest = h.rest.0 })
          (enforce_budget-keeps env (Ready a) (Ready-Safe a) a.host_bytes))
        λ _.
          Keeps-bind Q Sound (ask env.clock) _ (Keeps-ask Q env.clock)
            (λ s h. record { unique = h.0.unique; rest = h.0.rest.0 })
            λ t. record {
              holds = λ s h.
                  (settle_record a (new_record a t (s.store.tick + 1)) refl refl refl refl refl refl
                      refl valid).holds
                    (record s { store = record s.store { tick = s.store.tick + 1 } })
                    (ticked s.store h);
            }
    where
      ticked :
          (s : Store)
          → Room env (Ready a) (Ready-Safe a) a.host_bytes s
          → Room env (Ready a) (Ready-Safe a) a.host_bytes (record s { tick = s.tick + 1 })
      ticked s h = (
        record { unique = h.0.unique; rest = (Ready-Safe a).stable.ticks s (s.tick + 1) h.0.rest },
        h.1,
      )

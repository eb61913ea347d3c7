-- ===== src/Snapshots/Service/Releases.antt =====
-- `start` and `_background_recovery` let the service go, as the requests do.
use riderless.Prelude.{
  ◌≡◌, refl, ap, [], Bool, true, false, inl, inr, sym, subst, ◌∙◌, if◌then◌else◌,
}
use riderless.Action.{Outcome, ok, err, modifies, finally}
use riderless.Action.Triple.{Meets, Triple, Triple-bind, Triple-then, Triple-weaken}
use riderless.Snapshots.Errors.{Error}
use riderless.Snapshots.Service.{
  Parts, Service, Serve, call, start, recover, suppressed, serialized, background_recovery,
}
use riderless.Snapshots.Service.Lifecycle.{IsReleased, IsLike, call-IsLike, serialized-IsReleased}
use riderless.Snapshots.Service.Recovery.{Revived, recover-Revived}

module _ (parts : Parts) where
  pub start-IsReleased :
      (s : Service parts) → IsReleased parts s → IsReleased parts (start parts s).1
  unfolding start
  start-IsReleased s h = go (start parts s) (begun.holds s ((refl, refl, refl), refl))
    where
      L : Service parts → Type 0
      L t = IsReleased parts t

      kept : (t : Service parts) → IsLike parts s t → L t
      kept t k = (k.0.1 ∙ h.0, k.0.2 ∙ h.1)

      begun : Triple {E = Error} {A = Unit {0}} (IsLike parts s) (start parts) (λ _. L) (λ _. L)
      begun =
          Triple-bind (λ _. IsLike parts s) (call parts parts.start) _ (called parts.start)
            λ hello.
              Triple-bind (λ _. IsLike parts s) (call parts (parts.new_store hello)) _
                (called (parts.new_store hello))
                λ store.
                  Triple-then (λ _. IsLike parts s) (call parts (parts.expire store)) _
                    (called (parts.expire store)) (λ _. record { holds = λ t k. kept t k })
        where
          called :
              {A : Type 0} (f : parts.World → Outcome Error A × parts.World)
              → Triple (IsLike parts s) (call parts f) (λ _. IsLike parts s) (λ _. L)
          called f =
              Triple-weaken (call parts f) (λ t k. k) (λ a t k. k) (λ e t k. kept t k)
                (call-IsLike parts s f)

      go :
          (r : Outcome Error (Unit {0}) × Service parts)
          → Meets (λ _. L) (λ _. L) r
          → IsReleased parts r.1
      go (ok x, t) k = k
      go (err e, t) k = k

  pub serialized-lets_go :
      {A : Type 0} (body : parts.Hello → parts.Store → Serve parts A) (s : Service parts)
      → IsReleased parts s
      → IsReleased parts (serialized parts body s).1
  serialized-lets_go body s h = elim (serialized-IsReleased parts body s) [
    | inl k ↦ k.1
    | inr k ↦ subst (IsReleased parts) (sym k.1) h
  ]

  -- what a recovery leaves pending
  recover-pending : (s : Service parts) → (recover parts s).1.pending_ids ≡ s.pending_ids
  recover-pending s = elim (recover-Revived parts s) [
    | inl h ↦ ap (λ r. r.1.pending_ids) h.1
    | inr (first, p, q, h) ↦ left first (recover parts s) h
  ]
    where
      left :
          (first : parts.Hello) (r : Outcome Error (Unit {0}) × Service parts)
          → Revived parts first s r
          → r.1.pending_ids ≡ s.pending_ids
      left first (ok x, t) k = k.0.2
      left first (err x, t) k = k.0.0.2

  pub background_recovery-IsReleased :
      (s : Service parts) → IsReleased parts s → IsReleased parts (background_recovery parts s).1
  unfolding background_recovery
  background_recovery-IsReleased s h = go s.busy
    where
      t : Service parts
      t = record s { busy = true }

      after :
          (r : Outcome Error (Unit {0}) × Service parts)
          → r.1.pending_ids ≡ []
          → (suppressed parts r).1.pending_ids ≡ []
      after (err Error.unavailable, u) e = e
      after (err x, u) e = e
      after (ok x, u) e = e

      go :
          (b : Bool)
          → IsReleased parts
              (if b
                then (ok tt, s)
                else finally
                    (λ u. suppressed parts (recover parts u))
                    (modifies (λ u. record u { busy = false }))
                    t).1
      go true = h
      go false = (refl, after (recover parts t) (recover-pending t ∙ h.1))

-- ===== src/Snapshots/Service/Invariants.antt =====
-- What `_serialized` keeps: a predicate on the world that each part keeps, and the body keeps, is kept
-- by the recovery, the request and its rollback.
use riderless.Prelude.{
  ℕ, ◌+◌, String, Bool, true, false, not, Option, none, some, is_some, List, [], ◌∷◌, ltb,
  if◌then◌else◌,
}
use riderless.Action.{Outcome, ok, err, raise, gets, modifies, on_error, finally, ◌>>◌}
use riderless.Action.Triple.{
  Meets, Triple, Triple-bind, Triple-then, Triple-pure, Triple-raise, Triple-if, Triple-on_error,
  Triple-finally,
}
use riderless.Snapshots.Errors.{Error}
use riderless.Snapshots.Service.{
  Parts, Service, Serve, call, is_ready, monotonic, restart, failed, revive, retry, recover,
  reclaimed, reclaim_each, reverse, rollback, release, prepared, serialized, start, suppressed,
  background_recovery,
}

-- Every part keeps the predicate.
pub record Respects (parts : Parts) (W : parts.World → Type 0) : Type 0 where
  pub monotonic : (w : parts.World) → W w → W (parts.monotonic w).1
  pub start : (w : parts.World) → W w → W (parts.start w).1
  pub close : (w : parts.World) → W w → W (parts.close w).1
  pub drop : (id : String) (w : parts.World) → W w → W (parts.drop id w).1
  pub new_store : (hello : parts.Hello) (w : parts.World) → W w → W (parts.new_store hello w).1
  pub expire : (store : parts.Store) (w : parts.World) → W w → W (parts.expire store w).1
  pub delete :
      (store : parts.Store) (id : String) (w : parts.World) → W w → W (parts.delete store id w).1

module _ (parts : Parts) (W : parts.World → Type 0) where
  abbrev pub Within : Service parts → Type 0
  Within s = W s.world

  abbrev pub Guards : {A : Type 0} → Serve parts A → Type 0
  Guards m = Triple Within m (λ _. Within) (λ _. Within)

  -- the predicate holds of the world that is left
  abbrev Leaves : {A : Type 0} → Outcome Error A × Service parts → Type 0
  Leaves r = Meets (λ _. Within) (λ _. Within) r

  pub Guards-call :
      {A : Type 0} (f : parts.World → Outcome Error A × parts.World)
      → ((w : parts.World) → W w → W (f w).1)
      → Guards (call parts f)
  Guards-call {A} f k = record { holds = λ s h. go s (f s.world) (k s.world h) }
    where
      go :
          (s : Service parts) (r : Outcome Error A × parts.World)
          → W r.1
          → Leaves (let (o, w) = r in (o, record s { world = w }))
      go s (ok a, w) h = h
      go s (err e, w) h = h

  module _ (respects : Respects parts W) where
    restart-Guards : (first : parts.Hello) → Guards (restart parts first)
    unfolding restart
    restart-Guards first =
        Triple-bind (λ _. Within) _ _ (Guards-call parts.start respects.start)
          λ hello.
            Triple-if (parts.same_hello hello first) _ _
              (λ _.
                Triple-bind (λ _. Within) _ _
                  (Guards-call (parts.new_store hello) (respects.new_store hello))
                  (λ store.
                    Triple-then (λ _. Within) _ _
                      (Guards-call (parts.expire store) (respects.expire store))
                      (λ _. Triple-pure store (λ s h. h))))
              (λ _.
                Triple-then (λ _. Within) _ _ (Guards-call parts.close respects.close)
                  (λ _. Triple-raise Error.unavailable (λ s h. h)))

    revive-Guards : (first : parts.Hello) → Guards (revive parts first)
    unfolding revive
    revive-Guards first =
        Triple-bind (λ _. Within) _ _
          (record { holds = λ s h. go (restart parts first s) ((restart-Guards first).holds s h) })
          (λ store. record { holds = λ s h. h })
      where
        go : (r : Outcome Error parts.Store × Service parts) → Leaves r → Leaves (failed parts r)
        go (ok st, s) h = h
        go (err e, s) h = respects.monotonic s.world h

    retry-Guards : (first : parts.Hello) (f : Option ℕ) → Guards (retry parts first f)
    unfolding retry
    retry-Guards first none = revive-Guards first
    retry-Guards first (some failed_at) =
        Triple-bind (λ _. Within) (monotonic parts) _
          (record { holds = λ s h. respects.monotonic s.world h })
          λ t.
            Triple-if (ltb t (failed_at + 10)) _ _ (λ _. Triple-raise Error.unavailable (λ s h. h))
              (λ _. revive-Guards first)

    pub recover-Guards : Guards (recover parts)
    unfolding recover
    recover-Guards = record { holds = λ s h. go s h s.profile (is_ready parts s) }
      where
        go :
            (s : Service parts)
            → Within s
            → (p : Option parts.Hello) (b : Bool)
            → Leaves {A = Unit {0}} (elim p [
              | none ↦ (ok tt, s)
              | some first ↦ if b then (ok tt, s) else retry parts first s.recovery_failed_at s
            ])
        go s h none b = h
        go s h (some first) true = h
        go s h (some first) false = (retry-Guards first s.recovery_failed_at).holds s h

    reclaim_each-Guards :
        (store : parts.Store) (ids : List String) → Guards (reclaim_each parts store ids)
    unfolding reclaim_each
    reclaim_each-Guards store [] = Triple-pure tt (λ s h. h)
    reclaim_each-Guards store (id ∷ ids) =
        Triple-then (λ _. Within) _ _
          (record {
            holds = λ s h.
                go (call parts (parts.delete store id) s)
                  ((Guards-call (parts.delete store id) (respects.delete store id)).holds s h);
          })
          (λ _. reclaim_each-Guards store ids)
      where
        go : (r : Outcome Error ℕ × Service parts) → Leaves r → Leaves (reclaimed parts id r)
        go (ok n, s) h = h
        go (err Error.unavailable, s) h = h
        go (err e, s) h = respects.drop id s.world h

    rollback-Guards : Guards (rollback parts)
    unfolding rollback
    rollback-Guards = record { holds = λ s h. go s h s.store }
      where
        go :
            (s : Service parts)
            → Within s
            → (o : Option parts.Store)
            → Leaves {A = Unit {0}} (elim o [
              | none ↦ (ok tt, s)
              | some store ↦ reclaim_each parts store (reverse s.pending_ids) s
            ])
        go s h none = h
        go s h (some store) = (reclaim_each-Guards store (reverse s.pending_ids)).holds s h

    pub start-Guards : Guards (start parts)
    unfolding start
    start-Guards =
        Triple-bind (λ _. Within) _ _ (Guards-call parts.start respects.start)
          λ hello.
            Triple-bind (λ _. Within) _ _
              (Guards-call (parts.new_store hello) (respects.new_store hello))
              λ store.
                Triple-then (λ _. Within) _ _
                  (Guards-call (parts.expire store) (respects.expire store))
                  (λ _. record { holds = λ s h. h })

    pub background_recovery-Guards : Guards (background_recovery parts)
    unfolding background_recovery
    background_recovery-Guards = record { holds = λ s h. go s h s.busy }
      where
        after :
            (r : Outcome Error (Unit {0}) × Service parts) → Leaves r → Leaves (suppressed parts r)
        after (err Error.unavailable, s) h = h
        after (err e, s) h = h
        after (ok x, s) h = h

        attempt : Guards (
            finally
              (λ t. suppressed parts (recover parts t))
              (modifies (λ t. record t { busy = false })))
        attempt =
            Triple-finally (λ _. Within) (λ _. Within) (λ t. suppressed parts (recover parts t))
              (modifies (λ t. record t { busy = false }))
              (record { holds = λ s h. after (recover parts s) (recover-Guards.holds s h) })
              (λ a. record { holds = λ s h. h }) (λ e. record { holds = λ s h. h })

        go :
            (s : Service parts)
            → Within s
            → (b : Bool)
            → Leaves {A = Unit {0}} (
                if b
                then (ok tt, s)
                else finally
                    (λ t. suppressed parts (recover parts t))
                    (modifies (λ t. record t { busy = false }))
                    (record s { busy = true }))
        go s h true = h
        go s h false = attempt.holds (record s { busy = true }) h

    module _ {A : Type 0} (body : parts.Hello → parts.Store → Serve parts A)
        (keeps : (hello : parts.Hello) (store : parts.Store) → Guards (body hello store)) where
      prepared-Guards : (hello : parts.Hello) → Guards (prepared parts hello body)
      unfolding prepared
      prepared-Guards hello =
          Triple-bind (λ _. Within) (gets (is_ready parts)) _ (record { holds = λ s h. h })
            λ alive.
              Triple-then (λ _. Within) _ _
                (Triple-if alive _ _ (λ _. Triple-pure tt (λ s h. h)) (λ _. recover-Guards))
                λ _.
                  Triple-bind (λ _. Within) (gets (λ s. s.store)) _ (record { holds = λ s h. h }) go
        where
          go :
              (o : Option parts.Store)
              → Guards {A = A} (elim o [
                | none ↦ raise (Error.foreign "AttributeError")
                | some st ↦ call parts (parts.expire st) >> body hello st
              ])
          go none = Triple-raise (Error.foreign "AttributeError") (λ s h. h)
          go (some st) =
              Triple-then (λ _. Within) _ _ (Guards-call (parts.expire st) (respects.expire st))
                (λ _. keeps hello st)

      pub serialized-Guards : Guards (serialized parts body)
      unfolding serialized
      serialized-Guards = record { holds = λ s h. go s h s.profile (is_some s.store) s.busy }
        where
          inside :
              (hello : parts.Hello)
              → Guards (
                  finally
                    (on_error (prepared parts hello body) (rollback parts))
                    (modifies (release parts)))
          inside hello =
              Triple-finally (λ _. Within) (λ _. Within) _ (modifies (release parts))
                (Triple-on_error (λ _. Within) (prepared parts hello body) (rollback parts)
                  (prepared-Guards hello) (λ e. rollback-Guards))
                (λ a. record { holds = λ s h. h }) (λ e. record { holds = λ s h. h })

          go :
              (s : Service parts)
              → Within s
              → (p : Option parts.Hello) (there busy : Bool)
              → Leaves {A = A} (elim p [
                | none ↦ (err Error.unavailable, s)
                | some hello ↦
                    if not there
                    then (err Error.unavailable, s)
                    else if busy
                    then (err (Error.foreign "SnapshotBusyError"), s)
                    else finally
                        (on_error (prepared parts hello body) (rollback parts))
                        (modifies (release parts))
                        (record s { busy = true })
              ])
          go s h none there busy = h
          go s h (some hello) false busy = h
          go s h (some hello) true true = h
          go s h (some hello) true false = (inside hello).holds (record s { busy = true }) h

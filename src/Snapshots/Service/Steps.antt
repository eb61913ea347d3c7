-- ===== src/Snapshots/Service/Steps.antt =====
-- The service as a state machine: from `__init__`, one request or recovery after another.
use riderless.Prelude.{
  ◌&&◌, leb, ltb, ◌||◌, ◌-◌, ◌≡◌, refl, Bool, true, not, Option, some, is_some, arith,
  if◌then◌else◌, ℕ, String, false, none, [],
}
use riderless.Action.{Outcome, ok, err, pure, raise, continue}
use riderless.Action.Triple.{Meets}
use riderless.Mapping.Arithmetic.{Floats}
use riderless.Snapshots.Errors.{Error}
use riderless.Snapshots.Schema.{is_b18}
use riderless.Snapshots.Wire.Rows.{WorkerHello}
use riderless.Snapshots.Wire.Vectors.{Which, WorkerVectors}
use riderless.Snapshots.Wire.Requests.{
  SnapshotCreateRequest, V2DecisionRequest, StateEvaluationRequest, RiderRequest,
}
use riderless.Snapshots.Store.Env.{Env}
use riderless.Snapshots.Service.{Service, Serve, start, background_recovery}
use riderless.Snapshots.Service.Office.{Backend, Settings, parts}
use riderless.Snapshots.Service.Decisions.{decide}
use riderless.Snapshots.Service.Evaluations.{state_eval, ride, vectors}
use riderless.Snapshots.Service.Creation.{create, describe, remove}
use riderless.Snapshots.Service.Lifecycle.{is_free, IsReleased}
use riderless.Snapshots.Service.Releases.{
  start-IsReleased, serialized-lets_go, background_recovery-IsReleased,
}
use riderless.Snapshots.Service.Soundness.Stores.{AllSound, Safely}
use riderless.Snapshots.Service.Soundness.Requests.{
  start-Safely, background_recovery-Safely, describe-Safely, remove-Safely, vectors-Safely,
  state_eval-Safely, ride-Safely, create-Safely, decide-Safely,
}

module _ (repr : ℕ → String) (env : Env) (fl : Floats) (backend : Backend env fl)
    (settings : Settings) where
  -- `SnapshotService(...)`
  unfoldable pub new_service : env.World → Service (parts env fl backend settings)
  new_service w = record {
    profile = none;
    store = none;
    busy = false;
    pending_ids = [];
    recovery_failed_at = none;
    world = record { world = w; stores = [] };
  }

  -- a call of a method, from the state before to the state after
  pub data Step
      : Service (parts env fl backend settings)
        → Service (parts env fl backend settings)
        → Type 0 where
    started :
        (s : Service (parts env fl backend settings))
        → Step s (start (parts env fl backend settings) s).1
    recovered :
        (s : Service (parts env fl backend settings))
        → Step s (background_recovery (parts env fl backend settings) s).1
    created :
        (request : SnapshotCreateRequest) (owner : String)
        (s : Service (parts env fl backend settings))
        → Step s (create repr env fl backend settings request owner s).1
    decided :
        (request : V2DecisionRequest) (owner : String) (s : Service (parts env fl backend settings))
        → Step s (decide repr env fl backend settings request owner s).1
    evaluated :
        (request : StateEvaluationRequest) (owner : String)
        (s : Service (parts env fl backend settings))
        → Step s (state_eval env fl backend settings request owner s).1
    ridden :
        (request : RiderRequest) (s : Service (parts env fl backend settings))
        → Step s (ride env fl backend settings request s).1
    read :
        (id : String) (which : Which) (row_begin row_end : ℕ)
        (s : Service (parts env fl backend settings))
        → Step s (vectors env fl backend settings id which row_begin row_end s).1
    described :
        (id : String) (s : Service (parts env fl backend settings))
        → Step s (describe env fl backend settings id s).1
    removed :
        (id : String) (s : Service (parts env fl backend settings))
        → Step s (remove env fl backend settings id s).1

  -- the states that a sequence of calls leads to
  pub data Reaches
      : Service (parts env fl backend settings)
        → Service (parts env fl backend settings)
        → Type 0 where
    here : (s : Service (parts env fl backend settings)) → Reaches s s
    later : (s t u : Service (parts env fl backend settings)) → Reaches s t → Step t u → Reaches s u

  Safely-at :
      {A : Type 0} (m : Serve (parts env fl backend settings) A)
      → Safely env fl backend settings m
      → (s : Service (parts env fl backend settings)) → AllSound s.world
      → AllSound (m s).1.world
  Safely-at {A} m k s h = go (m s) (k.holds s h)
    where
      go :
          (r : Outcome Error A × Service (parts env fl backend settings))
          → Meets (λ _ t. AllSound t.world) (λ _ t. AllSound t.world) r
          → AllSound r.1.world
      go (ok a, t) h = h
      go (err e, t) h = h

  Step-AllSound :
      (s t : Service (parts env fl backend settings))
      → Step s t
      → AllSound s.world
      → AllSound t.world
  Step-AllSound _ _ (started s) h = Safely-at _ (start-Safely env fl backend settings) s h
  Step-AllSound _ _ (recovered s) h =
      Safely-at _ (background_recovery-Safely env fl backend settings) s h
  Step-AllSound _ _ (created request owner s) h =
      Safely-at _ (create-Safely repr env fl backend settings request owner) s h
  Step-AllSound _ _ (decided request owner s) h =
      Safely-at _ (decide-Safely repr env fl backend settings request owner) s h
  Step-AllSound _ _ (evaluated request owner s) h =
      Safely-at _ (state_eval-Safely env fl backend settings request owner) s h
  Step-AllSound _ _ (ridden request s) h =
      Safely-at _ (ride-Safely env fl backend settings request) s h
  Step-AllSound _ _ (read id which row_begin row_end s) h =
      Safely-at _ (vectors-Safely env fl backend settings id which row_begin row_end) s h
  Step-AllSound _ _ (described id s) h =
      Safely-at _ (describe-Safely env fl backend settings id) s h
  Step-AllSound _ _ (removed id s) h = Safely-at _ (remove-Safely env fl backend settings id) s h

  Reaches-AllSound :
      (s t : Service (parts env fl backend settings))
      → Reaches s t
      → AllSound s.world
      → AllSound t.world
  Reaches-AllSound _ _ (here s) h = h
  Reaches-AllSound _ _ (later s u t r k) h = Step-AllSound u t k (Reaches-AllSound s u r h)

  -- After any sequence of calls of a new service, each of which may have failed at any point, every store
  -- that the service has built is sound: distinct and well-formed ids, `_resident_bytes` the sum over the
  -- resident snapshots and within the budget, and every `refcount` the number of references.
  pub reached-AllSound :
      (w : env.World) (s : Service (parts env fl backend settings))
      → Reaches (new_service w) s
      → AllSound s.world
  unfolding new_service
  reached-AllSound w s r = Reaches-AllSound (new_service w) s r tt

  raised-IsReleased :
      {A : Type 0} (b : Bool) (e : Error) (m : Serve (parts env fl backend settings) A)
      (s : Service (parts env fl backend settings))
      → IsReleased (parts env fl backend settings) s
      → IsReleased (parts env fl backend settings) (m s).1
      → IsReleased (parts env fl backend settings) ((if b then raise e else m) s).1
  raised-IsReleased true e m s h k = h
  raised-IsReleased false e m s h k = k

  mapped-IsReleased :
      {A B : Type 0} (f : A → B) (r : Outcome Error A × Service (parts env fl backend settings))
      → IsReleased (parts env fl backend settings) r.1
      → IsReleased (parts env fl backend settings) (continue (λ a. pure (f a)) r).1
  mapped-IsReleased f (ok a, s) h = h
  mapped-IsReleased f (err e, s) h = h

  Step-IsReleased :
      (s t : Service (parts env fl backend settings))
      → Step s t
      → IsReleased (parts env fl backend settings) s
      → IsReleased (parts env fl backend settings) t
  unfolding decide state_eval ride vectors create describe remove
  Step-IsReleased _ _ (started s) h = start-IsReleased (parts env fl backend settings) s h
  Step-IsReleased _ _ (recovered s) h =
      background_recovery-IsReleased (parts env fl backend settings) s h
  Step-IsReleased _ _ (created request owner s) h =
      serialized-lets_go (parts env fl backend settings) _ s h
  Step-IsReleased _ _ (decided request owner s) h =
      raised-IsReleased (is_b18 request.readout) _ _ s h
        (serialized-lets_go (parts env fl backend settings) _ s h)
  Step-IsReleased _ _ (evaluated request owner s) h =
      raised-IsReleased (is_b18 request.readout.completed_blocks) _ _ s h
        (serialized-lets_go (parts env fl backend settings) _ s h)
  Step-IsReleased _ _ (ridden request s) h =
      serialized-lets_go (parts env fl backend settings) _ s h
  Step-IsReleased _ _ (read id which row_begin row_end s) h =
      raised-IsReleased (leb row_end row_begin || ltb 64 (row_end - row_begin)) _ _ s h (
        mapped-IsReleased (λ (worker : WorkerVectors). worker.tensor) _
          (serialized-lets_go (parts env fl backend settings) _ s h))
  Step-IsReleased _ _ (described id s) h = serialized-lets_go (parts env fl backend settings) _ s h
  Step-IsReleased _ _ (removed id s) h = serialized-lets_go (parts env fl backend settings) _ s h

  Reaches-IsReleased :
      (s t : Service (parts env fl backend settings))
      → Reaches s t
      → IsReleased (parts env fl backend settings) s
      → IsReleased (parts env fl backend settings) t
  Reaches-IsReleased _ _ (here s) h = h
  Reaches-IsReleased _ _ (later s u t r k) h = Step-IsReleased u t k (Reaches-IsReleased s u r h)

  -- After any sequence of calls of a new service, no request holds it and no id is left to take back: the
  -- next request is let in exactly where the service has a profile and a store.
  pub reached-IsReleased :
      (w : env.World) (s : Service (parts env fl backend settings))
      → Reaches (new_service w) s
      → IsReleased (parts env fl backend settings) s
        × (is_free (parts env fl backend settings) s ≡ (is_some s.profile && is_some s.store))
  unfolding new_service
  reached-IsReleased w s r =
      let idle = Reaches-IsReleased (new_service w) s r (refl, refl) in
      (idle, free s.profile (is_some s.store) s.busy idle.0)
    where
      free :
          (o : Option WorkerHello) (there busy : Bool)
          → busy ≡ false
          → (elim o as (λ _. Bool) [
            | none ↦ false
            | some hello ↦ if there then not busy else false
          ])
            ≡ (is_some o && there)
      free none there busy e = refl
      free (some hello) true busy e = ground (arith, e)
      free (some hello) false busy e = refl

-- ===== src/Snapshots/Service.antt =====
-- unridden/api/snapshots/service.py: the life of `SnapshotService`. One request at a time holds the
-- service; it restarts a dead worker before it runs, and takes back what it left behind where it
-- fails. `asyncio.CancelledError` and the locks, which order the requests, are not modelled.
pub mod Lifecycle
pub mod Recovery
pub mod Releases
pub mod Steps
pub mod Soundness
pub mod Invariants
pub mod Office
pub mod Planning
pub mod Decisions
pub mod Evaluations
pub mod Creation
pub mod Rides
pub mod Riding
pub mod Entries
pub mod Returns
pub mod Answers
pub mod Replies
mod Examples
mod Simulation
use riderless.Prelude.{
  ℕ, ◌+◌, String, Bool, true, false, not, ◌&&◌, ◌||◌, Option, none, some, is_some, List, [], ◌∷◌,
  ◌++◌, ltb, if◌then◌else◌,
}
use riderless.Action.{
  Outcome, ok, err, Action, pure, raise, gets, modifies, on_error, finally, ◌>>=◌, ◌>>◌,
}
use riderless.Snapshots.Errors.{Error}

-- The backend, the store and the clock as the service calls them. A `Store` is a reference to a
-- store, whose records are in the world.
pub record Parts : Type 1 where
  pub World : Type 0
  pub Hello : Type 0
  pub Store : Type 0
  -- `==` of two `WorkerHello`
  pub same_hello : Hello → Hello → Bool
  -- `backend.ready`
  pub ready : World → Bool
  -- `time.monotonic()`, in whole seconds
  pub monotonic : World → ℕ × World
  -- `asyncio.wait_for(backend.start(), timeout=...)`, `backend.close()` and `backend.drop(id)`
  pub start : World → Outcome Error Hello × World
  pub close : World → Outcome Error (Unit {0}) × World
  pub drop : String → World → Outcome Error ℕ × World
  -- `SnapshotStore(...)`, `store.expire()` and `store.delete(id)`
  pub new_store : Hello → World → Outcome Error Store × World
  pub expire : Store → World → Outcome Error (Unit {0}) × World
  pub delete : Store → String → World → Outcome Error ℕ × World

abbrev pub recovery_backoff_seconds : ℕ
recovery_backoff_seconds = 10

-- the attributes of `SnapshotService` that change, with the world
pub record Service (parts : Parts) : Type 0 where
  pub profile : Option parts.Hello
  pub store : Option parts.Store
  pub busy : Bool
  pub pending_ids : List String
  pub recovery_failed_at : Option ℕ
  pub world : parts.World

abbrev pub reverse : {A : Type 0} → List A → List A
reverse [] = []
reverse (x ∷ xs) = reverse xs ++ (x ∷ [])

module _ (parts : Parts) where
  abbrev pub Serve : Type 0 → Type 0
  Serve A = Action Error (Service parts) A

  abbrev pub call : {A : Type 0} → (parts.World → Outcome Error A × parts.World) → Serve A
  call f s = let (r, w) = f s.world in (r, record s { world = w })

  abbrev pub is_ready : Service parts → Bool
  is_ready s = parts.ready s.world

  abbrev pub monotonic : Serve ℕ
  monotonic s = let (t, w) = parts.monotonic s.world in (ok t, record s { world = w })

  -- `start`
  unfoldable pub start : Serve (Unit {0})
  start = do
    hello ← call parts.start
    store ← call (parts.new_store hello)
    call (parts.expire store)
    modifies (λ s. record s { store = some store; profile = some hello })

  -- the `try` block of `recover`
  unfoldable pub restart : parts.Hello → Serve parts.Store
  restart first = do
    hello ← call parts.start
    if parts.same_hello hello first
        then (do store ← call (parts.new_store hello); call (parts.expire store); pure store)
        else (do call parts.close; raise Error.unavailable)

  -- the `except` block of `recover`
  abbrev pub failed :
      {A : Type 0} → Outcome Error A × Service parts → Outcome Error A × Service parts
  failed (ok a, s) = (ok a, s)
  failed (err e, s) =
      let (t, w) = parts.monotonic s.world in
      (err Error.unavailable, record s { recovery_failed_at = some t; world = w })

  -- `recover` from its `try` on
  unfoldable pub revive : parts.Hello → Serve (Unit {0})
  unfolding restart
  revive first = do
    store ← λ s. failed (restart first s)
    modifies (λ s. record s { recovery_failed_at = none; store = some store })

  -- `recover` past its first tests
  unfoldable pub retry : parts.Hello → Option ℕ → Serve (Unit {0})
  unfolding revive
  retry first none = revive first
  retry first (some failed_at) = do
    t ← monotonic
    if ltb t (failed_at + recovery_backoff_seconds) then raise Error.unavailable else revive first

  -- `recover`
  unfoldable pub recover : Serve (Unit {0})
  unfolding retry
  recover s = elim s.profile [
    | none ↦ (ok tt, s)
    | some first ↦ if is_ready s then (ok tt, s) else retry first s.recovery_failed_at s
  ]

  -- what `_rollback` does after the attempt to delete one id
  abbrev pub reclaimed :
      String → Outcome Error ℕ × Service parts → Outcome Error (Unit {0}) × Service parts
  reclaimed id (ok n, s) = (ok tt, s)
  reclaimed id (err Error.unavailable, s) = (ok tt, s)
  reclaimed id (err e, s) = (ok tt, record s { world = (parts.drop id s.world).1 })

  -- the loop of `_rollback`
  unfoldable pub reclaim_each : parts.Store → List String → Serve (Unit {0})
  reclaim_each store [] = pure tt
  reclaim_each store (id ∷ ids) = do
    λ s. reclaimed id (call (parts.delete store id) s)
    reclaim_each store ids

  -- `_rollback(self.store, self._pending_ids)`, where the store is there
  unfoldable pub rollback : Serve (Unit {0})
  unfolding reclaim_each
  rollback s = elim s.store [
    | none ↦ (ok tt, s)
    | some store ↦ reclaim_each store (reverse s.pending_ids) s
  ]

  -- the `finally` block of `_serialized`
  abbrev pub release : Service parts → Service parts
  release s = record s { pending_ids = []; busy = false }

  -- the `try` block of `_serialized`; the body is given the profile and the store
  unfoldable pub prepared :
      {A : Type 0} → parts.Hello → (parts.Hello → parts.Store → Serve A) → Serve A
  unfolding recover
  prepared hello body = do
    alive ← gets is_ready
    if alive then pure tt else recover
    store ← gets (λ s. s.store)
    elim store [
      | none ↦ raise (Error.foreign "AttributeError")
      | some st ↦ do call (parts.expire st); body hello st
    ]

  -- `async with self._serialized() as (profile, store): body`
  unfoldable pub serialized : {A : Type 0} → (parts.Hello → parts.Store → Serve A) → Serve A
  unfolding prepared rollback
  serialized body s = elim s.profile [
    | none ↦ (err Error.unavailable, s)
    | some hello ↦
        if not (is_some s.store)
        then (err Error.unavailable, s)
        else if s.busy
        then (err (Error.foreign "SnapshotBusyError"), s)
        else finally (on_error (prepared hello body) rollback) (modifies release)
            (record s { busy = true })
  ]

  -- `with contextlib.suppress(SnapshotUnavailableError)`
  abbrev pub suppressed :
      Outcome Error (Unit {0}) × Service parts → Outcome Error (Unit {0}) × Service parts
  suppressed (err Error.unavailable, s) = (ok tt, s)
  suppressed (r, s) = (r, s)

  -- `_background_recovery`
  unfoldable pub background_recovery : Serve (Unit {0})
  unfolding recover
  background_recovery s =
      if s.busy
      then (ok tt, s)
      else finally (λ t. suppressed (recover t)) (modifies (λ t. record t { busy = false }))
          (record s { busy = true })

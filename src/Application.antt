-- ===== src/Application.antt =====
-- unridden/api/app.py: `ApiService`, which has one request at a time evaluated, and the limits of
-- `ApiConfig`. Cancellation and the lock, which orders the requests, are not modelled.
pub mod Serving
mod Examples
use riderless.Prelude.{
  ℕ, ◌*◌, String, Bool, true, false, not, ◌&&◌, ◌||◌, Option, none, some, leb, ltb, eqb,
  if◌then◌else◌,
}
use riderless.Action.{Outcome, ok, err, Action, pure, raise, lift, modifies, finally, ◌>>=◌, ◌>>◌}
use riderless.Compiler.{DecisionRequest, Profile, CompiledBatch, Compiled, compile_request}
use riderless.Mapping.Arithmetic.{Floats}
use riderless.Mapping.{Mapped, MappingError, WorkerBatchResult, DecisionResponse, map_response}

-- The fields of `ApiConfig` that `__post_init__` tests, but for the time limits, which are floats.
pub record ApiConfig : Type 0 where
  pub context_size : ℕ
  pub batch_size : ℕ
  pub ubatch_size : ℕ
  pub threads : ℕ
  pub max_questions : ℕ
  pub max_request_bytes : ℕ
  pub max_response_bytes : ℕ
  pub batched : Bool
  pub batched_context : ℕ
  pub v1_enabled : Bool
  pub snapshots_enabled : Bool
  pub snapshot_host_bytes : ℕ
  pub snapshot_default_ttl : ℕ
  pub share_prefix : Bool

abbrev positive : ℕ → Bool
positive n = ltb 0 n

-- `__post_init__` raises nothing
unfoldable pub config_ok : ApiConfig → Bool
config_ok c =
    (positive c.context_size
      && (positive c.batch_size
          && (positive c.ubatch_size
              && (positive c.threads
                  && (positive c.max_questions
                      && (positive c.max_request_bytes
                          && (positive c.max_response_bytes && positive c.batched_context)))))))
    && (leb c.max_questions 32
        && ((not c.batched
              || (leb c.context_size c.batched_context
                  && leb c.batched_context (c.max_questions * c.context_size)))
            && ((c.v1_enabled || c.snapshots_enabled)
                && (not c.snapshots_enabled
                    || (positive c.snapshot_host_bytes
                        && (leb 1 c.snapshot_default_ttl && leb c.snapshot_default_ttl 86400))))))

-- the exceptions of `evaluate`; `foreign` has the others by their class
pub data ApiError : Type 0 where
  unavailable busy protocol : ApiError
  foreign : String → ApiError

-- The backend as the service calls it.
pub record Worker (fl : Floats) : Type 1 where
  pub World : Type 0
  pub ready : World → Bool
  -- `asyncio.wait_for(backend.evaluate(batch, timeout=...), timeout=...)`, and `backend.close()`
  pub evaluate : CompiledBatch → World → Outcome ApiError (WorkerBatchResult fl) × World
  pub close : World → Outcome ApiError (Unit {0}) × World

-- `ApiService`
pub record ApiService {fl : Floats} (worker : Worker fl) : Type 0 where
  pub config : ApiConfig
  pub profile : Option Profile
  pub busy : Bool
  pub world : worker.World

-- the `ValueError` of `compile_request`
abbrev pub compiled : {A : Type 0} → Compiled A → Outcome ApiError A
compiled (Compiled.ok a) = ok a
compiled (Compiled.err e) = err (ApiError.foreign "ValueError")

module _ (repr : ℕ → String) (fl : Floats) (worker : Worker fl) where
  abbrev pub Serve : Type 0 → Type 0
  Serve A = Action ApiError (ApiService worker) A

  abbrev pub call : {A : Type 0} → (worker.World → Outcome ApiError A × worker.World) → Serve A
  call f s = let (r, w) = f s.world in (r, record s { world = w })

  -- `map_response` with the `except` block; an `IndexError` is not a `ValueError`
  unfoldable pub mapped : {A : Type 0} → Mapped A → Serve A
  mapped (Mapped.ok a) = pure a
  mapped (Mapped.err MappingError.index_error) = raise (ApiError.foreign "IndexError")
  mapped (Mapped.err e) = do call worker.close; raise ApiError.protocol

  -- the `try` block of `evaluate`
  unfoldable pub answer : DecisionRequest → Bool → ApiConfig → Profile → Serve (DecisionResponse fl)
  unfolding mapped
  answer request diagnostics config profile = do
    batch ← lift (compiled (compile_request repr request profile config.share_prefix))
    result ← call (worker.evaluate batch)
    mapped (map_response fl batch result profile diagnostics)

  -- `evaluate`
  unfoldable pub evaluate : DecisionRequest → Bool → Serve (DecisionResponse fl)
  unfolding answer
  evaluate request diagnostics s = elim s.profile [
    | none ↦ (err ApiError.unavailable, s)
    | some profile ↦
        if not (worker.ready s.world)
        then (err ApiError.unavailable, s)
        else if s.busy
        then (err ApiError.busy, s)
        else finally (answer request diagnostics s.config profile)
            (modifies (λ t. record t { busy = false })) (record s { busy = true })
  ]

-- ===== src/Snapshots/Service/Evaluations.antt =====
-- unridden/api/snapshots/service.py: `state_eval`, `ride` and `vectors`.
use riderless.Prelude.{
  ℕ, ◌+◌, ◌-◌, String, not, ◌&&◌, ◌||◌, Option, none, some, List, [], ◌∷◌, any, length, eqb, ltb,
  leb, ◌==◌, if◌then◌else◌,
}
use riderless.Action.{Outcome, ok, err, pure, raise, lift, modifies, ◌>>=◌, ◌>>◌}
use riderless.Mapping.Arithmetic.{Floats}
use riderless.Snapshots.Errors.{Error}
use riderless.Snapshots.Schema.{Boundary, is_b18}
use riderless.Snapshots.Compiler.{CompiledPrompt, compile_context_prompt, compile_readout_prompt}
use riderless.Snapshots.Wire.Rows.{BlockTokens, TopLogit, WorkerHello}
use riderless.Snapshots.Wire.Branches.{WorkerState, WorkerRide, RiderStep, is_snapshot_mode}
use riderless.Snapshots.Wire.Vectors.{
  ExportKind, Representation, Which, VectorArtifact, WorkerVectors, same_kind, same_representation,
  raw_residual_after_block_30, post_final_norm_head_input,
}
use riderless.Snapshots.Wire.Requests.{StateEvaluationRequest, RiderRequest}
use riderless.Snapshots.Store.Types.{SnapshotRecord}
use riderless.Snapshots.Store.Env.{Env, Do, call}
use riderless.Snapshots.Store.Lease.{with_lease}
use riderless.Snapshots.Store.Persist.{guard}
use riderless.Snapshots.Store.Registry.{restore}
use riderless.Snapshots.Service.{Serve, serialized}
use riderless.Snapshots.Service.Office.{Backend, Settings, parts, in_store}
use riderless.Snapshots.Service.Planning.{BranchPlan, new_snapshot_id, plan, save_child}
use riderless.Snapshots.Service.Decisions.{compiled}

-- `_REPRESENTATION[kind]`, which has no entry for `top_logits`
unfoldable pub representation_of : ExportKind → Option Representation
representation_of ExportKind.last_residual = some raw_residual_after_block_30
representation_of ExportKind.last_normalized = some post_final_norm_head_input
representation_of ExportKind.top_logits = none

abbrev pub tagged : VectorArtifact → Option Representation → Outcome Error (Unit {0})
tagged a none = err (Error.foreign "KeyError")
tagged a (some r) = guard (same_representation a.representation r) Error.protocol

-- the loop over the vectors of a state evaluation
unfoldable pub check_vectors :
    List ExportKind → List (ExportKind × VectorArtifact) → Outcome Error (Unit {0})
unfolding representation_of
check_vectors export [] = ok tt
check_vectors export ((kind, artifact) ∷ vectors) =
    let rest = check_vectors export vectors in
    elim (guard (any (same_kind kind) export) Error.protocol) [
      | err e ↦ err e
      | ok x ↦ elim (tagged artifact (representation_of kind)) [ err e ↦ err e | ok y ↦ rest ]
    ]

-- `compile_context_prompt` or `compile_readout_prompt`, by the mode of the plan
unfoldable pub compile_prompt :
    (fl : Floats) → BranchPlan fl → String → Outcome Error CompiledPrompt
compile_prompt fl p prompt = elim p.mode [
  | Boundary.context ↦ compiled (compile_context_prompt p.messages prompt)
  | Boundary.readout ↦ ok (compile_readout_prompt p.messages p.answer_prefix prompt)
]

pub record StateEvaluationResponse (fl : Floats) : Type 0 where
  pub suffix_tokens : ℕ
  pub block_tokens : BlockTokens
  pub reused_prefix_tokens : ℕ
  pub restored_bytes : ℕ
  pub restore_ms : fl.Float
  pub promotion_ms : fl.Float
  pub inference_ms : fl.Float
  pub vectors : List (ExportKind × VectorArtifact)
  pub top_logits : List (TopLogit fl)
  pub child : Option String

pub record RiderResponse (fl : Floats) : Type 0 where
  pub text : String
  pub token_ids : List ℕ
  pub stop_reason : String
  pub suffix_tokens : ℕ
  pub block_tokens : BlockTokens
  pub reused_prefix_tokens : ℕ
  pub restored_bytes : ℕ
  pub restore_ms : fl.Float
  pub promotion_ms : fl.Float
  pub time_to_first_token_ms : fl.Float
  pub decode_ms : fl.Float
  pub decode_tokens_per_second : fl.Float
  pub steps : List (RiderStep fl)
  pub output_tokens : ℕ

-- `blocks.get(key, 0)`
abbrev pub get_or_zero : String → List (String × ℕ) → ℕ
get_or_zero k [] = 0
get_or_zero k ((j, n) ∷ d) = let rest = get_or_zero k d in if j == k then n else rest

module _ (env : Env) (fl : Floats) (backend : Backend env fl) (settings : Settings) where
  -- the body of the lease in `state_eval`
  unfoldable pub evaluate_state :
      StateEvaluationRequest
      → String
      → BranchPlan fl
      → CompiledPrompt
      → Option String
      → Do env (SnapshotRecord × WorkerState fl × Option String)
  unfolding check_vectors save_child
  evaluate_state request owner p branch save = do
    parent ← restore env p.effective_parent
    state ← call (
        backend.state_eval p.effective_parent branch request.readout.export
          request.readout.top_logits save)
    lift (check_vectors request.readout.export state.vectors)
    child ←
        save_child env fl backend settings save state.child p branch.messages branch.answer_prefix
          owner parent.persistence
    pure (parent, state, child)

  abbrev pub state_response :
      BranchPlan fl → SnapshotRecord × WorkerState fl × Option String → StateEvaluationResponse fl
  state_response p (parent, state, child) = record {
    suffix_tokens = state.suffix_tokens;
    block_tokens = state.block_tokens;
    reused_prefix_tokens = parent.tokens;
    restored_bytes = state.restored_bytes;
    restore_ms = state.restore_ms;
    promotion_ms = p.promotion_ms;
    inference_ms = state.inference_ms;
    vectors = state.vectors;
    top_logits = state.top_logits;
    child = child;
  }

  abbrev pub to_list : Option String → List String
  to_list none = []
  to_list (some id) = id ∷ []

  -- the body of `_serialized` in `state_eval`
  unfoldable pub state_eval_in :
      StateEvaluationRequest
      → String
      → WorkerHello
      → ℕ
      → Serve (parts env fl backend settings) (StateEvaluationResponse fl)
  unfolding compile_prompt evaluate_state
  state_eval_in request owner profile ref = do
    p ← in_store env fl backend settings ref (plan env fl backend settings request.snapshot)
    branch ← lift (compile_prompt fl p request.prompt)
    save ← in_store env fl backend settings ref (
        if request.save_result_snapshot
        then (do id ← new_snapshot_id env; pure (some id))
        else pure none)
    modifies (λ s. record s { pending_ids = to_list save })
    found ←
        in_store env fl backend settings ref
          (with_lease env (p.effective_parent ∷ []) (evaluate_state request owner p branch save))
    pure (state_response p found)

  -- `state_eval`
  unfoldable pub state_eval :
      StateEvaluationRequest
      → String
      → Serve (parts env fl backend settings) (StateEvaluationResponse fl)
  unfolding state_eval_in
  state_eval request owner =
      if is_b18 request.readout.completed_blocks
      then raise Error.capability_unavailable
      else serialized (parts env fl backend settings) (state_eval_in request owner)

  -- the body of the lease in `ride`
  unfoldable pub generate :
      RiderRequest → BranchPlan fl → CompiledPrompt → Do env (SnapshotRecord × WorkerRide fl)
  generate request p branch = do
    parent ← restore env p.effective_parent
    result ← call (backend.ride p.effective_parent branch request.max_tokens request.top_logits)
    pure (parent, result)

  -- the tests of `ride` on the worker's result
  unfoldable pub check_ride : SnapshotRecord → WorkerRide fl → Outcome Error (Unit {0})
  check_ride parent r =
      guard
        ((is_snapshot_mode fl r.mode && eqb r.reused_tokens parent.tokens)
          && (eqb (length r.steps) 0
              || (eqb (length r.steps) (length r.token_ids)
                  || eqb (length r.steps) (length r.token_ids + 1))))
        Error.protocol

  abbrev pub ride_response : BranchPlan fl → WorkerRide fl → RiderResponse fl
  ride_response p r = record {
    text = r.text;
    token_ids = r.token_ids;
    stop_reason = r.stop_reason;
    suffix_tokens = r.prefilled_tokens;
    block_tokens = record {
      lower = get_or_zero "lower" r.block_tokens;
      upper = get_or_zero "upper" r.block_tokens;
    };
    reused_prefix_tokens = r.reused_tokens;
    restored_bytes = r.restored_bytes;
    restore_ms = r.timing_ms.restore;
    promotion_ms = p.promotion_ms;
    time_to_first_token_ms = r.timing_ms.time_to_first_token;
    decode_ms = r.timing_ms.decode;
    decode_tokens_per_second = r.decode_tokens_per_second;
    steps = r.steps;
    output_tokens = r.generated_tokens;
  }

  -- the body of `_serialized` in `ride`
  unfoldable pub ride_in :
      RiderRequest → WorkerHello → ℕ → Serve (parts env fl backend settings) (RiderResponse fl)
  unfolding compile_prompt generate check_ride
  ride_in request profile ref =
      if not profile.rider_mode then raise Error.capability_unavailable else (do
        p ← in_store env fl backend settings ref (plan env fl backend settings request.snapshot)
        branch ← lift (compile_prompt fl p request.prompt)
        found ←
            in_store env fl backend settings ref
              (with_lease env (p.effective_parent ∷ []) (generate request p branch))
        lift (check_ride found.0 found.1)
        pure (ride_response p found.1))

  -- `ride`
  unfoldable pub ride : RiderRequest → Serve (parts env fl backend settings) (RiderResponse fl)
  unfolding ride_in
  ride request = serialized (parts env fl backend settings) (ride_in request)

  -- the body of the lease in `vectors`
  unfoldable pub read_vectors : String → Which → ℕ → ℕ → Do env WorkerVectors
  read_vectors id which row_begin row_end = do
    restore env id
    call (backend.vectors id which row_begin row_end)

  -- `vectors`, whose `which` is one of the three names
  unfoldable pub vectors :
      String → Which → ℕ → ℕ → Serve (parts env fl backend settings) VectorArtifact
  unfolding read_vectors
  vectors id which row_begin row_end =
      if leb row_end row_begin || ltb 64 (row_end - row_begin)
      then raise (Error.request "budget")
      else (do
        worker ← serialized (parts env fl backend settings) (λ profile ref.
            in_store env fl backend settings ref
              (with_lease env (id ∷ []) (read_vectors id which row_begin row_end)))
        pure worker.tensor)

-- ===== src/Snapshots/Service/Decisions.antt =====
-- unridden/api/snapshots/service.py: `decide`, from the plan to the answers.
use riderless.Prelude.{
  ℕ, ◌+◌, String, Bool, Option, none, some, List, [], ◌∷◌, ◌++◌, length, eqb, ◌==◌, if◌then◌else◌,
}
use riderless.Action.{Outcome, ok, err, pure, raise, lift, modifies, ◌>>=◌, ◌>>◌}
use riderless.Compiler.{Question, Compiled, zip}
use riderless.Mapping.Arithmetic.{Floats}
use riderless.Mapping.{Mapped, MappingError, Answer, Entries}
use riderless.Snapshots.Errors.{Error}
use riderless.Snapshots.Schema.{Boundary, Promotion, is_b18}
use riderless.Snapshots.Compiler.{
  CompiledSnapshotQuestion, compile_context_followup, compile_readout_followup,
}
use riderless.Snapshots.Mapping.{map_answer}
use riderless.Snapshots.Wire.Rows.{BlockTokens, WorkerHello}
use riderless.Snapshots.Wire.Branches.{WorkerSnapshotQuestionResult}
use riderless.Snapshots.Wire.Requests.{V2DecisionRequest}
use riderless.Snapshots.Store.Types.{SnapshotRecord}
use riderless.Snapshots.Store.Env.{Env, Do, call}
use riderless.Snapshots.Store.Lease.{with_lease}
use riderless.Snapshots.Store.Persist.{guard}
use riderless.Snapshots.Store.Registry.{restore}
use riderless.Snapshots.Service.{Serve, serialized}
use riderless.Snapshots.Service.Office.{Backend, Settings, parts, in_store}
use riderless.Snapshots.Service.Planning.{BranchPlan, new_snapshot_id, plan, save_child}

-- a `CompileError` or another exception of the compilers
abbrev pub compiled : {A : Type 0} → Compiled A → Outcome Error A
compiled (Compiled.ok a) = ok a
compiled (Compiled.err e) = err (Error.foreign "CompileError")

-- the exceptions of `map_answer`
abbrev pub mapped : {A : Type 0} → Mapped A → Outcome Error A
mapped (Mapped.ok a) = ok a
mapped (Mapped.err MappingError.zip_lengths) = err (Error.foreign "ValueError")
mapped (Mapped.err MappingError.index_error) = err (Error.foreign "IndexError")
mapped (Mapped.err e) = err Error.protocol

-- `SnapshotUsage`, where `profile` is a constant
pub record SnapshotUsage (fl : Floats) : Type 0 where
  pub requested_parent : String
  pub effective_parent : String
  pub promotion : Promotion
  pub suffix_tokens : Entries ℕ
  pub block_tokens : BlockTokens
  pub reused_prefix_tokens : ℕ
  pub restored_bytes : ℕ
  pub restore_ms : fl.Float
  pub promotion_ms : fl.Float
  pub inference_ms : fl.Float
  pub child : Entries String

pub record V2DecisionResponse (fl : Floats) : Type 0 where
  pub answers : Entries (Answer fl)
  pub input_tokens : ℕ
  pub snapshot_usage : SnapshotUsage fl

-- the variables of the loop of `decide`. The question ids are the keys of a dict, so each entry is new.
pub record Running (fl : Floats) : Type 0 where
  pub answers : Entries (Answer fl)
  pub suffix_tokens : Entries ℕ
  pub child : Entries String
  pub lower : ℕ
  pub upper : ℕ
  pub processed : ℕ
  pub restored : ℕ
  pub restore_ms : fl.Float
  pub inference_ms : fl.Float

-- the values that are not `None`
abbrev pub saved_ids : List (Option String) → List String
saved_ids [] = []
saved_ids (none ∷ saves) = saved_ids saves
saved_ids (some id ∷ saves) = id ∷ saved_ids saves

-- the keys of a dict, in its order
abbrev pub names : {A : Type 0} → Entries A → List String
names [] = []
names ((k, v) ∷ d) = k ∷ names d

abbrev pub add_child : String → Option String → Entries String → Entries String
add_child question none d = d
add_child question (some id) d = d ++ ((question, id) ∷ [])

module _ (repr : ℕ → String) (env : Env) (fl : Floats) (backend : Backend env fl)
    (settings : Settings) where
  -- the compiled questions of a request
  unfoldable pub compile_branches :
      BranchPlan fl
      → List (String × Question)
      → List String
      → Outcome Error (List CompiledSnapshotQuestion)
  compile_branches p [] labels = ok []
  compile_branches p ((id, q) ∷ qs) labels =
      let one = compiled (elim p.mode [
        | Boundary.context ↦ compile_context_followup repr p.messages id q labels
        | Boundary.readout ↦ compile_readout_followup repr p.messages p.answer_prefix id q labels
      ]) in
      let rest = compile_branches p qs labels in
      elim one [ err e ↦ err e | ok c ↦ elim rest [ err e ↦ err e | ok cs ↦ ok (c ∷ cs) ] ]

  -- `saves`, in the order of the question ids
  unfoldable pub choose_ids : Bool → List String → Do env (List (Option String))
  choose_ids keep [] = pure []
  choose_ids keep (question_id ∷ ids) = do
    save ← (if keep then (do id ← new_snapshot_id env; pure (some id)) else pure none)
    rest ← choose_ids keep ids
    pure (save ∷ rest)

  -- the body of the loop of `decide`
  unfoldable pub answer_one :
      WorkerHello
      → BranchPlan fl
      → SnapshotRecord
      → String
      → String
      → CompiledSnapshotQuestion × Option String
      → WorkerSnapshotQuestionResult fl
      → Running fl
      → Do env (Running fl)
  unfolding save_child
  answer_one profile p parent owner question_id (c, save) raw t = do
    answer ← lift (mapped (map_answer fl c raw.question profile.label_token_ids))
    lift (guard (raw.snapshot.parent == p.effective_parent) Error.protocol)
    child ←
        save_child env fl backend settings save raw.snapshot.child p c.messages c.answer_prefix
          owner parent.persistence
    pure (record {
      answers = t.answers ++ ((question_id, answer) ∷ []);
      suffix_tokens = t.suffix_tokens ++ ((question_id, raw.snapshot.suffix_tokens) ∷ []);
      child = add_child question_id child t.child;
      lower = t.lower + raw.snapshot.block_tokens.lower;
      upper = t.upper + raw.snapshot.block_tokens.upper;
      processed = t.processed + raw.question.processed_tokens;
      restored = t.restored + raw.snapshot.restored_bytes;
      restore_ms = fl.add t.restore_ms raw.snapshot.restore_ms;
      inference_ms = fl.add t.inference_ms raw.snapshot.inference_ms;
    })

  -- The loop of `decide` over `zip(request.questions, result.questions, strict=True)`. The dicts
  -- `compiled` and `saves` are built from `request.questions` in its order, so the entries that the
  -- loop looks up under an id stand in the same place.
  unfoldable pub answer_all :
      WorkerHello
      → BranchPlan fl
      → SnapshotRecord
      → String
      → List String
      → List (CompiledSnapshotQuestion × Option String)
      → List (WorkerSnapshotQuestionResult fl)
      → Running fl
      → Do env (Running fl)
  unfolding answer_one
  answer_all profile p parent owner (question_id ∷ ids) (c ∷ cs) (raw ∷ raws) t = do
    u ← answer_one profile p parent owner question_id c raw t
    answer_all profile p parent owner ids cs raws u
  answer_all profile p parent owner (question_id ∷ ids) [] (raw ∷ raws) t =
      raise (Error.foreign "KeyError")
  answer_all profile p parent owner (question_id ∷ ids) cs [] t = raise (Error.foreign "ValueError")
  answer_all profile p parent owner [] cs (raw ∷ raws) t = raise (Error.foreign "ValueError")
  answer_all profile p parent owner [] cs [] t = pure t

  abbrev pub nothing_yet : Running fl
  nothing_yet = record {
    answers = [];
    suffix_tokens = [];
    child = [];
    lower = 0;
    upper = 0;
    processed = 0;
    restored = 0;
    restore_ms = fl.of_ℕ 0;
    inference_ms = fl.of_ℕ 0;
  }

  -- The body of the lease in `decide`: the question ids of the request, and the compiled questions with
  -- the ids to save their results under, which are the `payloads`.
  unfoldable pub evaluate :
      WorkerHello
      → BranchPlan fl
      → String
      → List String
      → List (CompiledSnapshotQuestion × Option String)
      → Do env (SnapshotRecord × Running fl)
  unfolding answer_all
  evaluate profile p owner ids questions = do
    parent ← restore env p.effective_parent
    result ← call (backend.evaluate p.effective_parent questions)
    lift (guard (result.model_sha256 == profile.model_sha256) Error.protocol)
    lift (guard (result.runtime_sha256 == profile.runtime_sha256) Error.protocol)
    lift (guard (eqb (length result.questions) (length ids)) Error.protocol)
    t ← answer_all profile p parent owner ids questions result.questions nothing_yet
    pure (parent, t)

  abbrev pub respond : BranchPlan fl → SnapshotRecord × Running fl → V2DecisionResponse fl
  respond p (parent, t) = record {
    answers = t.answers;
    input_tokens = t.processed;
    snapshot_usage = record {
      requested_parent = p.requested_parent;
      effective_parent = p.effective_parent;
      promotion = p.promotion;
      suffix_tokens = t.suffix_tokens;
      block_tokens = record { lower = t.lower; upper = t.upper };
      reused_prefix_tokens = parent.tokens;
      restored_bytes = t.restored;
      restore_ms = t.restore_ms;
      promotion_ms = p.promotion_ms;
      inference_ms = t.inference_ms;
      child = t.child;
    };
  }

  -- the body of `_serialized` in `decide`
  unfoldable pub decide_in :
      V2DecisionRequest
      → String
      → WorkerHello
      → ℕ
      → Serve (parts env fl backend settings) (V2DecisionResponse fl)
  unfolding compile_branches choose_ids evaluate
  decide_in request owner profile ref = do
    p ← in_store env fl backend settings ref (plan env fl backend settings request.snapshot)
    cs ← lift (compile_branches p request.questions profile.labels)
    let ids = names request.questions
    saves ← in_store env fl backend settings ref (choose_ids request.save_result_snapshot ids)
    modifies (λ s. record s { pending_ids = saved_ids saves })
    found ←
        in_store env fl backend settings ref
          (with_lease env (p.effective_parent ∷ []) (evaluate profile p owner ids (zip cs saves)))
    pure (respond p found)

  -- `decide`
  unfoldable pub decide :
      V2DecisionRequest → String → Serve (parts env fl backend settings) (V2DecisionResponse fl)
  unfolding decide_in
  decide request owner =
      if is_b18 request.readout
      then raise Error.capability_unavailable
      else serialized (parts env fl backend settings) (decide_in request owner)

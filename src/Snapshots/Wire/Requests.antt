-- ===== src/Snapshots/Wire/Requests.antt =====
-- unridden/api/snapshots/schema.py: the bodies of the requests, with the question models of
-- unridden/api/schema.py. `_reject_nonfinite` has nothing to reject, since every float of `Json` is finite.
use riderless.Prelude.{
  ℕ, String, Bool, true, false, not, ◌&&◌, ◌||◌, Option, none, some, List, [], ◌∷◌, all, any, leb,
  eqb, if◌then◌else◌,
}
use riderless.Json.{Json}
use riderless.Compiler.{Question, NoulCriteria}
use riderless.Snapshots.Schema.{Checkpoint, Persistence}
use riderless.Snapshots.Compiler.{SnapshotInput}
use riderless.Snapshots.Wire.{
  has_length, is_between, is_nonempty, are_distinct, max_ttl_seconds, max_vector_rows,
  max_rider_tokens,
}
use riderless.Snapshots.Wire.Rows.{same_depth}
use riderless.Snapshots.Wire.Vectors.{ExportKind, same_kind}

-- `Literal["followup", "replace_question"]`
pub data Relationship : Type 0 where
  followup replace_question : Relationship

pub record SnapshotRef : Type 0 where
  pub id : String
  pub relationship : Relationship

-- `Entry`: a text, an object, an array or `None`
abbrev pub is_entry : Json → Bool
is_entry Json.null = true
is_entry (Json.str s) = true
is_entry (Json.arr xs) = true
is_entry (Json.obj fs) = true
is_entry _ = false

-- `State` and `ScoreEntry`: an `Entry` that is not `None`
abbrev pub is_state : Json → Bool
is_state Json.null = false
is_state j = is_entry j

abbrev pub is_null : Json → Bool
is_null Json.null = true
is_null _ = false

-- `NoulQuestion._specified`: instructions, or a criterion for one of the values
abbrev pub specified : Json → Option NoulCriteria → Bool
specified i none = not (is_null i)
specified i (some c) = not (is_null i) || (not (is_null c.when_true) || not (is_null c.when_false))

abbrev pub criteria_ok : Option NoulCriteria → Bool
criteria_ok none = true
criteria_ok (some c) = is_entry c.when_true && is_entry c.when_false

-- `NoulQuestion`, `ChoiceQuestion` and `ScoreQuestion`
unfoldable pub question_ok : Question → Bool
question_ok (Question.noul i c) = is_entry i && (criteria_ok c && specified i c)
question_ok (Question.choice i c) =
    is_entry i && (has_length 2 255 c && all (λ kv. is_nonempty kv.0 && is_entry kv.1) c)
question_ok (Question.score i c) = is_entry i && (has_length 2 10 c && all is_state c)

-- `questions` of a request, with `_question_ids_nonempty`
unfoldable pub questions_ok : List (String × Question) → Bool
unfolding question_ok
questions_ok qs = has_length 1 32 qs && all (λ kv. is_nonempty kv.0 && question_ok kv.1) qs

-- `ContextInput`, `DecisionInput` and `PromptInput`
unfoldable pub input_ok : SnapshotInput → Bool
unfolding question_ok
input_ok (SnapshotInput.context_input s) = is_state s
input_ok (SnapshotInput.decision_input s q) = is_state s && question_ok q
input_ok (SnapshotInput.prompt_input s p) = is_state s && is_nonempty p

abbrev pub ref_ok : SnapshotRef → Bool
ref_ok r = is_nonempty r.id

-- `_checkpoints`: `none` where it raises, and else the sorted list
unfoldable pub checkpoints : List Checkpoint → Option (List Checkpoint)
unfolding are_distinct
checkpoints value =
    if are_distinct same_depth value
    then some (
        if any (same_depth Checkpoint.b18) value
        then Checkpoint.b18
          ∷ (if any (same_depth Checkpoint.b30) value then Checkpoint.b30 ∷ [] else [])
        else value)
    else none

pub record SnapshotCreateRequest : Type 0 where
  pub input : SnapshotInput
  pub checkpoints : List Checkpoint
  pub persistence : Persistence
  pub ttl_seconds : ℕ

-- the fields of `SnapshotCreateRequest` and `_unique_sorted`, which sorts the checkpoints
unfoldable pub parse_create : SnapshotCreateRequest → Option SnapshotCreateRequest
unfolding checkpoints input_ok
parse_create r =
    if input_ok r.input
      && (has_length 1 2 r.checkpoints && is_between 1 max_ttl_seconds r.ttl_seconds)
    then elim (checkpoints r.checkpoints) [
      | none ↦ none
      | some cs ↦ some (record r { checkpoints = cs })
    ]
    else none

pub record V2DecisionRequest : Type 0 where
  pub snapshot : SnapshotRef
  pub questions : List (String × Question)
  pub readout : Checkpoint
  pub save_result_snapshot : Bool

unfoldable pub decision_ok : V2DecisionRequest → Bool
unfolding questions_ok
decision_ok r = ref_ok r.snapshot && questions_ok r.questions

-- `StateReadout`
pub record StateReadout : Type 0 where
  pub completed_blocks : Checkpoint
  pub export : List ExportKind
  pub top_logits : ℕ

-- the fields of `StateReadout`, `_distinct` and `_top_logits_agree`
unfoldable pub state_readout_ok : StateReadout → Bool
unfolding are_distinct
state_readout_ok r =
    let wants = any (same_kind ExportKind.top_logits) r.export in
    has_length 0 3 r.export
    && (leb r.top_logits max_vector_rows
        && (are_distinct same_kind r.export
            && ((not wants || not (eqb r.top_logits 0)) && (wants || eqb r.top_logits 0))))

pub record StateEvaluationRequest : Type 0 where
  pub snapshot : SnapshotRef
  pub prompt : String
  pub readout : StateReadout
  pub save_result_snapshot : Bool

unfoldable pub evaluation_ok : StateEvaluationRequest → Bool
unfolding state_readout_ok
evaluation_ok r = ref_ok r.snapshot && (is_nonempty r.prompt && state_readout_ok r.readout)

pub record RiderRequest : Type 0 where
  pub snapshot : SnapshotRef
  pub prompt : String
  pub max_tokens : ℕ
  pub top_logits : ℕ

unfoldable pub rider_ok : RiderRequest → Bool
rider_ok r =
    ref_ok r.snapshot
    && (is_nonempty r.prompt
        && (is_between 1 max_rider_tokens r.max_tokens && leb r.top_logits max_vector_rows))

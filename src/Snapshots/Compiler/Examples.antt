-- ===== src/Snapshots/Compiler/Examples.antt =====
-- The theorems of the snapshot prompts at one state and one choice.
use Prim.Native.String.{len, slice}
use riderless.Prelude.{ℕ, String, ◌≡◌, refl, true, false, none, some, List, [], ◌∷◌}
use riderless.Json.{Json, Fields}
use riderless.Compiler.{Question, Profile, Message, ok, ◌>>=◌, compile_question}
use riderless.Compiler.Text.{◌^^◌, join}
use riderless.Compiler.Prompts.{shared_text}
use riderless.Snapshots.Schema.{Boundary}
use riderless.Snapshots.Compiler.{
  SnapshotInput, CompiledCreate, CompiledSnapshotQuestion, Block, state_prefix, block_lines,
  question_block, labels_for, compile_create, compile_context_followup, user,
}
use riderless.Snapshots.Compiler.Continuations.{
  head_lines, question_block-compile_question, compile_create-prefix, followup-create,
}

abbrev repr : ℕ → String
repr n = "1.0"

abbrev labels : List String
labels = "A" ∷ "B" ∷ "C" ∷ []

abbrev profile : Profile
profile = record {
  model_id = "m";
  model_sha256 = "5a";
  runtime_sha256 = "7b";
  labels = labels;
  label_token_ids = 11 ∷ 12 ∷ 13 ∷ [];
  max_questions = 2;
  batched_mode = false;
}

abbrev state : Json
state = Json.obj (Fields.field "city" (Json.str "Oslo") Fields.end)

abbrev route : Question
route =
    Question.choice (Json.str "Choose")
      (("billing", Json.null) ∷ ("technical", Json.str "A defect") ∷ [])

abbrev block : Block
block = record {
  text = join (block_lines repr route ("A" ∷ "B" ∷ []));
  option_ids = "billing" ∷ "technical" ∷ [];
  legend = none;
}

question_block-compile_question_example :
    compile_question repr "route" route state profile true ≡ (do
      block ← question_block repr route labels
      chosen ← labels_for route labels
      ok (record {
        id = "route";
        kind = "choice";
        messages = user (join (head_lines repr state) ^^ ("\n" ^^ block.text)) ∷ [];
        answer_prefix = "Answer:\n";
        labels = chosen;
        option_ids = block.option_ids;
        legend = block.legend;
        shared_prefix_bytes = len (shared_text repr state);
        prompt_version = "unridden-gemma-choice-v1";
      }))
question_block-compile_question_example =
    question_block-compile_question repr "route" route state profile true

abbrev frozen : CompiledCreate
frozen = record {
  messages = user (state_prefix repr state) ∷ [];
  answer_prefix = "";
  boundary = Boundary.context;
  content_bytes = len (state_prefix repr state);
  labels = none;
}

frozen_compiled : compile_create repr (SnapshotInput.context_input state) labels ≡ ok frozen
unfolding compile_create
frozen_compiled = refl

abbrev together : CompiledCreate
together = record {
  messages = user (state_prefix repr state ^^ block.text) ∷ [];
  answer_prefix = "Answer:\n";
  boundary = Boundary.readout;
  content_bytes = len (state_prefix repr state);
  labels = some ("A" ∷ "B" ∷ []);
}

together_compiled :
    compile_create repr (SnapshotInput.decision_input state route) labels ≡ ok together
unfolding compile_create
together_compiled = refl

abbrev asked : List Message → CompiledSnapshotQuestion
asked messages = record {
  id = "route";
  kind = "choice";
  messages = messages;
  answer_prefix = "Answer:\n";
  labels = "A" ∷ "B" ∷ [];
  option_ids = "billing" ∷ "technical" ∷ [];
  legend = none;
  prompt_version = "unridden-gemma-context-v1";
}

followup_compiled :
    compile_context_followup repr frozen.messages "route" route labels
    ≡ ok (asked together.messages)
unfolding compile_context_followup
followup_compiled = refl

compile_create-prefix_example :
    (tail : String) × (together.messages ≡ user (state_prefix repr state ^^ tail) ∷ [])
    × (slice (state_prefix repr state ^^ tail) 0 together.content_bytes ≡ state_prefix repr state)
compile_create-prefix_example =
    compile_create-prefix repr (SnapshotInput.decision_input state route) labels together
      together_compiled

followup-create_example :
    ((asked together.messages).messages ≡ together.messages)
    × ((asked together.messages).answer_prefix ≡ together.answer_prefix)
    × (some (asked together.messages).labels ≡ together.labels)
followup-create_example =
    followup-create repr state "route" route labels frozen together (asked together.messages)
      frozen_compiled together_compiled followup_compiled

-- ===== src/Snapshots/Compiler.antt =====
-- unridden/api/snapshots/compiler.py: the prompts that freeze a state and that continue from it.
pub mod Continuations
mod Examples
use Prim.Native.String.{len}
use Prim.Native.String
use Prim.Native.Char.{code}
use riderless.Prelude.{
  ℕ, String, Bool, Option, none, some, List, [], ◌∷◌, ◌++◌, take, length, ltb, eqb, ◌&&◌, ◌==◌,
  if◌then◌else◌,
}
use riderless.Json.{Json}
use riderless.Compiler.{
  Question, Message, Compiled, ok, err, too_many_options, no_frozen_messages, ◌>>=◌, options,
  render, kind, question_heading, instructions,
}
use riderless.Compiler.Text.{◌^^◌, join}
use riderless.Snapshots.Schema.{Boundary}

-- `SnapshotInput`
pub data SnapshotInput : Type 0 where
  context_input : Json → SnapshotInput
  decision_input : Json → Question → SnapshotInput
  prompt_input : Json → String → SnapshotInput

pub record CompiledCreate : Type 0 where
  pub messages : List Message
  pub answer_prefix : String
  pub boundary : Boundary
  pub content_bytes : ℕ
  pub labels : Option (List String)

pub record CompiledSnapshotQuestion : Type 0 where
  pub id : String
  pub kind : String
  pub messages : List Message
  pub answer_prefix : String
  pub labels : List String
  pub option_ids : List String
  pub legend : Option (List (String × Json))
  pub prompt_version : String

pub record CompiledPrompt : Type 0 where
  pub messages : List Message
  pub answer_prefix : String

abbrev pub context_instruction : String
context_instruction =
    "The following state is provided as reusable context. Read it carefully. A question or prompt about this state may follow."

abbrev pub decision_answer_prefix : String
decision_answer_prefix = "Answer:\n"

abbrev pub prompt_heading : String
prompt_heading = "PROMPT:\n"

abbrev pub context_prompt_version : String
context_prompt_version = "unridden-gemma-context-v1"

abbrev pub user : String → Message
user content = record { role = "user"; content = content }

abbrev pub assistant : String → Message
assistant content = record { role = "assistant"; content = content }

-- `text.rstrip("\n")`
unfoldable pub rstrip_newlines : String → String
rstrip_newlines String.[] = ""
rstrip_newlines (String.◌∷◌ c s) =
    let rest = rstrip_newlines s in if eqb (code c) 10 && rest == "" then "" else String.◌∷◌ c rest

-- what `question_block` returns
pub record Block : Type 0 where
  pub text : String
  pub option_ids : List String
  pub legend : Option (List (String × Json))

-- `_labels_for`
unfoldable pub labels_for : Question → List String → Compiled (List String)
labels_for q labels =
    if ltb (length labels) (length (options q).ids)
    then err too_many_options
    else ok (take (length (options q).ids) labels)

module _ (repr : ℕ → String) where
  -- `state_prefix`
  unfoldable pub state_prefix : Json → String
  unfolding render
  state_prefix state = context_instruction ^^ ("\n\nSTATE:\n" ^^ (render repr state ^^ "\n\n"))

  -- the loop of `question_block` over `zip(chosen, option_ids, descriptions)`
  unfoldable pub block_options : List String → List String → List Json → List String
  unfolding render
  block_options (label ∷ chosen) (option_id ∷ ids) (description ∷ descriptions) =
      let rendered = render repr description in
      let line = label ^^ (": " ^^ option_id) in
      (if rendered == "" then line else line ^^ (" - " ^^ rendered))
      ∷ block_options chosen ids descriptions
  block_options _ _ _ = []

  -- the `lines` of `question_block`, where `chosen` are the labels
  unfoldable pub block_lines : Question → List String → List String
  unfolding render block_options question_heading options
  block_lines q chosen =
      let rendered = render repr (instructions q) in
      ("QUESTION:" ∷ question_heading q ∷ [])
      ++ ((if rendered == "" then [] else "" ∷ "INSTRUCTIONS:" ∷ rendered ∷ [])
          ++ (("" ∷ "OPTIONS:" ∷ [])
              ++ (block_options chosen (options q).ids (options q).descriptions
                  ++ ("" ∷ "Reply with one option label only." ∷ []))))

  -- `question_block`
  unfoldable pub question_block : Question → List String → Compiled Block
  unfolding labels_for block_lines
  question_block q labels = do
    chosen ← labels_for q labels
    ok (record {
      text = join (block_lines q chosen);
      option_ids = (options q).ids;
      legend = (options q).legend;
    })

  -- `compile_create`
  unfoldable pub compile_create : SnapshotInput → List String → Compiled CompiledCreate
  unfolding state_prefix question_block
  compile_create (SnapshotInput.decision_input state q) labels = do
    block ← question_block q labels
    chosen ← labels_for q labels
    ok (record {
      messages = user (state_prefix state ^^ block.text) ∷ [];
      answer_prefix = decision_answer_prefix;
      boundary = Boundary.readout;
      content_bytes = len (state_prefix state);
      labels = some chosen;
    })
  compile_create (SnapshotInput.prompt_input state prompt) labels = ok (record {
    messages = user (state_prefix state ^^ (prompt_heading ^^ prompt)) ∷ [];
    answer_prefix = "";
    boundary = Boundary.readout;
    content_bytes = len (state_prefix state);
    labels = none;
  })
  compile_create (SnapshotInput.context_input state) labels = ok (record {
    messages = user (state_prefix state) ∷ [];
    answer_prefix = "";
    boundary = Boundary.context;
    content_bytes = len (state_prefix state);
    labels = none;
  })

  -- `_compiled_question`
  unfoldable pub compiled_question :
      String → Question → List Message → List String → Compiled CompiledSnapshotQuestion
  unfolding question_block
  compiled_question id q messages labels = do
    block ← question_block q labels
    chosen ← labels_for q labels
    ok (record {
      id = id;
      kind = kind q;
      messages = messages;
      answer_prefix = decision_answer_prefix;
      labels = chosen;
      option_ids = block.option_ids;
      legend = block.legend;
      prompt_version = context_prompt_version;
    })

  -- `compile_context_followup`
  unfoldable pub compile_context_followup :
      List Message → String → Question → List String → Compiled CompiledSnapshotQuestion
  unfolding compiled_question
  compile_context_followup [] id q labels = err no_frozen_messages
  compile_context_followup (m ∷ ms) id q labels = do
    block ← question_block q labels
    compiled_question id q (user (m.content ^^ block.text) ∷ []) labels

  -- `compile_readout_followup`
  unfoldable pub compile_readout_followup :
      List Message → String → String → Question → List String → Compiled CompiledSnapshotQuestion
  unfolding compiled_question rstrip_newlines
  compile_readout_followup messages parent_prefix id q labels = do
    block ← question_block q labels
    compiled_question id q
        (messages ++ (assistant (rstrip_newlines parent_prefix) ∷ user block.text ∷ [])) labels

-- `compile_context_prompt`
unfoldable pub compile_context_prompt : List Message → String → Compiled CompiledPrompt
compile_context_prompt [] prompt = err no_frozen_messages
compile_context_prompt (m ∷ ms) prompt =
    ok (record {
      messages = user (m.content ^^ (prompt_heading ^^ prompt)) ∷ [];
      answer_prefix = "";
    })

-- `compile_readout_prompt`
unfoldable pub compile_readout_prompt : List Message → String → String → CompiledPrompt
unfolding rstrip_newlines
compile_readout_prompt messages parent_prefix prompt = record {
  messages =
      messages
      ++ (assistant (rstrip_newlines parent_prefix) ∷ user (prompt_heading ^^ prompt) ∷ []);
  answer_prefix = "";
}

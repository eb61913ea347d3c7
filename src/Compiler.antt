-- ===== src/Compiler.antt =====
-- unridden/api/compiler.py: the prompt of a decision request, and the question types of
-- unridden/api/schema.py that it reads. A missing entry is the JSON value `null`.
pub mod Text
pub mod Dumps
pub mod Prompts
pub mod Requests
mod Examples
use Prim.Native.String.{len}
use riderless.Prelude.{
  ℕ, zero, suc, ◌+◌, String, Bool, true, false, Option, none, some, List, [], ◌∷◌, ◌++◌, map, take,
  length, leb, ltb, ◌==◌, if◌then◌else◌,
}
use riderless.Json.{Json}
use Text.{◌^^◌, join, show}
use Dumps.{dumps}

pub record NoulCriteria : Type 0 where
  pub when_true : Json
  pub when_false : Json

pub data Question : Type 0 where
  noul : Json → Option NoulCriteria → Question
  choice : Json → List (String × Json) → Question
  score : Json → List Json → Question

-- the fields of `BackendProfile` that the compiler and the mapping read
pub record Profile : Type 0 where
  pub model_id : String
  pub model_sha256 : String
  pub runtime_sha256 : String
  pub labels : List String
  pub label_token_ids : List ℕ
  pub max_questions : ℕ
  pub batched_mode : Bool

pub record DecisionRequest : Type 0 where
  pub model : String
  pub state : Json
  pub questions : List (String × Question)

-- `dict[str, str]` with the keys `role` and `content`
pub record Message : Type 0 where
  pub role : String
  pub content : String

pub record CompiledQuestion : Type 0 where
  pub id : String
  pub kind : String
  pub messages : List Message
  pub answer_prefix : String
  pub labels : List String
  pub option_ids : List String
  pub legend : Option (List (String × Json))
  pub shared_prefix_bytes : ℕ
  pub prompt_version : String

pub record CompiledBatch : Type 0 where
  pub model_id : String
  pub questions : List CompiledQuestion

-- the `ValueError`s of the compiler
pub data CompileError : Type 0 where
  unknown_model too_many_questions too_many_options no_frozen_messages : CompileError

pub data Compiled (A : Type 0) : Type 0 where
  ok : A → Compiled A
  err : CompileError → Compiled A

infixl 5 ◌>>=◌
abbrev pub ◌>>=◌ : {A B : Type 0} → Compiled A → (A → Compiled B) → Compiled B
ok a >>= f = f a
err e >>= f = err e

abbrev pub prompt_version : String
prompt_version = "unridden-gemma-choice-v1"

abbrev pub answer_prefix : String
answer_prefix = "Answer:\n"

abbrev pub system_instruction : String
system_instruction =
    "Use the supplied state to answer one finite decision question. Select exactly one listed label. Do not explain or produce other text."

abbrev pub kind : Question → String
kind (Question.noul i c) = "noul"
kind (Question.choice i c) = "choice"
kind (Question.score i c) = "score"

abbrev pub instructions : Question → Json
instructions (Question.noul i c) = i
instructions (Question.choice i c) = i
instructions (Question.score i c) = i

-- `[str(index) for index in range(len(entries))]`, from an index on
abbrev pub indices : {A : Type 0} → ℕ → List A → List String
indices n [] = []
indices n (x ∷ xs) = show n ∷ indices (suc n) xs

abbrev pub zip : {A B : Type 0} → List A → List B → List (A × B)
zip [] ys = []
zip (x ∷ xs) [] = []
zip (x ∷ xs) (y ∷ ys) = (x, y) ∷ zip xs ys

-- what `_options` returns
pub record Options : Type 0 where
  pub ids : List String
  pub descriptions : List Json
  pub legend : Option (List (String × Json))

abbrev rubric : Option NoulCriteria → List Json
rubric none = Json.null ∷ Json.null ∷ []
rubric (some r) = r.when_true ∷ r.when_false ∷ []

-- `_options`
unfoldable pub options : Question → Options
options (Question.choice i c) = record {
  ids = map (λ kv. kv.0) c;
  descriptions = map (λ kv. kv.1) c;
  legend = none;
}
options (Question.score i c) = record {
  ids = indices 0 c;
  descriptions = c;
  legend = some (zip (indices 0 c) c);
}
options (Question.noul i c) = record {
  ids = "true" ∷ "false" ∷ [];
  descriptions = rubric c;
  legend = none;
}

-- `_question_heading`
unfoldable pub question_heading : Question → String
question_heading (Question.choice i c) = "Choose the single best option for the state."
question_heading (Question.score i c) = "Choose one ordered level, from lowest to highest."
question_heading (Question.noul i c) = "Decide whether the stated condition is true or false."

-- `repr` is Python's `repr` of a float.
module _ (repr : ℕ → String) where
  -- `render`
  unfoldable pub render : Json → String
  render Json.null = ""
  render (Json.str s) = s
  render j = dumps repr j

  abbrev pub option_line : String → String → String → String
  option_line label id rendered =
      let line : String = label ^^ (": " ^^ id) in
      if rendered == "" then line else line ^^ (" - " ^^ rendered)

  -- the loop over `zip(labels, option_ids, descriptions)`
  unfoldable pub option_lines : List String → List String → List Json → List String
  option_lines (l ∷ labels) (id ∷ ids) (d ∷ ds) =
      option_line l id (render d) ∷ option_lines labels ids ds
  option_lines _ _ _ = []

  unfoldable pub instruction_lines : String → List String
  instruction_lines text = if text == "" then [] else "" ∷ "INSTRUCTIONS:" ∷ text ∷ []

  -- the lines of a prompt from the heading on
  unfoldable pub question_lines : Question → List String → List String
  unfolding render option_lines instruction_lines question_heading options
  question_lines q labels =
      question_heading q
      ∷ (instruction_lines (render (instructions q))
          ++ (""
              ∷ "OPTIONS:"
              ∷ (option_lines labels (options q).ids (options q).descriptions
                  ++ ("" ∷ "Reply with one option label only." ∷ []))))

  -- `shared`
  unfoldable pub shared_lines : Json → List String
  unfolding render
  shared_lines state = system_instruction ∷ "" ∷ "STATE:" ∷ render state ∷ "" ∷ "QUESTION:" ∷ []

  -- `_compile_question`
  unfoldable pub compile_question :
      String → Question → Json → Profile → Bool → Compiled CompiledQuestion
  unfolding shared_lines question_lines
  compile_question id q state profile share_prefix =
      let opts = options q in
      if ltb (length profile.labels) (length opts.ids)
      then err too_many_options
      else ok (record {
        id = id;
        kind = kind q;
        messages =
            record {
              role = "user";
              content =
                  join (
                    shared_lines state ++ question_lines q (take (length opts.ids) profile.labels));
            }
            ∷ [];
        answer_prefix = answer_prefix;
        labels = take (length opts.ids) profile.labels;
        option_ids = opts.ids;
        legend = opts.legend;
        shared_prefix_bytes = if share_prefix then len (join (shared_lines state) ^^ "\n") else 0;
        prompt_version = prompt_version;
      })

  -- the comprehension of `compile_request`, which stops at the first error
  unfoldable pub compile_all :
      List (String × Question) → Json → Profile → Bool → Compiled (List CompiledQuestion)
  unfolding compile_question
  compile_all [] state profile share = ok []
  compile_all ((id, q) ∷ questions) state profile share = do
    c ← compile_question id q state profile share
    cs ← compile_all questions state profile share
    ok (c ∷ cs)

  -- `compile_request`
  unfoldable pub compile_request : DecisionRequest → Profile → Bool → Compiled CompiledBatch
  unfolding compile_all
  compile_request request profile share_prefix =
      if request.model == profile.model_id
      then (if ltb profile.max_questions (length request.questions)
          then err too_many_questions
          else do
            qs ← compile_all request.questions request.state profile share_prefix
            ok (record { model_id = profile.model_id; questions = qs }))
      else err unknown_model

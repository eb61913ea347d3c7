-- ===== src/Compiler/Examples.antt =====
-- The theorems of the prompt compiler at a request with a choice and a score.
use Prim.Native.String.{len, slice}
use riderless.Prelude.{
  ℕ, String, ◌≡◌, refl, Bool, true, false, ◌&&◌, [], ◌∷◌, length, take, leb, all, ◌==◌,
}
use riderless.Json.{ℤ, Json, Fields}
use riderless.Compiler.{
  Question, Profile, DecisionRequest, CompiledQuestion, CompiledBatch, ok, options,
  compile_question, compile_request, render, shared_lines, question_lines,
}
use riderless.Compiler.Text.{◌^^◌, join, show}
use riderless.Compiler.Dumps.{dumps}
use riderless.Compiler.Prompts.{
  is_ok, has_labels, shared_text, compile_question-shared, compile_question-labels,
}
use riderless.Compiler.Requests.{compile_request-is_ok}

abbrev repr : ℕ → String
repr n = "1.0"

abbrev profile : Profile
profile = record {
  model_id = "m";
  model_sha256 = "5a";
  runtime_sha256 = "7b";
  labels = "A" ∷ "B" ∷ "C" ∷ [];
  label_token_ids = 11 ∷ 12 ∷ 13 ∷ [];
  max_questions = 2;
  batched_mode = false;
}

abbrev state : Json
state =
    Json.obj
      (Fields.field "b" (Json.int (ℤ.pos 12)) (Fields.field "a" (Json.str "x\"y") Fields.end))

abbrev route : Question
route =
    Question.choice (Json.str "Choose")
      (("billing", Json.null) ∷ ("technical", Json.str "A defect") ∷ [])

abbrev severity : Question
severity = Question.score Json.null (Json.str "low" ∷ Json.str "high" ∷ [])

abbrev request : DecisionRequest
request = record {
  model = "m";
  state = state;
  questions = ("route", route) ∷ ("severity", severity) ∷ [];
}

sorted_state : render repr state ≡ "{\"a\":\"x\\\"y\",\"b\":12}"
unfolding render dumps
sorted_state = refl

route_lines :
    question_lines repr route ("A" ∷ "B" ∷ [])
    ≡ "Choose the single best option for the state." ∷ "" ∷ "INSTRUCTIONS:" ∷ "Choose" ∷ ""
      ∷ "OPTIONS:" ∷ "A: billing" ∷ "B: technical - A defect" ∷ ""
      ∷ "Reply with one option label only." ∷ []
unfolding question_lines
route_lines = refl

abbrev compiled : String → String → Question → Bool → CompiledQuestion
compiled id kind q share = record {
  id = id;
  kind = kind;
  messages =
      record {
        role = "user";
        content =
            join (shared_lines repr state)
            ^^ ("\n" ^^ join (question_lines repr q ("A" ∷ "B" ∷ [])));
      }
      ∷ [];
  answer_prefix = "Answer:\n";
  labels = "A" ∷ "B" ∷ [];
  option_ids = (options q).ids;
  legend = (options q).legend;
  shared_prefix_bytes = 173;
  prompt_version = "unridden-gemma-choice-v1";
}

route-compiled :
    compile_question repr "route" route state profile true
    ≡ ok (compiled "route" "choice" route true)
unfolding compile_question join dumps show
route-compiled = refl

compile_question-shared_example :
    (tail : String) × ((compiled "route" "choice" route true).messages
      ≡ record { role = "user"; content = shared_text repr state ^^ tail } ∷ [])
    × (173 ≡ len (shared_text repr state))
    × (slice (shared_text repr state ^^ tail) 0 173 ≡ shared_text repr state)
compile_question-shared_example =
    compile_question-shared repr "route" route state profile (compiled "route" "choice" route true)
      route-compiled

compile_question-labels_example :
    ((compiled "route" "choice" route true).id ≡ "route")
    × ((compiled "route" "choice" route true).option_ids ≡ (options route).ids)
    × ((compiled "route" "choice" route true).labels
        ≡ take (length (options route).ids) profile.labels)
    × (2 ≡ length (options route).ids)
compile_question-labels_example =
    compile_question-labels repr "route" route state profile true
      (compiled "route" "choice" route true) route-compiled

compile_request-is_ok_example :
    is_ok (compile_request repr request profile true)
    ≡ (request.model == "m" && (leb 2 2 && all (has_labels repr profile) request.questions))
compile_request-is_ok_example = compile_request-is_ok repr request profile true

abbrev batch : CompiledBatch
batch = record {
  model_id = "m";
  questions = compiled "route" "choice" route true ∷ compiled "severity" "score" severity true ∷ [];
}

request_compiled : compile_request repr request profile true ≡ ok batch
unfolding compile_request join dumps show
request_compiled = refl

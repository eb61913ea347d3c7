-- ===== src/Snapshots/Mapping/Examples.antt =====
-- The theorem of the snapshot mapping for one choice, with a constant in the place of floats.
use riderless.Prelude.{ℕ, ◌+◌, ◌≡◌, true, false, none, [], ◌∷◌, ltb, leb}
use riderless.Compiler.{Profile}
use riderless.Mapping.Arithmetic.{Floats}
use riderless.Mapping.{EvaluationMode, WorkerQuestionResult, map_question}
use riderless.Snapshots.Compiler.{CompiledSnapshotQuestion}
use riderless.Snapshots.Mapping.{map_answer}
use riderless.Snapshots.Mapping.Agreement.{to_option, as_decision, map_answer-map_question}

abbrev whole : Floats
whole = record {
  Float = ℕ;
  of_ℕ = λ n. n;
  add = λ a b. a + b;
  sub = λ a b. a;
  mul = λ a b. a;
  div = λ a b. a;
  exp = λ x. x;
  sum = λ xs. 1;
  less = ltb;
  at_most = leb;
  is_finite = λ x. true;
  is_one = λ x. true;
  of_f32 = λ n. n;
}

abbrev profile : Profile
profile = record {
  model_id = "m";
  model_sha256 = "5a";
  runtime_sha256 = "7b";
  labels = "A" ∷ "B" ∷ [];
  label_token_ids = 11 ∷ 12 ∷ [];
  max_questions = 2;
  batched_mode = true;
}

abbrev route : CompiledSnapshotQuestion
route = record {
  id = "route";
  kind = "choice";
  messages = [];
  answer_prefix = "Answer:\n";
  labels = "A" ∷ "B" ∷ [];
  option_ids = "billing" ∷ "technical" ∷ [];
  legend = none;
  prompt_version = "unridden-gemma-context-v1";
}

abbrev raw : WorkerQuestionResult whole
raw = record {
  id = "route";
  label_logits = 0 ∷ 1 ∷ [];
  label_token_ids = 11 ∷ 12 ∷ [];
  allowed_label_mass = 1;
  argmax_token = 12;
  argmax_logit = 1;
  prompt_sha256 = "9c";
  prompt_tokens = 40;
  processed_tokens = 10;
  reused_tokens = 30;
  cache_cleared = true;
  evaluation_mode = EvaluationMode.sequential;
  batch_sequences = 1;
  timing_ms = 7;
}

map_answer-map_question_example :
    to_option (map_answer whole route raw (11 ∷ 12 ∷ []))
    ≡ to_option (map_question whole profile false (as_decision route 0) raw)
map_answer-map_question_example = map_answer-map_question whole route 0 profile raw

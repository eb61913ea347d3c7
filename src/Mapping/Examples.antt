-- ===== src/Mapping/Examples.antt =====
-- The theorems of the mapping for one choice, with percentages in the place of floats.
use Prim.Native.Nat.{◌/◌}
use native.Mathlib.Nat.{div-mul-le_self, le-div_iff_mul-le}
use riderless.Prelude.{
  ◌≤◌, ℕ, ◌+◌, ◌-◌, ◌*◌, ◌≡◌, refl, true, false, ◌&&◌, none, some, List, [], ◌∷◌, ltb, leb, arith,
}
use riderless.Compiler.{Profile, CompiledQuestion, CompiledBatch}
use riderless.Mapping.Arithmetic.{Floats}
use riderless.Mapping.{
  ok, EvaluationMode, Answer, Entries, WorkerQuestionResult, WorkerBatchResult, DecisionResponse,
  keys, set_item, set_items, stable_softmax, map_question, map_response,
}
use riderless.Mapping.Softmax.{IsDistribution, AtMost, stable_softmax-IsOrdered}
use riderless.Mapping.Answers.{IsBest, map_question-IsBest}
use riderless.Mapping.Wire.{question_ok, one_mode, Named, map_response-Named}
use riderless.Mapping.Responses.{processed, Acceptable, map_response-Acceptable}

abbrev total : List ℕ → ℕ
total [] = 0
total (x ∷ xs) = x + total xs

abbrev percent : Floats
percent = record {
  Float = ℕ;
  of_ℕ = λ n. n * 100;
  add = λ a b. a + b;
  sub = λ a b. (a + 4) - b;
  mul = λ a b. a * b / 100;
  div = λ a b. a * 100 / b;
  exp = λ x. x;
  sum = total;
  less = ltb;
  at_most = leb;
  is_finite = λ x. true;
  is_one = λ x. leb 98 x && leb x 102;
  of_f32 = λ n. n;
}

ltb_irreflexive : (x : ℕ) → ltb x x ≡ false
ltb_irreflexive x = ground arith

ltb_transitive : (x y z : ℕ) → ltb x y ≡ true → ltb y z ≡ true → ltb x z ≡ true
ltb_transitive x y z h k = ground (arith, h, k)

abbrev profile : Profile
profile = record {
  model_id = "m";
  model_sha256 = "5a";
  runtime_sha256 = "7b";
  labels = "A" ∷ "B" ∷ "C" ∷ [];
  label_token_ids = 11 ∷ 12 ∷ 13 ∷ [];
  max_questions = 2;
  batched_mode = false;
}

abbrev route : CompiledQuestion
route = record {
  id = "route";
  kind = "choice";
  messages = [];
  answer_prefix = "Answer:\n";
  labels = "A" ∷ "B" ∷ [];
  option_ids = "billing" ∷ "technical" ∷ [];
  legend = none;
  shared_prefix_bytes = 0;
  prompt_version = "unridden-gemma-choice-v1";
}

abbrev raw : WorkerQuestionResult percent
raw = record {
  id = "route";
  label_logits = 1 ∷ 3 ∷ [];
  label_token_ids = 11 ∷ 12 ∷ [];
  allowed_label_mass = 90;
  argmax_token = 12;
  argmax_logit = 3;
  prompt_sha256 = "9c";
  prompt_tokens = 40;
  processed_tokens = 40;
  reused_tokens = 0;
  cache_cleared = true;
  evaluation_mode = EvaluationMode.sequential;
  batch_sequences = 1;
  timing_ms = 7;
}

softmax_percent : stable_softmax percent (1 ∷ 3 ∷ []) ≡ ok (33 ∷ 66 ∷ [])
unfolding stable_softmax
softmax_percent = refl

percent_sub : (x y m : ℕ) → ltb y x ≡ false → ltb (y + 4 - m) (x + 4 - m) ≡ false
percent_sub x y m h = ground (arith, h)

percent_div :
    (x y t : ℕ) → leb t 0 ≡ false → ltb y x ≡ false → ltb (y * 100 / t) (x * 100 / t) ≡ false
percent_div x y t positive h =
    let le : x ≤ y = ground (arith, h) in
    let below : x * 100 / t * t ≤ y * 100 = omega (arith, div-mul-le_self (x * 100) t, le) in
    let bound : x * 100 / t ≤ y * 100 / t =
      (le-div_iff_mul-le {k = t} {x = x * 100 / t} {y = y * 100} (ground (arith, positive))).1
        below in
    ground (arith, bound)

stable_softmax-IsOrdered_example :
    IsDistribution percent (1 ∷ 3 ∷ []) (33 ∷ 66 ∷ []) × AtMost percent 33 66
stable_softmax-IsOrdered_example =
    stable_softmax-IsOrdered percent percent_sub (λ x y h. h) percent_div (1 ∷ 3 ∷ [])
      (33 ∷ 66 ∷ []) 0 1 1 3 33 66 softmax_percent refl refl refl refl refl

abbrev shares : Entries ℕ
shares = ("billing", 33) ∷ ("technical", 66) ∷ []

route_answer :
    map_question percent profile true route raw ≡ ok (Answer.choice_answer "technical" shares 66)
unfolding map_question set_items
route_answer = refl

map_question-IsBest_example :
    (ps : List ℕ) × (stable_softmax percent raw.label_logits ≡ ok ps)
    × IsBest percent route.option_ids ps "technical" 66
map_question-IsBest_example =
    map_question-IsBest percent ltb_irreflexive ltb_transitive profile true route raw "technical"
      shares 66 route_answer

abbrev batch : CompiledBatch
batch = record { model_id = "m"; questions = route ∷ [] }

abbrev worker : WorkerBatchResult percent
worker = record {
  model_sha256 = "5a";
  runtime_sha256 = "7b";
  generated_tokens = 0;
  callbacks_enabled = false;
  execution_mode = "full";
  has_fallback = false;
  questions = raw ∷ [];
}

abbrev response : DecisionResponse percent
response = record {
  model = "m";
  answers = ("route", Answer.choice_answer "technical" shares 66) ∷ [];
  input_tokens = 40;
  evaluation = none;
  diagnostics = none;
}

response_mapped : map_response percent batch worker profile false ≡ ok response
unfolding map_response set_items set_item
response_mapped = refl

map_response-Acceptable_example :
    (keys response.answers ≡ "route" ∷ [])
    × (40 ≡ processed percent worker.questions)
    × Acceptable percent batch worker profile
map_response-Acceptable_example =
    map_response-Acceptable percent batch worker profile false response response_mapped

abbrev batched_raw : WorkerQuestionResult percent
batched_raw = record raw { evaluation_mode = EvaluationMode.batched }

abbrev batched_worker : WorkerBatchResult percent
batched_worker = record worker { questions = batched_raw ∷ [] }

abbrev batched_profile : Profile
batched_profile = record profile { batched_mode = true }

abbrev batched_response : DecisionResponse percent
batched_response = record response {
  evaluation = some (record { mode = EvaluationMode.batched; has_fallback = false });
}

batched_mapped :
    map_response percent batch batched_worker batched_profile false ≡ ok batched_response
unfolding map_response set_items set_item
batched_mapped = refl

batched_one : one_mode percent batched_worker ≡ true
unfolding one_mode
batched_one = refl

map_response-Named_example : Named percent EvaluationMode.batched batched_worker
map_response-Named_example =
    map_response-Named percent batch batched_worker batched_profile false batched_response
      (record { mode = EvaluationMode.batched; has_fallback = false }) batched_one batched_mapped
      refl

raw_valid : question_ok percent raw ≡ true
unfolding question_ok
raw_valid = refl

reuse_miscounted : question_ok percent (record raw { reused_tokens = 5 }) ≡ false
unfolding question_ok
reuse_miscounted = refl

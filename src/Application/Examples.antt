-- ===== src/Application/Examples.antt =====
-- A request that the service of the decision API answers, with percentages in the place of floats.
use Prim.Native.Nat.{◌/◌}
use riderless.Prelude.{
  ℕ, ◌+◌, ◌-◌, ◌*◌, ◌≡◌, ◌⊎◌, refl, true, false, ◌&&◌, some, List, [], ◌∷◌, ltb, leb,
}
use riderless.Action.{ok, err}
use riderless.Json.{Json}
use riderless.Compiler.{Question, DecisionRequest, Profile}
use riderless.Mapping.Arithmetic.{Floats}
use riderless.Mapping.{EvaluationMode, WorkerQuestionResult, WorkerBatchResult}
use riderless.Application.{ApiConfig, ApiError, Worker, ApiService, config_ok, evaluate}
use riderless.Application.Serving.{is_free, Served, evaluate-Served}

abbrev total : List ℕ → ℕ
total [] = 0
total (x ∷ xs) = x + total xs

abbrev percent : Floats
percent = record {
  Float = ℕ;
  of_ℕ = λ n. n * 100;
  add = λ a b. a + b;
  sub = λ a b. (a + 4) - b;
  mul = λ a b. a * b / 100;
  div = λ a b. a * 100 / b;
  exp = λ x. x;
  sum = total;
  less = ltb;
  at_most = leb;
  is_finite = λ x. true;
  is_one = λ x. leb 98 x && leb x 102;
  of_f32 = λ n. n;
}

abbrev profile : Profile
profile = record {
  model_id = "m";
  model_sha256 = "5a";
  runtime_sha256 = "7b";
  labels = "A" ∷ "B" ∷ "C" ∷ [];
  label_token_ids = 11 ∷ 12 ∷ 13 ∷ [];
  max_questions = 2;
  batched_mode = false;
}

abbrev raw : WorkerQuestionResult percent
raw = record {
  id = "route";
  label_logits = 1 ∷ 3 ∷ [];
  label_token_ids = 11 ∷ 12 ∷ [];
  allowed_label_mass = 90;
  argmax_token = 12;
  argmax_logit = 3;
  prompt_sha256 = "9c";
  prompt_tokens = 40;
  processed_tokens = 40;
  reused_tokens = 0;
  cache_cleared = true;
  evaluation_mode = EvaluationMode.sequential;
  batch_sequences = 1;
  timing_ms = 7;
}

abbrev result : WorkerBatchResult percent
result = record {
  model_sha256 = "5a";
  runtime_sha256 = "7b";
  generated_tokens = 0;
  callbacks_enabled = false;
  execution_mode = "full";
  has_fallback = false;
  questions = raw ∷ [];
}

-- The world counts the calls.
abbrev backend : Worker percent
backend = record {
  World = ℕ;
  ready = λ n. true;
  evaluate = λ batch n. (ok result, n + 1);
  close = λ n. (ok tt, n + 1);
}

abbrev config : ApiConfig
config = record {
  context_size = 2048;
  batch_size = 256;
  ubatch_size = 256;
  threads = 8;
  max_questions = 32;
  max_request_bytes = 1048576;
  max_response_bytes = 4194304;
  batched = false;
  batched_context = 8192;
  v1_enabled = true;
  snapshots_enabled = false;
  snapshot_host_bytes = 2147483648;
  snapshot_default_ttl = 3600;
  share_prefix = true;
}

-- the defaults are accepted
config-is_ok : config_ok config ≡ true
unfolding config_ok
config-is_ok = refl

abbrev service : ApiService backend
service = record { config = config; profile = some profile; busy = false; world = 0 }

abbrev request : DecisionRequest
request = record {
  model = "m";
  state = Json.str "state";
  questions =
      (
        "route",
        Question.choice (Json.str "Choose")
            (("billing", Json.null) ∷ ("technical", Json.null) ∷ []),
      )
      ∷ [];
}

evaluate-Served_example :
    ((is_free (λ n. "") percent backend service ≡ true)
      × Served
          (λ n. "")
          percent
          backend
          request
          true
          service
          (evaluate (λ n. "") percent backend request true service))
    ⊎ ((is_free (λ n. "") percent backend service ≡ false)
        × ((evaluate (λ n. "") percent backend request true service
              ≡ (err ApiError.unavailable, service))
            ⊎ (evaluate (λ n. "") percent backend request true service
                ≡ (err ApiError.busy, service))))
evaluate-Served_example = evaluate-Served (λ n. "") percent backend request true service

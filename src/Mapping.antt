-- ===== src/Mapping.antt =====
-- unridden/api/mapping.py: the worker's logits become typed answers. The worker's result and the
-- public answer are the records of unridden/api/schema.py.
pub mod Arithmetic
pub mod Softmax
pub mod Answers
pub mod Responses
pub mod Wire
mod Examples
use riderless.Prelude.{
  ℕ, zero, suc, ◌+◌, String, Bool, true, false, not, ◌&&◌, ◌||◌, Option, none, some, is_some, List,
  [], ◌∷◌, map, take, length, any, all, get_elem?, eqb, ltb, ◌==◌, if◌then◌else◌,
}
use riderless.Json.{Json}
use riderless.Compiler.{Profile, CompiledQuestion, CompiledBatch}
use Arithmetic.{Floats}

-- the `ValueError`s of the mapping, by what they say, and the `IndexError` of a list
pub data MappingError : Type 0 where
  logits_not_finite not_normalizable invalid_probabilities question_count model_provenance :
      MappingError
  runtime_provenance generation execution sequential_batched batched_sequential : MappingError
  question_id label_tokens label_count reused_context missing_legend answer_order : MappingError
  zip_lengths index_error : MappingError

pub data Mapped (A : Type 0) : Type 0 where
  ok : A → Mapped A
  err : MappingError → Mapped A

infixl 5 ◌>>=◌
abbrev pub ◌>>=◌ : {A B : Type 0} → Mapped A → (A → Mapped B) → Mapped B
ok a >>= f = f a
err e >>= f = err e

infixl 5 ◌>>◌
abbrev pub ◌>>◌ : {A B : Type 0} → Mapped A → Mapped B → Mapped B
m >> n = m >>= λ _. n

-- `if not test: raise error`
abbrev pub check : Bool → MappingError → Mapped (Unit {0})
check test e = if test then ok tt else err e

pub data EvaluationMode : Type 0 where
  sequential batched : EvaluationMode

abbrev pub is_batched : EvaluationMode → Bool
is_batched EvaluationMode.sequential = false
is_batched EvaluationMode.batched = true

-- `Evaluation`; the one fallback is the literal `context`
pub record Evaluation : Type 0 where
  pub mode : EvaluationMode
  pub has_fallback : Bool

-- a dict, as the list of its entries in the order of insertion
abbrev pub Entries : Type 0 → Type 0
Entries A = List (String × A)

-- `d[key] = value`
unfoldable pub set_item : {A : Type 0} → String → A → Entries A → Entries A
set_item k v [] = (k, v) ∷ []
set_item k v ((j, w) ∷ d) =
    let rest = set_item k v d in if j == k then (j, v) ∷ d else (j, w) ∷ rest

unfoldable pub set_items : {A : Type 0} → List String → List A → Entries A → Mapped (Entries A)
unfolding set_item
set_items [] [] d = ok d
set_items (k ∷ ks) (v ∷ vs) d = set_items ks vs (set_item k v d)
set_items _ _ d = err zip_lengths

-- `dict(zip(keys, values, strict=True))`
abbrev pub zip_dict : {A : Type 0} → List String → List A → Mapped (Entries A)
zip_dict ks vs = set_items ks vs []

-- `list(d)`
abbrev pub keys : {A : Type 0} → Entries A → List String
keys = map (λ kv. kv.0)

abbrev pub same_texts : List String → List String → Bool
same_texts [] [] = true
same_texts (x ∷ xs) (y ∷ ys) = x == y && same_texts xs ys
same_texts _ _ = false

abbrev pub same_tokens : List ℕ → List ℕ → Bool
same_tokens [] [] = true
same_tokens (x ∷ xs) (y ∷ ys) = eqb x y && same_tokens xs ys
same_tokens _ _ = false

-- `items[index]`
abbrev pub item_at : {A : Type 0} → List A → ℕ → Mapped A
item_at xs i = elim (get_elem? xs i) [ none ↦ err index_error | some x ↦ ok x ]

-- `enumerate(items)`, from an index on
abbrev pub enumerate : {A : Type 0} → ℕ → List A → List (ℕ × A)
enumerate n [] = []
enumerate n (x ∷ xs) = (n, x) ∷ enumerate (suc n) xs

module _ (fl : Floats) where
  -- `WorkerQuestionResult`
  pub record WorkerQuestionResult : Type 0 where
    pub id : String
    pub label_logits : List fl.Float
    pub label_token_ids : List ℕ
    pub allowed_label_mass : fl.Float
    pub argmax_token : ℕ
    pub argmax_logit : fl.Float
    pub prompt_sha256 : String
    pub prompt_tokens : ℕ
    pub processed_tokens : ℕ
    pub reused_tokens : ℕ
    pub cache_cleared : Bool
    pub evaluation_mode : EvaluationMode
    pub batch_sequences : ℕ
    pub timing_ms : fl.Float

  -- `WorkerBatchResult`
  pub record WorkerBatchResult : Type 0 where
    pub model_sha256 : String
    pub runtime_sha256 : String
    pub generated_tokens : ℕ
    pub callbacks_enabled : Bool
    pub execution_mode : String
    pub has_fallback : Bool
    pub questions : List WorkerQuestionResult

  -- `Answer`
  pub data Answer : Type 0 where
    choice_answer : String → Entries fl.Float → fl.Float → Answer
    score_answer : fl.Float → Entries Json → Entries fl.Float → fl.Float → Answer
    noul_answer : fl.Float → Answer

  -- `QuestionDiagnostics`: the worker's figures for a question and what the mapping adds
  pub record QuestionDiagnostics : Type 0 where
    pub raw : WorkerQuestionResult
    pub token_mapping : Entries ℕ
    pub prompt_version : String
    pub model_sha256 : String
    pub runtime_sha256 : String

  -- `DecisionResponse`
  pub record DecisionResponse : Type 0 where
    pub model : String
    pub answers : Entries Answer
    pub input_tokens : ℕ
    pub evaluation : Option Evaluation
    pub diagnostics : Option (Entries QuestionDiagnostics)

  -- `max(items)`, the first of the greatest
  unfoldable pub max_of : fl.Float → List fl.Float → fl.Float
  max_of best [] = best
  max_of best (x ∷ xs) = max_of (if fl.less best x then x else best) xs

  -- `max(range(len(items)), key=items.__getitem__)`, past the first `n` items
  unfoldable pub argmax : ℕ → fl.Float → ℕ → List fl.Float → ℕ
  argmax i best n [] = i
  argmax i best n (x ∷ xs) =
      argmax (if fl.less best x then n else i) (if fl.less best x then x else best) (suc n) xs

  abbrev pub out_of_unit : fl.Float → Bool
  out_of_unit p = not (fl.is_finite p) || (fl.less p (fl.of_ℕ 0) || fl.less (fl.of_ℕ 1) p)

  -- the weights of `stable_softmax`
  abbrev pub weights : List fl.Float → fl.Float → List fl.Float
  weights logits maximum = map (λ item. fl.exp (fl.sub item maximum)) logits

  -- `stable_softmax` from the maximum on
  unfoldable pub normalize : List fl.Float → fl.Float → Mapped (List fl.Float)
  normalize logits maximum =
      let total = fl.sum (weights logits maximum) in
      let probabilities = map (λ w. fl.div w total) (weights logits maximum) in
      do
        check (fl.is_finite total && not (fl.at_most total (fl.of_ℕ 0))) not_normalizable
        check (not (any out_of_unit probabilities) && fl.is_one (fl.sum probabilities))
            invalid_probabilities
        ok probabilities

  -- `stable_softmax`
  unfoldable pub stable_softmax : List fl.Float → Mapped (List fl.Float)
  unfolding normalize max_of
  stable_softmax [] = err logits_not_finite
  stable_softmax (x ∷ xs) = do
    check (not (ltb (length (x ∷ xs)) 2) && all fl.is_finite (x ∷ xs)) logits_not_finite
    normalize (x ∷ xs) (max_of x xs)

  -- `sum(index * value for index, value in enumerate(probabilities))`
  abbrev pub expectation : List fl.Float → fl.Float
  expectation ps = fl.sum (map (λ iv. fl.mul (fl.of_ℕ iv.0) iv.1) (enumerate 0 ps))

  -- the answer of a question in `map_response`, from the probabilities on
  unfoldable pub answer_of : CompiledQuestion → List fl.Float → Mapped Answer
  unfolding argmax max_of
  answer_of c [] = err index_error
  answer_of c (p ∷ ps) = do
    mapped ← zip_dict c.option_ids (p ∷ ps)
    if c.kind == "choice"
        then (do
          option ← item_at c.option_ids (argmax 0 p 1 ps)
          ok (Answer.choice_answer option mapped (max_of p ps)))
        else if c.kind == "score"
        then elim c.legend [
          | none ↦ err missing_legend
          | some legend ↦
              ok (Answer.score_answer (expectation (p ∷ ps)) legend mapped (max_of p ps))
        ]
        else ok (Answer.noul_answer p)

  -- the body of the loop of `map_response` up to the answer; `is_first` is `raw is worker.questions[0]`
  unfoldable pub map_question :
      Profile → Bool → CompiledQuestion → WorkerQuestionResult → Mapped Answer
  unfolding stable_softmax answer_of
  map_question profile is_first c raw = do
    check (raw.id == c.id) question_id
    check (same_tokens raw.label_token_ids (take (length c.labels) profile.label_token_ids))
        label_tokens
    check (eqb (length raw.label_logits) (length c.option_ids)) label_count
    check (not (is_first && ltb 0 raw.reused_tokens)) reused_context
    probabilities ← stable_softmax raw.label_logits
    answer_of c probabilities

  pub record Totals : Type 0 where
    pub answers : Entries Answer
    pub diagnostics : Entries QuestionDiagnostics
    pub total_tokens : ℕ

  -- `diagnostics[compiled.id] = QuestionDiagnostics(...)`, where they are asked for
  unfoldable pub diagnose :
      Bool
      → WorkerBatchResult
      → CompiledQuestion
      → WorkerQuestionResult
      → Entries QuestionDiagnostics
      → Mapped (Entries QuestionDiagnostics)
  diagnose include_diagnostics worker c raw d =
      if include_diagnostics
      then (do
        token_mapping ← zip_dict c.labels raw.label_token_ids
        ok (
            set_item c.id
              (record {
                raw = raw;
                token_mapping = token_mapping;
                prompt_version = c.prompt_version;
                model_sha256 = worker.model_sha256;
                runtime_sha256 = worker.runtime_sha256;
              })
              d))
      else ok d

  -- the loop of `map_response`
  unfoldable pub map_questions :
      Profile
      → Bool
      → WorkerBatchResult
      → Bool
      → List CompiledQuestion
      → List WorkerQuestionResult
      → Totals
      → Mapped Totals
  unfolding map_question diagnose
  map_questions profile include worker is_first [] [] t = ok t
  map_questions profile include worker is_first (c ∷ cs) (raw ∷ raws) t = do
    answer ← map_question profile is_first c raw
    diagnostics ← diagnose include worker c raw t.diagnostics
    map_questions profile include worker false cs raws (record {
      answers = set_item c.id answer t.answers;
      diagnostics = diagnostics;
      total_tokens = t.total_tokens + raw.processed_tokens;
    })
  map_questions profile include worker is_first _ _ t = err zip_lengths

  -- `batched == {True}` and `batched == {False}`, where `batched` is the set of the questions' modes
  abbrev pub all_batched : WorkerBatchResult → Bool
  all_batched w =
      not (eqb (length w.questions) 0) && all (λ q. is_batched q.evaluation_mode) w.questions

  abbrev pub none_batched : WorkerBatchResult → Bool
  none_batched w =
      not (eqb (length w.questions) 0) && all (λ q. not (is_batched q.evaluation_mode)) w.questions

  -- the tests of `map_response` before its loop
  unfoldable pub check_worker : CompiledBatch → WorkerBatchResult → Profile → Mapped (Unit {0})
  check_worker batch w profile = do
    check (eqb (length w.questions) (length batch.questions)) question_count
    check (w.model_sha256 == profile.model_sha256) model_provenance
    check (w.runtime_sha256 == profile.runtime_sha256) runtime_provenance
    check (eqb w.generated_tokens 0 && not w.callbacks_enabled) generation
    check (w.execution_mode == "full") execution
    check (profile.batched_mode || (none_batched w && not w.has_fallback)) sequential_batched
    check (not profile.batched_mode || (w.has_fallback || all_batched w)) batched_sequential

  abbrev pub evaluation_of : WorkerBatchResult → Profile → Option Evaluation
  evaluation_of w profile =
      if profile.batched_mode
      then some (record {
        mode = if all_batched w then EvaluationMode.batched else EvaluationMode.sequential;
        has_fallback = w.has_fallback;
      })
      else none

  -- `map_response`
  unfoldable pub map_response :
      CompiledBatch → WorkerBatchResult → Profile → Bool → Mapped DecisionResponse
  unfolding check_worker map_questions
  map_response batch w profile include_diagnostics = do
    check_worker batch w profile
    t ←
        map_questions profile include_diagnostics w true batch.questions w.questions
          (record { answers = []; diagnostics = []; total_tokens = 0 })
    check (same_texts (keys t.answers) (map (λ c. c.id) batch.questions)) answer_order
    ok (record {
      model = profile.model_id;
      answers = t.answers;
      input_tokens = t.total_tokens;
      evaluation = evaluation_of w profile;
      diagnostics = if include_diagnostics then some t.diagnostics else none;
    })

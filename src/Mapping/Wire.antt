-- ===== src/Mapping/Wire.antt =====
-- The validators of unridden/api/schema.py on what the native worker reports, and the evaluation mode
-- that a response names.
use riderless.Prelude.{
  suc, ◌+◌, ◌≡◌, refl, subst, sym, ap, ◌∙◌, Bool, true, false, not, ◌&&◌, ◌||◌, none, some, List,
  [], ◌∷◌, map, length, all, All, eqb, arith, Bool-cases, inl, inr, if◌then◌else◌,
}
use riderless.Compiler.{Profile, CompiledBatch}
use riderless.Mapping.Arithmetic.{Floats}
use riderless.Mapping.{
  Mapped, MappingError, ok, err, ◌>>=◌, ◌>>◌, check, keys, same_texts, EvaluationMode, Evaluation,
  is_batched, Totals, WorkerQuestionResult, WorkerBatchResult, DecisionResponse, all_batched,
  none_batched, evaluation_of, check_worker, map_questions, map_response,
}

same_bool : Bool → Bool → Bool
same_bool true b = b
same_bool false b = not b

all→All :
    {A : Type 0} (test : A → Bool) (xs : List A) → all test xs ≡ true → All (λ x. test x ≡ true) xs
all→All test [] h = tt
all→All test (x ∷ xs) h = (ground (arith, h), all→All test xs (ground (arith, h)))

none→All :
    {A : Type 0} (test : A → Bool) (xs : List A)
    → all (λ x. not (test x)) xs ≡ true
    → All (λ x. test x ≡ false) xs
none→All test [] h = tt
none→All test (x ∷ xs) h = (ground (arith, h), none→All test xs (ground (arith, h)))

module _ (fl : Floats) where
  -- `WorkerQuestionResult._finite_and_aligned` raises nothing
  unfoldable pub question_ok : WorkerQuestionResult fl → Bool
  unfolding same_bool
  question_ok q =
      eqb (q.processed_tokens + q.reused_tokens) q.prompt_tokens
      && (same_bool q.cache_cleared (eqb q.reused_tokens 0)
          && ((is_batched q.evaluation_mode || eqb q.batch_sequences 1)
              && (eqb (length q.label_logits) (length q.label_token_ids)
                  && (all fl.is_finite q.label_logits && fl.is_finite q.argmax_logit))))

  -- `WorkerBatchResult._one_mode_per_request` raises nothing
  unfoldable pub one_mode : WorkerBatchResult fl → Bool
  one_mode w =
      (all (λ q. is_batched q.evaluation_mode) w.questions
        || all (λ q. not (is_batched q.evaluation_mode)) w.questions)
      && ((not w.has_fallback || none_batched fl w)
          && (not (all_batched fl w)
              || all (λ q. eqb q.batch_sequences (length w.questions)) w.questions))

  response_evaluation :
      (batch : CompiledBatch) (w : WorkerBatchResult fl) (profile : Profile) (include : Bool)
      (r : DecisionResponse fl)
      → map_response fl batch w profile include ≡ ok r
      → r.evaluation ≡ evaluation_of fl w profile
  unfolding map_response
  response_evaluation batch w profile include r h =
      go (check_worker fl batch w profile)
        (map_questions fl profile include w true batch.questions w.questions
          (record { answers = []; diagnostics = []; total_tokens = 0 }))
        h
    where
      go :
          (m : Mapped (Unit {0})) (n : Mapped (Totals fl))
          → (do
            m
            t ← n
            check
                (same_texts (keys t.answers) (map (λ c. c.id) batch.questions))
                MappingError.answer_order
            ok (record {
              model = profile.model_id;
              answers = t.answers;
              input_tokens = t.total_tokens;
              evaluation = evaluation_of fl w profile;
              diagnostics = if include then some t.diagnostics else none;
            }))
            ≡ ok r
          → r.evaluation ≡ evaluation_of fl w profile
      go (ok x) (ok t) h =
          elim (Bool-cases (same_texts (keys t.answers) (map (λ c. c.id) batch.questions))) [
            | inl y ↦ ground (arith, h, y)
            | inr n ↦ absurd (ground (arith, h, n))
          ]
      go (ok x) (err y) h = absurd (ground (arith, h))
      go (err y) n h = absurd (ground (arith, h))

  -- Every question was evaluated in the mode that is named.
  abbrev pub Named : EvaluationMode → WorkerBatchResult fl → Type 0
  Named mode w = All (λ q. is_batched q.evaluation_mode ≡ is_batched mode) w.questions

  -- Where the worker's result passes its validator and the response names an evaluation mode, every
  -- question of the request was evaluated in that mode.
  pub map_response-Named :
      (batch : CompiledBatch) (w : WorkerBatchResult fl) (profile : Profile) (include : Bool)
      (r : DecisionResponse fl) (e : Evaluation)
      → one_mode w ≡ true
      → map_response fl batch w profile include ≡ ok r
      → r.evaluation ≡ some e
      → Named e.mode w
  unfolding one_mode
  map_response-Named batch w profile include r e v h k = go w.questions refl
    where
      named : evaluation_of fl w profile ≡ some e
      named = sym (response_evaluation batch w profile include r h) ∙ k

      go :
          (qs : List (WorkerQuestionResult fl))
          → w.questions ≡ qs
          → All (λ q. is_batched q.evaluation_mode ≡ is_batched e.mode) qs
      go [] f = tt
      go (q ∷ qs) f =
          let some_questions : length w.questions ≡ suc (length qs) = ap length f in
          elim (Bool-cases (all (λ q. is_batched q.evaluation_mode) w.questions)) [
            | inl y ↦
                let mode : is_batched e.mode ≡ true = ground (arith, named, y, some_questions) in
                subst (λ b. All (λ q. is_batched q.evaluation_mode ≡ b) (q ∷ qs)) (sym mode)
                  (all→All (λ q. is_batched q.evaluation_mode) (q ∷ qs)
                    (sym (ap (all (λ q. is_batched q.evaluation_mode)) f) ∙ y))
            | inr n ↦
                let mode : is_batched e.mode ≡ false = ground (arith, named, n, some_questions) in
                let sequential : all (λ q. not (is_batched q.evaluation_mode)) w.questions ≡ true =
                  ground (arith, v, n) in
                subst (λ b. All (λ q. is_batched q.evaluation_mode ≡ b) (q ∷ qs)) (sym mode)
                  (none→All (λ q. is_batched q.evaluation_mode) (q ∷ qs)
                    (sym (ap (all (λ q. not (is_batched q.evaluation_mode))) f) ∙ sequential))
          ]

-- ===== src/Mapping/Responses.antt =====
-- `map_response` as a whole: what it requires of the worker, and what it reports.
use riderless.Prelude.{
  ℕ, ◌+◌, String, ◌≡◌, refl, ap, ◌∙◌, Bool-cases, inl, inr, Bool, true, false, not, ◌&&◌, none,
  some, List, [], ◌∷◌, map, length, take, eqb, ltb, arith, eq_iff, ◌==◌, if◌then◌else◌,
}
use riderless.Compiler.{Profile, CompiledQuestion, CompiledBatch}
use riderless.Mapping.Arithmetic.{Floats}
use riderless.Mapping.{
  Mapped, MappingError, ok, err, ◌>>=◌, ◌>>◌, check, keys, same_texts, set_item, Answer, Entries,
  Totals, QuestionDiagnostics, WorkerQuestionResult, WorkerBatchResult, DecisionResponse,
  check_worker, map_question, same_tokens, answer_of, stable_softmax, diagnose, map_questions,
  map_response, evaluation_of,
}

same_texts→≡ : (xs ys : List String) → same_texts xs ys ≡ true → xs ≡ ys
same_texts→≡ [] [] h = refl
same_texts→≡ [] (y ∷ ys) h = absurd (ground (arith, h))
same_texts→≡ (x ∷ xs) [] h = absurd (ground (arith, h))
same_texts→≡ (x ∷ xs) (y ∷ ys) h =
    let e : x ≡ y = (eq_iff x y).0 (ground (arith, h)) in
    let rest = same_texts→≡ xs ys (ground (arith, h)) in ground (arith, e, rest)

module _ (fl : Floats) where
  -- `sum(raw.processed_tokens for raw in worker.questions)`
  abbrev pub processed : List (WorkerQuestionResult fl) → ℕ
  processed [] = 0
  processed (q ∷ qs) = q.processed_tokens + processed qs

  -- no question of a request but the later ones may reuse tokens
  abbrev pub reused_first : Bool → List (WorkerQuestionResult fl) → Bool
  reused_first is_first [] = false
  reused_first is_first (q ∷ qs) = is_first && ltb 0 q.reused_tokens

  question-reused :
      (profile : Profile) (is_first : Bool) (c : CompiledQuestion) (raw : WorkerQuestionResult fl)
      (a : Answer fl)
      → map_question fl profile is_first c raw ≡ ok a
      → (is_first && ltb 0 raw.reused_tokens) ≡ false
  unfolding map_question
  question-reused profile is_first c raw a h =
      go (raw.id == c.id)
        (same_tokens raw.label_token_ids (take (length c.labels) profile.label_token_ids))
        (eqb (length raw.label_logits) (length c.option_ids)) (is_first && ltb 0 raw.reused_tokens)
        h
    where
      go :
          (w x y z : Bool)
          → (do
            check w MappingError.question_id
            check x MappingError.label_tokens
            check y MappingError.label_count
            check (not z) MappingError.reused_context
            probabilities ← stable_softmax fl raw.label_logits
            answer_of fl c probabilities)
            ≡ ok a
          → z ≡ false
      go false x y z h = absurd (ground (arith, h))
      go true false y z h = absurd (ground (arith, h))
      go true true false z h = absurd (ground (arith, h))
      go true true true true h = absurd (ground (arith, h))
      go true true true false h = refl

  map_questions-Totals :
      (profile : Profile) (include : Bool) (worker : WorkerBatchResult fl) (is_first : Bool)
      (cs : List CompiledQuestion) (raws : List (WorkerQuestionResult fl)) (t u : Totals fl)
      → map_questions fl profile include worker is_first cs raws t ≡ ok u
      → (u.total_tokens ≡ t.total_tokens + processed raws) × (reused_first is_first raws ≡ false)
  unfolding map_questions
  map_questions-Totals profile include worker is_first [] [] t u h = (ground (arith, h), refl)
  map_questions-Totals profile include worker is_first [] (q ∷ qs) t u h =
      absurd (ground (arith, h))
  map_questions-Totals profile include worker is_first (c ∷ cs) [] t u h =
      absurd (ground (arith, h))
  map_questions-Totals profile include worker is_first (c ∷ cs) (q ∷ qs) t u h =
      go (map_question fl profile is_first c q) refl (diagnose fl include worker c q t.diagnostics)
        (λ v. map_questions-Totals profile include worker false cs qs v u) h
    where
      go :
          (m : Mapped (Answer fl))
          → map_question fl profile is_first c q ≡ m
          → (n : Mapped (Entries (QuestionDiagnostics fl)))
          → ((v : Totals fl)
              → map_questions fl profile include worker false cs qs v ≡ ok u
              → (u.total_tokens ≡ v.total_tokens + processed qs) × (reused_first false qs ≡ false))
          → (do
            answer ← m
            diagnostics ← n
            map_questions fl profile include worker false cs qs (record {
              answers = set_item c.id answer t.answers;
              diagnostics = diagnostics;
              total_tokens = t.total_tokens + q.processed_tokens;
            }))
            ≡ ok u
          → (u.total_tokens ≡ t.total_tokens + processed (q ∷ qs))
            × (reused_first is_first (q ∷ qs) ≡ false)
      go (ok a) e (ok d) ih h =
          let rest = ih _ h in (omega (arith, rest.0), question-reused profile is_first c q a e)
      go (ok a) e (err x) ih h = absurd (ground (arith, h))
      go (err x) e n ih h = absurd (ground (arith, h))

  abbrev no_totals : Totals fl
  no_totals = record { answers = []; diagnostics = []; total_tokens = 0 }

  -- what `map_response` requires of the worker's result as a whole
  abbrev pub Acceptable : CompiledBatch → WorkerBatchResult fl → Profile → Type 0
  Acceptable batch w profile =
      (length w.questions ≡ length batch.questions)
      × (w.model_sha256 ≡ profile.model_sha256)
      × (w.runtime_sha256 ≡ profile.runtime_sha256)
      × (w.generated_tokens ≡ 0)
      × (w.callbacks_enabled ≡ false)
      × (w.execution_mode ≡ "full")
      × (reused_first true w.questions ≡ false)

  check_worker-ok :
      (batch : CompiledBatch) (w : WorkerBatchResult fl) (profile : Profile) (r : Unit {0})
      → check_worker fl batch w profile ≡ ok r
      → (eqb (length w.questions) (length batch.questions) ≡ true)
        × (w.model_sha256 == profile.model_sha256 ≡ true)
        × (w.runtime_sha256 == profile.runtime_sha256 ≡ true)
        × ((eqb w.generated_tokens 0 && not w.callbacks_enabled) ≡ true)
        × (w.execution_mode == "full" ≡ true)
  unfolding check_worker
  check_worker-ok batch w profile r h = (
    ground (arith, h),
    ground (arith, h),
    ground (arith, h),
    ground (arith, h),
    ground (arith, h),
  )

  -- A response has the answers of the request's questions under their ids and in their order, and
  -- its input tokens are the tokens that the worker processed. It is given only for a result of the
  -- handshake's model and runtime with one entry for each question, which generated nothing and
  -- reused nothing from before the request.
  pub map_response-Acceptable :
      (batch : CompiledBatch) (w : WorkerBatchResult fl) (profile : Profile) (include : Bool)
      (r : DecisionResponse fl)
      → map_response fl batch w profile include ≡ ok r
      → (keys r.answers ≡ map (λ c. c.id) batch.questions)
        × (r.input_tokens ≡ processed w.questions)
        × Acceptable batch w profile
  unfolding map_response
  map_response-Acceptable batch w profile include r h =
      go (check_worker fl batch w profile) refl
        (map_questions fl profile include w true batch.questions w.questions no_totals) refl h
    where
      go :
          (m : Mapped (Unit {0}))
          → check_worker fl batch w profile ≡ m
          → (n : Mapped (Totals fl))
          → map_questions fl profile include w true batch.questions w.questions no_totals ≡ n
          → (do
            m
            t ← n
            check
                (same_texts (keys t.answers) (map (λ c. c.id) batch.questions))
                MappingError.answer_order
            ok (record {
              model = profile.model_id;
              answers = t.answers;
              input_tokens = t.total_tokens;
              evaluation = evaluation_of fl w profile;
              diagnostics = if include then some t.diagnostics else none;
            }))
            ≡ ok r
          → (keys r.answers ≡ map (λ c. c.id) batch.questions)
            × (r.input_tokens ≡ processed w.questions)
            × Acceptable batch w profile
      go (ok x) e (ok t) f h =
          let c = check_worker-ok batch w profile x e in
          let sums =
            map_questions-Totals profile include w true batch.questions w.questions no_totals t f in
          let named = same_texts (keys t.answers) (map (λ c. c.id) batch.questions) in
          let same : named ≡ true = elim (Bool-cases named) [
            | inl y ↦ y
            | inr n ↦ absurd (ground (arith, h, n))
          ] in
          let listed = same_texts→≡ (keys t.answers) (map (λ c. c.id) batch.questions) same in
          let answers : r.answers ≡ t.answers = ground (arith, h, same) in
          (
            ap keys answers ∙ listed,
            ground (arith, h, same, sums.0),
            (
              ground (arith, c.0),
              (eq_iff _ _).0 c.1,
              (eq_iff _ _).0 c.2,
              ground (arith, c.3),
              ground (arith, c.3),
              (eq_iff _ _).0 c.4,
              sums.1,
            ),
          )
      go (ok x) e (err y) f h = absurd (ground (arith, h))
      go (err y) e n f h = absurd (ground (arith, h))

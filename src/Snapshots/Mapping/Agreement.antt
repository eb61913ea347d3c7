-- ===== src/Snapshots/Mapping/Agreement.antt =====
-- `map_answer` of snapshots/mapping.py beside the loop of `map_response` of mapping.py.
use riderless.Prelude.{
  ◌≡◌, refl, ap, Bool, true, false, Option, none, some, List, [], ◌∷◌, take, length, eqb, ◌==◌, ℕ,
}
use riderless.Compiler.{Profile, CompiledQuestion}
use riderless.Mapping.Arithmetic.{Floats}
use riderless.Mapping.{
  Mapped, MappingError, ok, err, ◌>>=◌, ◌>>◌, check, WorkerQuestionResult, answer_of, map_question,
  stable_softmax, same_tokens,
}
use riderless.Snapshots.Compiler.{CompiledSnapshotQuestion}
use riderless.Snapshots.Mapping.{normalized, typed_answer, map_answer}

-- the value, if there is one
abbrev pub to_option : {A : Type 0} → Mapped A → Option A
to_option (ok a) = some a
to_option (err e) = none

-- the question as the decision API would have compiled it, with other messages
abbrev pub as_decision : CompiledSnapshotQuestion → ℕ → CompiledQuestion
as_decision c shared = record {
  id = c.id;
  kind = c.kind;
  messages = c.messages;
  answer_prefix = c.answer_prefix;
  labels = c.labels;
  option_ids = c.option_ids;
  legend = c.legend;
  shared_prefix_bytes = shared;
  prompt_version = c.prompt_version;
}

module _ (fl : Floats) where
  typed_answer-answer_of :
      (c : CompiledSnapshotQuestion) (shared : ℕ) (ps : List fl.Float)
      → typed_answer fl c ps ≡ answer_of fl (as_decision c shared) ps
  unfolding typed_answer answer_of
  typed_answer-answer_of c shared [] = refl
  typed_answer-answer_of c shared (p ∷ ps) = refl

  -- For a question that is not the first of its request, and the same labels, `map_answer` and the
  -- loop of `map_response` return the same answer, or both raise.
  pub map_answer-map_question :
      (c : CompiledSnapshotQuestion) (shared : ℕ) (profile : Profile)
      (raw : WorkerQuestionResult fl)
      → to_option (map_answer fl c raw profile.label_token_ids)
        ≡ to_option (map_question fl profile false (as_decision c shared) raw)
  unfolding map_answer map_question
  map_answer-map_question c shared profile raw =
      go (raw.id == c.id)
        (same_tokens raw.label_token_ids (take (length c.labels) profile.label_token_ids))
        (eqb (length raw.label_logits) (length c.option_ids)) (stable_softmax fl raw.label_logits)
    where
      go :
          (a b d : Bool) (m : Mapped (List fl.Float))
          → to_option (do
            check a MappingError.question_id
            check b MappingError.label_tokens
            check d MappingError.label_count
            probabilities ← normalized m
            typed_answer fl c probabilities)
            ≡ to_option (do
              check a MappingError.question_id
              check b MappingError.label_tokens
              check d MappingError.label_count
              check true MappingError.reused_context
              probabilities ← m
              answer_of fl (as_decision c shared) probabilities)
      go false b d m = refl
      go true false d m = refl
      go true true false m = refl
      go true true true (err e) = refl
      go true true true (ok ps) = ap to_option (typed_answer-answer_of c shared ps)

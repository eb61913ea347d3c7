-- ===== src/Snapshots/Mapping.antt =====
-- unridden/api/snapshots/mapping.py: the answer of a branch question. A
-- `WorkerSnapshotQuestionResult` is a `WorkerQuestionResult` with figures that the mapping does not
-- read, and each `SnapshotProtocolError` is named as the `ValueError` of the same text.
pub mod Agreement
mod Examples
use riderless.Prelude.{ℕ, List, [], ◌∷◌, take, length, eqb, none, some, ◌==◌, if◌then◌else◌}
use riderless.Mapping.Arithmetic.{Floats}
use riderless.Mapping.{
  Mapped, MappingError, ok, err, ◌>>=◌, ◌>>◌, check, WorkerQuestionResult, Answer, max_of, argmax,
  item_at, zip_dict, same_tokens, expectation, stable_softmax,
}
use riderless.Snapshots.Compiler.{CompiledSnapshotQuestion}

-- `except ValueError as error: raise SnapshotProtocolError(...)`
abbrev pub normalized : {A : Type 0} → Mapped A → Mapped A
normalized (ok a) = ok a
normalized (err e) = err MappingError.not_normalizable

module _ (fl : Floats) where
  -- `map_answer` from the probabilities on
  unfoldable pub typed_answer : CompiledSnapshotQuestion → List fl.Float → Mapped (Answer fl)
  unfolding argmax max_of
  typed_answer c [] = err MappingError.index_error
  typed_answer c (p ∷ ps) = do
    mapped ← zip_dict c.option_ids (p ∷ ps)
    if c.kind == "choice"
        then (do
          option ← item_at c.option_ids (argmax fl 0 p 1 ps)
          ok (Answer.choice_answer option mapped (max_of fl p ps)))
        else if c.kind == "score"
        then elim c.legend [
          | none ↦ err MappingError.missing_legend
          | some legend ↦
              ok (Answer.score_answer (expectation fl (p ∷ ps)) legend mapped (max_of fl p ps))
        ]
        else ok (Answer.noul_answer p)

  -- `map_answer`
  unfoldable pub map_answer :
      CompiledSnapshotQuestion → WorkerQuestionResult fl → List ℕ → Mapped (Answer fl)
  unfolding stable_softmax typed_answer
  map_answer c raw expected_label_token_ids = do
    check (raw.id == c.id) MappingError.question_id
    check (same_tokens raw.label_token_ids (take (length c.labels) expected_label_token_ids))
        MappingError.label_tokens
    check (eqb (length raw.label_logits) (length c.option_ids)) MappingError.label_count
    probabilities ← normalized (stable_softmax fl raw.label_logits)
    typed_answer c probabilities

-- ===== src/Snapshots/Wire/Branches.antt =====
-- unridden/api/snapshots/schema.py: what the worker reports of a branch: the questions of a decision, a
-- state evaluation and a ride.
use riderless.Prelude.{
  ℕ, ◌+◌, String, Bool, true, false, not, ◌&&◌, ◌||◌, Option, is_some, List, all, length, leb, eqb,
  ◌==◌,
}
use riderless.Mapping.Arithmetic.{Floats}
use riderless.Mapping.{WorkerQuestionResult}
use riderless.Mapping.Wire.{question_ok}
use riderless.Snapshots.Schema.{is_b18}
use riderless.Snapshots.Wire.{
  is_sha256, has_length, is_nonempty, if_present, is_nonnegative, is_fraction, is_between,
}
use riderless.Snapshots.Wire.Rows.{WorkerSnapshotRow, row_ok, BlockTokens, TopLogit, top_logits_ok}
use riderless.Snapshots.Wire.Vectors.{ExportKind, VectorArtifact, artifact_ok}

-- `Literal["resident", "host"]`
pub data Restore : Type 0 where
  resident host : Restore

abbrev pub is_resident : Restore → Bool
is_resident Restore.resident = true
is_resident Restore.host = false

-- `_restore_accounting` on a branch: nothing is restored for a resident parent, and a child is a 30
abbrev pub restore_ok : Restore → ℕ → Option WorkerSnapshotRow → Bool
restore_ok restore bytes child =
    (not (is_resident restore) || eqb bytes 0)
    && if_present (λ r. not (is_b18 r.completed_blocks)) child

module _ (fl : Floats) where
  pub record WorkerSnapshotBranch : Type 0 where
    pub parent : String
    pub suffix_tokens : ℕ
    pub block_tokens : BlockTokens
    pub restore : Restore
    pub restored_bytes : ℕ
    pub restore_ms : fl.Float
    pub inference_ms : fl.Float
    pub child : Option WorkerSnapshotRow

  -- the fields of `WorkerSnapshotBranch` and its `_restore_accounting`
  unfoldable pub branch_ok : WorkerSnapshotBranch → Bool
  unfolding row_ok
  branch_ok b =
      is_nonempty b.parent
      && (leb 1 b.suffix_tokens
          && (is_nonnegative fl b.restore_ms
              && (is_nonnegative fl b.inference_ms
                  && (if_present row_ok b.child && restore_ok b.restore b.restored_bytes b.child))))

  -- the fields of `WorkerQuestionResult` beside the test of its validator
  unfoldable pub question_fields_ok : WorkerQuestionResult fl → Bool
  question_fields_ok q =
      is_nonempty q.id
      && (has_length 2 255 q.label_logits
          && (has_length 2 255 q.label_token_ids
              && (is_fraction fl q.allowed_label_mass
                  && (is_sha256 q.prompt_sha256
                      && (leb 1 q.prompt_tokens
                          && (leb 1 q.processed_tokens
                              && (is_between 1 32 q.batch_sequences
                                  && is_nonnegative fl q.timing_ms)))))))

  -- `WorkerSnapshotQuestionResult`, which extends `WorkerQuestionResult`
  pub record WorkerSnapshotQuestionResult : Type 0 where
    pub question : WorkerQuestionResult fl
    pub snapshot : WorkerSnapshotBranch

  -- the inherited tests and `_branch_accounting`
  unfoldable pub snapshot_question_ok : WorkerSnapshotQuestionResult → Bool
  unfolding question_fields_ok question_ok branch_ok
  snapshot_question_ok q =
      question_fields_ok q.question
      && (question_ok fl q.question
          && (branch_ok q.snapshot && eqb q.snapshot.suffix_tokens q.question.processed_tokens))

  pub record WorkerResult : Type 0 where
    pub id : String
    pub model_sha256 : String
    pub runtime_sha256 : String
    pub questions : List WorkerSnapshotQuestionResult

  -- the fields of `WorkerResult`
  unfoldable pub result_ok : WorkerResult → Bool
  unfolding snapshot_question_ok
  result_ok r =
      is_nonempty r.id
      && (is_sha256 r.model_sha256
          && (is_sha256 r.runtime_sha256
              && (has_length 1 32 r.questions && all snapshot_question_ok r.questions)))

  pub record WorkerState : Type 0 where
    pub id : String
    pub parent : String
    pub suffix_tokens : ℕ
    pub prompt_sha256 : String
    pub prompt_tokens : ℕ
    pub block_tokens : BlockTokens
    pub restore : Restore
    pub restored_bytes : ℕ
    pub restore_ms : fl.Float
    pub inference_ms : fl.Float
    pub timing_ms : fl.Float
    pub vectors : List (ExportKind × VectorArtifact)
    pub top_logits : List (TopLogit fl)
    pub child : Option WorkerSnapshotRow

  -- the fields of `WorkerState` and its `_restore_accounting`
  unfoldable pub state_ok : WorkerState → Bool
  unfolding row_ok artifact_ok
  state_ok s =
      is_nonempty s.id
      && (is_nonempty s.parent
          && (leb 1 s.suffix_tokens
              && (is_sha256 s.prompt_sha256
                  && (leb 1 s.prompt_tokens
                      && (is_nonnegative fl s.restore_ms
                          && (is_nonnegative fl s.inference_ms
                              && (is_nonnegative fl s.timing_ms
                                  && (all (λ kv. artifact_ok fl kv.1) s.vectors
                                      && (top_logits_ok fl s.top_logits
                                          && (if_present row_ok s.child
                                              && restore_ok s.restore s.restored_bytes
                                                  s.child))))))))))

  pub data RideMode : Type 0 where
    snapshot_mode split_prefill_mode reference_mode : RideMode

  abbrev pub is_snapshot_mode : RideMode → Bool
  is_snapshot_mode RideMode.snapshot_mode = true
  is_snapshot_mode _ = false

  abbrev pub is_reference_mode : RideMode → Bool
  is_reference_mode RideMode.reference_mode = true
  is_reference_mode _ = false

  pub record RiderStep : Type 0 where
    pub token_id : ℕ
    pub top_logits : List (TopLogit fl)

  pub record RideTiming : Type 0 where
    pub restore : fl.Float
    pub time_to_first_token : fl.Float
    pub decode : fl.Float
    pub total : fl.Float

  pub record WorkerRide : Type 0 where
    pub id : String
    pub mode : RideMode
    -- `execution_mode == "stock30"`; the other mode is `split18-30`
    pub is_stock : Bool
    pub text : String
    pub token_ids : List ℕ
    pub stop_reason : String
    pub prompt_sha256 : String
    pub prompt_tokens : ℕ
    pub reused_tokens : ℕ
    pub prefilled_tokens : ℕ
    pub generated_tokens : ℕ
    pub block_tokens : List (String × ℕ)
    pub restore : Option Restore
    pub restored_bytes : ℕ
    pub timing_ms : RideTiming
    pub decode_tokens_per_second : fl.Float
    pub steps : List RiderStep

  abbrev pub same : Bool → Bool → Bool
  same true b = b
  same false b = not b

  abbrev pub timing_ok : RideTiming → Bool
  timing_ok t =
      is_nonnegative fl t.restore
      && (is_nonnegative fl t.time_to_first_token
          && (is_nonnegative fl t.decode && is_nonnegative fl t.total))

  -- `WorkerRide._accounting`
  unfoldable pub ride_accounting : WorkerRide → Bool
  ride_accounting r =
      eqb r.generated_tokens (length r.token_ids)
      && (eqb r.prompt_tokens (r.reused_tokens + r.prefilled_tokens)
          && (same (is_snapshot_mode r.mode) (is_some r.restore)
              && (if_present (λ w. not (is_resident w) || eqb r.restored_bytes 0) r.restore
                  && same (is_reference_mode r.mode) r.is_stock)))

  -- the fields of `WorkerRide` and `_accounting`
  unfoldable pub ride_ok : WorkerRide → Bool
  unfolding ride_accounting
  ride_ok r =
      is_nonempty r.id
      && (is_sha256 r.prompt_sha256
          && (leb 1 r.prompt_tokens
              && (leb 1 r.prefilled_tokens
                  && (timing_ok r.timing_ms
                      && (is_nonnegative fl r.decode_tokens_per_second
                          && (all (λ s. top_logits_ok fl s.top_logits) r.steps
                              && ((r.stop_reason == "eog" || r.stop_reason == "max_tokens")
                                  && ride_accounting r)))))))

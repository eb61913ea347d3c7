-- ===== src/Snapshots/Wire/Rows.antt =====
-- unridden/api/snapshots/schema.py: the rows of snapshots that the worker creates and promotes, and its
-- handshake.
use riderless.Prelude.{
  ℕ, String, Bool, true, false, not, ◌&&◌, ◌||◌, Option, none, some, is_some, List, [], ◌∷◌, map,
  all, length, leb, eqb, ◌==◌, if◌then◌else◌,
}
use riderless.Mapping.Arithmetic.{Floats}
use riderless.Snapshots.Schema.{Checkpoint, Boundary, is_b18}
use riderless.Snapshots.Wire.{
  is_sha256, has_length, is_nonempty, are_distinct, if_present, is_nonnegative, is_fraction,
  max_vector_rows,
}

pub record SnapshotBytes : Type 0 where
  pub lower_kv : ℕ
  pub upper_kv : ℕ
  pub h18 : ℕ
  pub h30 : ℕ

pub record WorkerSnapshotRow : Type 0 where
  pub snapshot_id : String
  pub completed_blocks : Checkpoint
  pub parent : Option String
  pub tokens : ℕ
  pub bytes : SnapshotBytes
  pub kind : Boundary
  pub prompt_sha256 : String

-- the fields of `WorkerSnapshotRow` and `_coverage_matches_depth`
unfoldable pub row_ok : WorkerSnapshotRow → Bool
row_ok r =
    is_nonempty r.snapshot_id
    && (leb 1 r.tokens
        && (is_sha256 r.prompt_sha256
            && (not (is_b18 r.completed_blocks) || (eqb r.bytes.upper_kv 0 && eqb r.bytes.h30 0))))

pub record BlockTokens : Type 0 where
  pub lower : ℕ
  pub upper : ℕ

-- `by_depth.get(blocks)`: of two rows of a depth, the later
abbrev pub same_depth : Checkpoint → Checkpoint → Bool
same_depth Checkpoint.b18 Checkpoint.b18 = true
same_depth Checkpoint.b30 Checkpoint.b30 = true
same_depth _ _ = false

unfoldable pub by_depth : Checkpoint → List WorkerSnapshotRow → Option WorkerSnapshotRow
by_depth d [] = none
by_depth d (r ∷ rs) =
    let rest = by_depth d rs in
    if is_some rest then rest else if same_depth d r.completed_blocks then some r else none

-- a 30 beside an 18 names its parent and references its H18
abbrev pub paired_ok : Option WorkerSnapshotRow → Option WorkerSnapshotRow → Bool
paired_ok (some eighteen) (some thirty) = is_some thirty.parent && eqb thirty.bytes.h18 0
paired_ok _ _ = true

module _ (fl : Floats) where
  pub record TopLogit : Type 0 where
    pub token_id : ℕ
    pub logit : fl.Float

  -- `TopLogit._finite` for each, and the bound on their number
  abbrev pub top_logits_ok : List TopLogit → Bool
  top_logits_ok ts = has_length 0 max_vector_rows ts && all (λ t. fl.is_finite t.logit) ts

  pub record WorkerReadout : Type 0 where
    pub label_logits : List fl.Float
    pub label_token_ids : List ℕ
    pub allowed_label_mass : fl.Float
    pub argmax_token : ℕ
    pub argmax_logit : fl.Float
    pub top_logits : List TopLogit

  -- the fields of `WorkerReadout` and `_finite_and_aligned`
  unfoldable pub readout_ok : WorkerReadout → Bool
  readout_ok r =
      has_length 2 255 r.label_logits
      && (has_length 2 255 r.label_token_ids
          && (is_fraction fl r.allowed_label_mass
              && (top_logits_ok r.top_logits
                  && (eqb (length r.label_logits) (length r.label_token_ids)
                      && (all fl.is_finite r.label_logits && fl.is_finite r.argmax_logit)))))

  -- `WorkerCreateTiming` and `WorkerPromoteTiming`
  pub record CreateTiming : Type 0 where
    pub lower : fl.Float
    pub upper : fl.Float
    pub total : fl.Float

  pub record PromoteTiming : Type 0 where
    pub upper : fl.Float
    pub total : fl.Float

  pub record WorkerCreated : Type 0 where
    pub id : String
    pub prompt_sha256 : String
    pub tokens : ℕ
    pub snapshots : List WorkerSnapshotRow
    pub readout : Option WorkerReadout
    pub block_tokens : BlockTokens
    pub timing_ms : CreateTiming

  -- the fields of `WorkerCreated` and `_consistent_set`
  unfoldable pub created_ok : WorkerCreated → Bool
  unfolding by_depth row_ok readout_ok are_distinct
  created_ok c =
      is_nonempty c.id
      && (is_sha256 c.prompt_sha256
          && (leb 1 c.tokens
              && (has_length 1 2 c.snapshots
                  && (all row_ok c.snapshots
                      && (if_present readout_ok c.readout
                          && (is_nonnegative fl c.timing_ms.lower
                              && (is_nonnegative fl c.timing_ms.upper
                                  && (is_nonnegative fl c.timing_ms.total
                                      && (are_distinct same_depth
                                            (map (λ r. r.completed_blocks) c.snapshots)
                                          && (paired_ok (by_depth Checkpoint.b18 c.snapshots)
                                                (by_depth Checkpoint.b30 c.snapshots)
                                              && ((not (is_some c.readout)
                                                    || is_some
                                                        (by_depth Checkpoint.b30 c.snapshots))
                                                  && all (λ r. eqb r.tokens c.tokens)
                                                      c.snapshots)))))))))))

  pub record WorkerPromoted : Type 0 where
    pub id : String
    pub snapshot : WorkerSnapshotRow
    pub block_tokens : BlockTokens
    pub timing_ms : PromoteTiming

  -- the fields of `WorkerPromoted` and `_promotion_ran_only_upper`
  unfoldable pub promoted_ok : WorkerPromoted → Bool
  unfolding row_ok
  promoted_ok p =
      is_nonempty p.id
      && (row_ok p.snapshot
          && (is_nonnegative fl p.timing_ms.upper
              && (is_nonnegative fl p.timing_ms.total
                  && (not (is_b18 p.snapshot.completed_blocks)
                      && (is_some p.snapshot.parent && eqb p.block_tokens.lower 0)))))

-- the fields of `WorkerHello` that are not one literal
pub record WorkerHello : Type 0 where
  pub model_id : String
  pub model_name : String
  pub model_sha256 : String
  pub runtime_sha256 : String
  pub profile : String
  pub labels : List String
  pub label_token_ids : List ℕ
  pub context_size : ℕ
  pub batch_size : ℕ
  pub ubatch_size : ℕ
  pub threads : ℕ
  pub n_embd : ℕ
  pub reference_context : Bool
  pub rider_mode : Bool

-- the fields of `WorkerHello` and `_label_mapping`
unfoldable pub hello_ok : WorkerHello → Bool
unfolding are_distinct
hello_ok h =
    h.model_id == "local-gemma-unridden-v1"
    && (is_nonempty h.model_name
        && (is_sha256 h.model_sha256
            && (is_sha256 h.runtime_sha256
                && (h.profile == "split18-30-v1"
                    && (has_length 2 255 h.labels
                        && (has_length 2 255 h.label_token_ids
                            && (leb 1 h.context_size
                                && (leb 1 h.batch_size
                                    && (leb 1 h.ubatch_size
                                        && (leb 1 h.threads
                                            && (leb 1 h.n_embd
                                                && (eqb (length h.labels) (length h.label_token_ids)
                                                    && (are_distinct (λ a b. a == b) h.labels
                                                        && are_distinct eqb
                                                            h.label_token_ids)))))))))))))

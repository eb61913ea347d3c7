-- ===== src/Snapshots/Wire/Vectors.antt =====
-- unridden/api/snapshots/schema.py: vectors, which are base64 texts of little-endian binary32 numbers.
use riderless.Prelude.{
  ℕ, ◌+◌, ◌-◌, ◌*◌, String, Bool, true, false, ◌&&◌, Option, none, some, is_some, List, [], ◌∷◌,
  all, length, leb, ltb, eqb, if◌then◌else◌,
}
use riderless.Mapping.Arithmetic.{Floats}
use riderless.Snapshots.Wire.{has_length, is_nonempty, max_vector_rows}
use riderless.Snapshots.Wire.Base64.{decode}

pub data Representation : Type 0 where
  raw_residual_after_block_18 raw_residual_after_block_30 post_final_norm_head_input :
      Representation

pub data ExportKind : Type 0 where
  last_residual last_normalized top_logits : ExportKind

-- the names of `Literal["h18", "h30", "last_normalized"]`
pub data Which : Type 0 where
  h18 h30 last_normalized : Which

abbrev pub same_kind : ExportKind → ExportKind → Bool
same_kind ExportKind.last_residual ExportKind.last_residual = true
same_kind ExportKind.last_normalized ExportKind.last_normalized = true
same_kind ExportKind.top_logits ExportKind.top_logits = true
same_kind _ _ = false

abbrev pub same_representation : Representation → Representation → Bool
same_representation raw_residual_after_block_18 raw_residual_after_block_18 = true
same_representation raw_residual_after_block_30 raw_residual_after_block_30 = true
same_representation post_final_norm_head_input post_final_norm_head_input = true
same_representation _ _ = false

-- the product of the dimensions
unfoldable pub product : List ℕ → ℕ
product [] = 1
product (d ∷ ds) = d * product ds

-- `VectorArtifact` and `WorkerTensor`; the literals `f32` and `little` are their only values
pub record VectorArtifact : Type 0 where
  pub shape : List ℕ
  pub representation : Representation
  pub base64 : String

-- `value[0] if len(value) == 2 else 1`
abbrev pub row_count : List ℕ → ℕ
row_count (rows ∷ width ∷ []) = rows
row_count _ = 1

pub record WorkerVectors : Type 0 where
  pub id : String
  pub snapshot_id : String
  pub which : Which
  pub rows : ℕ
  pub row_begin : ℕ
  pub row_end : ℕ
  pub tensor : VectorArtifact

abbrev pub expected_of : Which → Representation
expected_of Which.h18 = raw_residual_after_block_18
expected_of Which.h30 = raw_residual_after_block_30
expected_of Which.last_normalized = post_final_norm_head_input

module _ (fl : Floats) where
  -- `struct.unpack("<{count}f", raw)`
  unfoldable pub unpack : List ℕ → List fl.Float
  unpack (a ∷ b ∷ c ∷ d ∷ bytes) = fl.of_f32 (a + 256 * b + 65536 * c + 16777216 * d) ∷ unpack bytes
  unpack _ = []

  -- `_decode_f32`, `none` where it raises
  unfoldable pub decode_f32 : List ℕ → String → Option (List fl.Float)
  unfolding unpack product
  decode_f32 shape encoded = elim (decode encoded) [
    | none ↦ none
    | some raw ↦
        if eqb (length raw) (product shape * 4) && all fl.is_finite (unpack raw)
        then some (unpack raw)
        else none
  ]

  -- the fields of `VectorArtifact`, `_bounded_shape` and `_decodes`
  unfoldable pub artifact_ok : VectorArtifact → Bool
  unfolding decode_f32
  artifact_ok a =
      has_length 1 2 a.shape
      && (all (λ d. leb 1 d) a.shape
          && (leb (row_count a.shape) max_vector_rows && is_some (decode_f32 a.shape a.base64)))

  -- the fields of `WorkerTensor` and `_decodes`
  unfoldable pub tensor_ok : VectorArtifact → Bool
  unfolding decode_f32
  tensor_ok t =
      has_length 1 2 t.shape
      && (leb (row_count t.shape) max_vector_rows && is_some (decode_f32 t.shape t.base64))

  -- the fields of `WorkerVectors` and `_slice_within_bounds`
  unfoldable pub vectors_ok : WorkerVectors → Bool
  unfolding tensor_ok
  vectors_ok v =
      is_nonempty v.id
      && (is_nonempty v.snapshot_id
          && (tensor_ok v.tensor
              && ((ltb v.row_begin v.row_end && leb v.row_end v.rows)
                  && (leb (v.row_end - v.row_begin) max_vector_rows
                      && (eqb (row_count v.tensor.shape) (v.row_end - v.row_begin)
                          && same_representation v.tensor.representation (expected_of v.which))))))

-- ===== src/Snapshots/Wire/Examples.antt =====
-- The theorems of the tests, for two numbers in base64 and a request of both checkpoints.
use riderless.Prelude.{ℕ, ◌+◌, ◌≤◌, ◌≡◌, refl, true, some, [], ◌∷◌, length, leb, ltb}
use riderless.Json.{Json}
use riderless.Mapping.Arithmetic.{Floats}
use riderless.Snapshots.Schema.{Checkpoint, Persistence}
use riderless.Snapshots.Compiler.{SnapshotInput}
use riderless.Snapshots.Wire.Base64.{decode}
use riderless.Snapshots.Wire.Vectors.{WorkerVectors, Which, raw_residual_after_block_30, decode_f32}
use riderless.Snapshots.Wire.Requests.{SnapshotCreateRequest, parse_create}
use riderless.Snapshots.Wire.Checks.{IsSortOf, parse_create-IsSortOf}

-- numbers by their patterns
abbrev patterns : Floats
patterns = record {
  Float = ℕ;
  of_ℕ = λ n. n;
  add = λ a b. a + b;
  sub = λ a b. a;
  mul = λ a b. a;
  div = λ a b. a;
  exp = λ x. x;
  sum = λ xs. 1;
  less = ltb;
  at_most = leb;
  is_finite = λ x. ltb x 2139095040;
  is_one = λ x. true;
  of_f32 = λ n. n;
}

-- 1.0 and 2.0
abbrev slice : WorkerVectors
slice = record {
  id = "1";
  snapshot_id = "snap_1";
  which = Which.h30;
  rows = 5;
  row_begin = 3;
  row_end = 4;
  tensor = record {
    shape = 2 ∷ [];
    representation = raw_residual_after_block_30;
    base64 = "AACAPwAAAEA=";
  };
}

two_numbers : decode_f32 patterns (2 ∷ []) "AACAPwAAAEA=" ≡ some (1065353216 ∷ 1073741824 ∷ [])
unfolding decode_f32 decode
two_numbers = refl

abbrev sent : SnapshotCreateRequest
sent = record {
  input = SnapshotInput.context_input (Json.str "state");
  checkpoints = Checkpoint.b30 ∷ Checkpoint.b18 ∷ [];
  persistence = Persistence.memory;
  ttl_seconds = 60;
}

abbrev parsed : SnapshotCreateRequest
parsed = record sent { checkpoints = Checkpoint.b18 ∷ Checkpoint.b30 ∷ [] }

sent-parsed : parse_create sent ≡ some parsed
unfolding parse_create
sent-parsed = refl

parse_create-IsSortOf_example :
    IsSortOf sent.checkpoints parsed.checkpoints
    × (parsed ≡ record sent { checkpoints = parsed.checkpoints })
    × (1 ≤ length parsed.checkpoints)
    × (length parsed.checkpoints ≤ 2)
    × (1 ≤ parsed.ttl_seconds)
    × (parsed.ttl_seconds ≤ 86400)
parse_create-IsSortOf_example = parse_create-IsSortOf sent parsed sent-parsed

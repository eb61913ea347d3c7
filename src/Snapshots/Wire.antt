-- ===== src/Snapshots/Wire.antt =====
-- unridden/api/snapshots/schema.py: the messages of the native worker and the bodies of the API. A
-- message is a record, and a test `..._ok` says whether its pydantic model accepts it. A bound that a
-- type already has, such as `ge=0`, is not tested again, nor is a literal that has one value only.
pub mod Base64
pub mod Rows
pub mod Branches
pub mod Vectors
pub mod Requests
pub mod Checks
mod Examples
use riderless.Prelude.{
  ℕ, String, Bool, true, false, not, ◌&&◌, ◌||◌, Option, none, some, List, [], ◌∷◌, any, length,
  leb, eqb, ◌==◌,
}
use riderless.Mapping.Arithmetic.{Floats}
use riderless.Snapshots.Store.Manifest.{codes, is_hex_of}

-- `Field(pattern=r"^[0-9a-f]{64}$")`
abbrev pub is_sha256 : String → Bool
is_sha256 s = is_hex_of 64 (codes s)

-- `Field(min_length=lo, max_length=hi)`
abbrev pub has_length {ℓ} : {A : Type ℓ} → ℕ → ℕ → List A → Bool
has_length lo hi xs = leb lo (length xs) && leb (length xs) hi

-- `Field(ge=lo, le=hi)` of an integer
abbrev pub is_between : ℕ → ℕ → ℕ → Bool
is_between lo hi n = leb lo n && leb n hi

abbrev pub is_nonempty : String → Bool
is_nonempty s = not (s == "")

-- `len(set(items)) == len(items)`
unfoldable pub are_distinct {ℓ} : {A : Type ℓ} → (A → A → Bool) → List A → Bool
are_distinct same [] = true
are_distinct same (x ∷ xs) = not (any (same x) xs) && are_distinct same xs

-- `x is None or test(x)`
abbrev pub if_present {ℓ} : {A : Type ℓ} → (A → Bool) → Option A → Bool
if_present test none = true
if_present test (some x) = test x

-- `Field(ge=0.0)`
abbrev pub is_nonnegative : (fl : Floats) → fl.Float → Bool
is_nonnegative fl x = fl.at_most (fl.of_ℕ 0) x

-- `Field(ge=0.0, le=1.0)`
abbrev pub is_fraction : (fl : Floats) → fl.Float → Bool
is_fraction fl x = fl.at_most (fl.of_ℕ 0) x && fl.at_most x (fl.of_ℕ 1)

abbrev pub max_ttl_seconds : ℕ
max_ttl_seconds = 86400

abbrev pub max_vector_rows : ℕ
max_vector_rows = 64

abbrev pub max_rider_tokens : ℕ
max_rider_tokens = 1024

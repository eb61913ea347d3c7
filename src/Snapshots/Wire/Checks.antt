-- ===== src/Snapshots/Wire/Checks.antt =====
-- What the tests of the vectors, the checkpoints and the ride guarantee.
use riderless.Prelude.{
  any, both, eqb-true, leb→le, subst, ℕ, zero, suc, ◌-◌, ◌*◌, ◌≤◌, ◌<◌, String, ◌≡◌, refl, Bool,
  true, false, ◌&&◌, Option, none, some, List, [], ◌∷◌, all, arith, length, leb, ltb, eqb,
  if◌then◌else◌,
}
use riderless.Mapping.Arithmetic.{Floats}
use riderless.Snapshots.Wire.{has_length}
use riderless.Snapshots.Schema.{Checkpoint}
use riderless.Snapshots.Wire.{are_distinct, is_between}
use riderless.Snapshots.Wire.Rows.{same_depth}
use riderless.Snapshots.Wire.Requests.{input_ok, checkpoints, SnapshotCreateRequest, parse_create}
use riderless.Snapshots.Wire.Base64.{decode}
use riderless.Snapshots.Wire.Vectors.{
  WorkerVectors, product, unpack, decode_f32, same_representation, expected_of,
}

module _ (fl : Floats) where
  -- four bytes make one number
  length-unpack : (raw : List ℕ) (n : ℕ) → length raw ≡ n * 4 → length (unpack fl raw) ≡ n
  unfolding unpack
  length-unpack [] n h = omega (arith, h)
  length-unpack (a ∷ []) n h = absurd (omega (arith, h))
  length-unpack (a ∷ b ∷ []) n h = absurd (omega (arith, h))
  length-unpack (a ∷ b ∷ c ∷ []) n h = absurd (omega (arith, h))
  length-unpack (a ∷ b ∷ c ∷ d ∷ raw) zero h = absurd (omega (arith, h))
  length-unpack (a ∷ b ∷ c ∷ d ∷ raw) (suc n) h =
      omega (arith, length-unpack raw n (omega (arith, h)))

  -- The numbers of a vector.
  pub record Holds (shape : List ℕ) (xs : List fl.Float) : Type 0 where
    pub size : length xs ≡ product shape
    pub finite : all fl.is_finite xs ≡ true

  -- A text that decodes to a vector of a shape has as many numbers as the product of the dimensions, all of
  -- them finite.
  pub decode_f32-Holds :
      (shape : List ℕ) (encoded : String) (xs : List fl.Float)
      → decode_f32 fl shape encoded ≡ some xs
      → Holds shape xs
  unfolding decode_f32
  decode_f32-Holds shape encoded xs h = go (decode encoded) h
    where
      accepted :
          (raw : List ℕ) (b c : Bool)
          → (eqb (length raw) (product shape * 4) ≡ b)
          → (all fl.is_finite (unpack fl raw) ≡ c)
          → (if b && c then some (unpack fl raw) else none) ≡ some xs
          → Holds shape xs
      accepted raw true true p q e = subst (Holds shape) (ground (arith, e)) (record {
        size = length-unpack raw (product shape) (eqb-true (length raw) (product shape * 4) p);
        finite = q;
      })
      accepted raw true false p q e = absurd (ground (arith, e))
      accepted raw false c p q e = absurd (ground (arith, e))

      go :
          (o : Option (List ℕ))
          → elim o as (λ _. Option (List fl.Float)) [
            | none ↦ none
            | some raw ↦
                if eqb (length raw) (product shape * 4) && all fl.is_finite (unpack fl raw)
                then some (unpack fl raw)
                else none
          ]
            ≡ some xs
          → Holds shape xs
      go none e = absurd (ground (arith, e))
      go (some raw) e =
          accepted raw (eqb (length raw) (product shape * 4)) (all fl.is_finite (unpack fl raw))
            refl refl e

  -- A slice of rows, each of one width.
  pub record IsSlice (v : WorkerVectors) : Type 0 where
    pub starts : v.row_begin < v.row_end
    pub ends : v.row_end ≤ v.rows
    pub bounded : v.row_end - v.row_begin ≤ 64
    pub width : ℕ
    pub numbers : List fl.Float
    pub decoded : decode_f32 fl v.tensor.shape v.tensor.base64 ≡ some numbers
    pub size : length numbers ≡ (v.row_end - v.row_begin) * width
    pub finite : all fl.is_finite numbers ≡ true
    pub tagged : same_representation v.tensor.representation (expected_of v.which) ≡ true

-- after how many blocks a checkpoint is taken
abbrev pub depth : Checkpoint → ℕ
depth Checkpoint.b18 = 18
depth Checkpoint.b30 = 30

-- each deeper than the one before it, so none is there twice
abbrev pub increasing : List Checkpoint → Bool
increasing (c ∷ d ∷ cs) = ltb (depth c) (depth d) && increasing (d ∷ cs)
increasing (c ∷ []) = true
increasing [] = true

-- `ds` has the checkpoints of `cs`, as many of them, each deeper than the one before it.
abbrev pub IsSortOf : List Checkpoint → List Checkpoint → Type 0
IsSortOf cs ds =
    (length ds ≡ length cs)
    × (increasing ds ≡ true)
    × ((b : Checkpoint) → any (same_depth b) ds ≡ any (same_depth b) cs)

swapped :
    (b : Checkpoint)
    → any (same_depth b) (Checkpoint.b18 ∷ Checkpoint.b30 ∷ [])
      ≡ any (same_depth b) (Checkpoint.b30 ∷ Checkpoint.b18 ∷ [])
swapped Checkpoint.b18 = refl
swapped Checkpoint.b30 = refl

settled : (cs ds es : List Checkpoint) → some es ≡ some ds → IsSortOf cs es → IsSortOf cs ds
settled cs ds es h k = let e : es ≡ ds = ground (arith, h) in subst (IsSortOf cs) e k

checkpoints-IsSortOf : (cs ds : List Checkpoint) → checkpoints cs ≡ some ds → IsSortOf cs ds
unfolding checkpoints are_distinct
checkpoints-IsSortOf [] ds h = settled [] ds [] h (refl, refl, λ b. refl)
checkpoints-IsSortOf (Checkpoint.b18 ∷ []) ds h =
    settled (Checkpoint.b18 ∷ []) ds (Checkpoint.b18 ∷ []) h (refl, refl, λ b. refl)
checkpoints-IsSortOf (Checkpoint.b30 ∷ []) ds h =
    settled (Checkpoint.b30 ∷ []) ds (Checkpoint.b30 ∷ []) h (refl, refl, λ b. refl)
checkpoints-IsSortOf (Checkpoint.b18 ∷ Checkpoint.b18 ∷ cs) ds h = absurd (ground (arith, h))
checkpoints-IsSortOf (Checkpoint.b30 ∷ Checkpoint.b30 ∷ cs) ds h = absurd (ground (arith, h))
checkpoints-IsSortOf (Checkpoint.b18 ∷ Checkpoint.b30 ∷ []) ds h =
    settled (Checkpoint.b18 ∷ Checkpoint.b30 ∷ []) ds (Checkpoint.b18 ∷ Checkpoint.b30 ∷ []) h
      (refl, refl, λ b. refl)
checkpoints-IsSortOf (Checkpoint.b30 ∷ Checkpoint.b18 ∷ []) ds h =
    settled (Checkpoint.b30 ∷ Checkpoint.b18 ∷ []) ds (Checkpoint.b18 ∷ Checkpoint.b30 ∷ []) h
      (refl, refl, swapped)
checkpoints-IsSortOf (Checkpoint.b30 ∷ Checkpoint.b18 ∷ Checkpoint.b18 ∷ cs) ds h =
    absurd (ground (arith, h))
checkpoints-IsSortOf (Checkpoint.b30 ∷ Checkpoint.b18 ∷ Checkpoint.b30 ∷ cs) ds h =
    absurd (ground (arith, h))
checkpoints-IsSortOf (Checkpoint.b18 ∷ Checkpoint.b30 ∷ Checkpoint.b18 ∷ cs) ds h =
    absurd (ground (arith, h))
checkpoints-IsSortOf (Checkpoint.b18 ∷ Checkpoint.b30 ∷ Checkpoint.b30 ∷ cs) ds h =
    absurd (ground (arith, h))

-- A request to create snapshots that is accepted is the one that was sent but for the order of its checkpoints:
-- they are as many and the same as were sent, one or two, and each is deeper than the one before it, so that
-- none is there twice. The time to live is a second at least and a day at most.
pub parse_create-IsSortOf :
    (r s : SnapshotCreateRequest)
    → parse_create r ≡ some s
    → IsSortOf r.checkpoints s.checkpoints
      × (s ≡ record r { checkpoints = s.checkpoints })
      × (1 ≤ length s.checkpoints)
      × (length s.checkpoints ≤ 2)
      × (1 ≤ s.ttl_seconds)
      × (s.ttl_seconds ≤ 86400)
unfolding parse_create
parse_create-IsSortOf r s h =
    go (input_ok r.input) (has_length 1 2 r.checkpoints) (is_between 1 86400 r.ttl_seconds) refl
      refl (checkpoints r.checkpoints) refl h
  where
    go :
        (a b c : Bool)
        → has_length 1 2 r.checkpoints ≡ b
        → is_between 1 86400 r.ttl_seconds ≡ c
        → (o : Option (List Checkpoint)) → checkpoints r.checkpoints ≡ o
        → (if a && (b && c)
            then elim o as (λ _. Option SnapshotCreateRequest) [
              | none ↦ none
              | some cs ↦ some (record r { checkpoints = cs })
            ]
            else none)
          ≡ some s
        → IsSortOf r.checkpoints s.checkpoints
          × (s ≡ record r { checkpoints = s.checkpoints })
          × (1 ≤ length s.checkpoints)
          × (length s.checkpoints ≤ 2)
          × (1 ≤ s.ttl_seconds)
          × (s.ttl_seconds ≤ 86400)
    go true true true p q (some cs) e k =
        let same : record r { checkpoints = cs } ≡ s = ground (arith, k) in
        let sort = checkpoints-IsSortOf r.checkpoints cs e in
        let ls = both (leb 1 (length r.checkpoints)) (leb (length r.checkpoints) 2) p in
        let ts = both (leb 1 r.ttl_seconds) (leb r.ttl_seconds 86400) q in
        subst
          (λ x.
            IsSortOf r.checkpoints x.checkpoints
            × (x ≡ record r { checkpoints = x.checkpoints })
            × (1 ≤ length x.checkpoints)
            × (length x.checkpoints ≤ 2)
            × (1 ≤ x.ttl_seconds)
            × (x.ttl_seconds ≤ 86400))
          same
          (
            sort,
            refl,
            omega (arith, sort.0, leb→le 1 (length r.checkpoints) ls.0),
            omega (arith, sort.0, leb→le (length r.checkpoints) 2 ls.1),
            leb→le 1 r.ttl_seconds ts.0,
            leb→le r.ttl_seconds 86400 ts.1,
          )
    go true true true p q none e k = absurd (ground (arith, k))
    go true true false p q o e k = absurd (ground (arith, k))
    go true false c p q o e k = absurd (ground (arith, k))
    go false b c p q o e k = absurd (ground (arith, k))

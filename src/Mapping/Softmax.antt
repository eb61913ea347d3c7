-- ===== src/Mapping/Softmax.antt =====
-- `stable_softmax`: when it returns, and what.
use riderless.Prelude.{
  ◌≤◌, ◌≡◌, refl, sym, subst, ℕ, zero, suc, some, get_elem?, Bool, true, false, not, ◌&&◌, List, [],
  ◌∷◌, map, length, any, all, All, ltb, arith,
}
use riderless.Mapping.Arithmetic.{Floats}
use riderless.Mapping.{
  Mapped, MappingError, ok, ◌>>◌, check, max_of, out_of_unit, weights, normalize, stable_softmax,
}

pub check-ok :
    {A : Type 0} (test : Bool) (e : MappingError) (m : Mapped A) (a : A)
    → (check test e >> m) ≡ ok a
    → (test ≡ true) × (m ≡ ok a)
check-ok true e m a h = (refl, h)
check-ok false e m a h = absurd (ground (arith, h))

length-map : {A B : Type 0} (f : A → B) (xs : List A) → length (map f xs) ≡ length xs
length-map f [] = refl
length-map f (x ∷ xs) = omega (arith, length-map f xs)

module _ (fl : Floats) where
  -- a number from 0 to 1
  abbrev pub InUnit : fl.Float → Type 0
  InUnit p =
      (fl.is_finite p ≡ true) × (fl.less p (fl.of_ℕ 0) ≡ false) × (fl.less (fl.of_ℕ 1) p ≡ false)

  All-InUnit : (ps : List fl.Float) → any (out_of_unit fl) ps ≡ false → All InUnit ps
  All-InUnit [] h = tt
  All-InUnit (p ∷ ps) h =
      ((ground (arith, h), ground (arith, h), ground (arith, h)), All-InUnit ps (ground (arith, h)))

  -- one number from 0 to 1 for each of at least two logits, and a sum close to 1
  abbrev pub IsDistribution : List fl.Float → List fl.Float → Type 0
  IsDistribution logits ps =
      (length ps ≡ length logits) × (2 ≤ length ps) × All InUnit ps × (fl.is_one (fl.sum ps) ≡ true)

  normalize-IsDistribution :
      (logits : List fl.Float) (maximum : fl.Float) (ps : List fl.Float)
      → 2 ≤ length logits
      → normalize fl logits maximum ≡ ok ps
      → IsDistribution logits ps
  unfolding normalize
  normalize-IsDistribution logits maximum ps n h =
      let total = fl.sum (weights fl logits maximum) in
      let qs = map (λ w. fl.div w total) (weights fl logits maximum) in
      let fine = not (any (out_of_unit fl) qs) && fl.is_one (fl.sum qs) in
      let a =
        check-ok (fl.is_finite total && not (fl.at_most total (fl.of_ℕ 0)))
          MappingError.not_normalizable (check fine MappingError.invalid_probabilities >> ok qs) ps
          h in
      let b = check-ok fine MappingError.invalid_probabilities (ok qs) ps a.1 in
      let same : qs ≡ ps = ground (arith, b.1) in
      let l : length qs ≡ length logits = ground (
        arith,
        length-map (λ w. fl.div w total) (weights fl logits maximum),
        length-map (λ item. fl.exp (fl.sub item maximum)) logits,
      ) in
      subst (IsDistribution logits) same
        (l, omega (arith, l, n), All-InUnit qs (ground (arith, b.0)), ground (arith, b.0))

  stable_softmax-IsDistribution :
      (logits ps : List fl.Float) → stable_softmax fl logits ≡ ok ps → IsDistribution logits ps
  unfolding stable_softmax
  stable_softmax-IsDistribution [] ps h = absurd (ground (arith, h))
  stable_softmax-IsDistribution (x ∷ xs) ps h =
      let a =
        check-ok (not (ltb (length (x ∷ xs)) 2) && all fl.is_finite (x ∷ xs))
          MappingError.logits_not_finite (normalize fl (x ∷ xs) (max_of fl x xs)) ps h in
      normalize-IsDistribution (x ∷ xs) (max_of fl x xs) ps (ground (arith, a.0)) a.1

  -- `q` is not less than `p`.
  abbrev pub AtMost : fl.Float → fl.Float → Type 0
  AtMost p q = fl.less q p ≡ false

  at-map :
      {A B : Type 0} (f : A → B) (xs : List A) (i : ℕ) (x : A)
      → get_elem? xs i ≡ some x
      → get_elem? (map f xs) i ≡ some (f x)
  at-map f [] i x h = absurd (ground (arith, h))
  at-map f (y ∷ xs) zero x h = ground (arith, h)
  at-map f (y ∷ xs) (suc i) x h = at-map f xs i x h

  -- the probability of a logit, by the maximum and the total
  normalized :
      (logits : List fl.Float) (maximum : fl.Float) (ps : List fl.Float)
      → normalize fl logits maximum ≡ ok ps
      → (total : fl.Float) × (fl.is_finite total ≡ true)
        × (fl.at_most total (fl.of_ℕ 0) ≡ false)
        × (ps ≡ map (λ w. fl.div w total) (map (λ x. fl.exp (fl.sub x maximum)) logits))
  unfolding normalize
  normalized logits maximum ps h =
      let total = fl.sum (weights fl logits maximum) in
      let qs = map (λ w. fl.div w total) (weights fl logits maximum) in
      let fine = not (any (out_of_unit fl) qs) && fl.is_one (fl.sum qs) in
      let a =
        check-ok (fl.is_finite total && not (fl.at_most total (fl.of_ℕ 0)))
          MappingError.not_normalizable (check fine MappingError.invalid_probabilities >> ok qs) ps
          h in
      let b = check-ok fine MappingError.invalid_probabilities (ok qs) ps a.1 in
      let same : qs ≡ ps = ground (arith, b.1) in
      (total, ground (arith, a.0), ground (arith, a.0), sym same)

  -- the maximum that `stable_softmax` subtracts, and what it returns of it
  softmax-normalize :
      (logits ps : List fl.Float)
      → stable_softmax fl logits ≡ ok ps
      → (maximum : fl.Float) × (normalize fl logits maximum ≡ ok ps)
  unfolding stable_softmax
  softmax-normalize [] ps h = absurd (ground (arith, h))
  softmax-normalize (x ∷ xs) ps h =
      let a =
        check-ok (not (ltb (length (x ∷ xs)) 2) && all fl.is_finite (x ∷ xs))
          MappingError.logits_not_finite (normalize fl (x ∷ xs) (max_of fl x xs)) ps h in
      (max_of fl x xs, a.1)

  module _ (sub_monotone : (x y m : fl.Float) → AtMost x y → AtMost (fl.sub x m) (fl.sub y m))
      (exp_monotone : (x y : fl.Float) → AtMost x y → AtMost (fl.exp x) (fl.exp y))
      (div_monotone : (x y t : fl.Float)
        → fl.at_most t (fl.of_ℕ 0) ≡ false
        → AtMost x y
        → AtMost (fl.div x t) (fl.div y t)) where
    -- Subtraction of a number, `exp` and division by a positive number are taken not to reverse an order.
    -- Where `stable_softmax` returns, there is one probability for each of at least two logits, each from 0 to
    -- 1, with a sum close to 1, and they keep the order of the logits: of two logits, the one that is not less
    -- has the probability that is not less.
    pub stable_softmax-IsOrdered :
        (logits ps : List fl.Float) (i j : ℕ) (x y p q : fl.Float)
        → stable_softmax fl logits ≡ ok ps
        → get_elem? logits i ≡ some x
        → get_elem? logits j ≡ some y
        → get_elem? ps i ≡ some p
        → get_elem? ps j ≡ some q
        → AtMost x y
        → IsDistribution logits ps × AtMost p q
    stable_softmax-IsOrdered logits ps i j x y p q h at_x at_y at_p at_q le =
        let (maximum, n) = softmax-normalize logits ps h in
        let (total, finite, positive, same) = normalized logits maximum ps n in
        let weight : fl.Float → fl.Float = λ z. fl.exp (fl.sub z maximum) in
        let share : fl.Float → fl.Float = λ w. fl.div w total in
        let first = at-map share (map weight logits) i (weight x) (at-map weight logits i x at_x) in
        let second =
          at-map share (map weight logits) j (weight y) (at-map weight logits j y at_y) in
        let p_is : share (weight x) ≡ p = ground (arith, first, at_p, same) in
        let q_is : share (weight y) ≡ q = ground (arith, second, at_q, same) in
        let ordered =
          div_monotone (weight x) (weight y) total positive
            (exp_monotone (fl.sub x maximum) (fl.sub y maximum) (sub_monotone x y maximum le)) in
        (
          stable_softmax-IsDistribution logits ps h,
          subst (λ z. AtMost z q) p_is (subst (λ z. AtMost (share (weight x)) z) q_is ordered),
        )

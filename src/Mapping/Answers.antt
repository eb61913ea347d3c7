-- ===== src/Mapping/Answers.antt =====
-- The answer of one question: the option of the greatest probability.
use riderless.Prelude.{
  ℕ, suc, ◌+◌, String, ◌≡◌, refl, subst, Bool, true, false, Option, none, some, List, [], ◌∷◌,
  length, get_elem?, All, ltb, eqb, take, not, ◌&&◌, arith, ◌==◌, if◌then◌else◌, Bool-cases, inl,
  inr,
}
use riderless.Mapping.Arithmetic.{Floats}
use riderless.Json.{Json}
use riderless.Compiler.{Profile, CompiledQuestion}
use riderless.Mapping.{
  Mapped, MappingError, ok, err, ◌>>=◌, ◌>>◌, check, Answer, Entries, max_of, argmax, answer_of,
  zip_dict, WorkerQuestionResult, expectation, map_question, same_tokens, stable_softmax,
}

module _ (fl : Floats) where
  -- The first greatest item stands at the index of the greatest.
  argmax-max_of :
      (all : List fl.Float) (i : ℕ) (best : fl.Float) (n : ℕ) (xs : List fl.Float)
      → get_elem? all i ≡ some best
      → ((k : ℕ) → get_elem? all (n + k) ≡ get_elem? xs k)
      → get_elem? all (argmax fl i best n xs) ≡ some (max_of fl best xs)
  unfolding argmax max_of
  argmax-max_of all i best n [] h e = h
  argmax-max_of all i best n (x ∷ xs) h e =
      argmax-max_of all (if fl.less best x then n else i) (if fl.less best x then x else best)
        (suc n) xs (chosen (fl.less best x))
        (λ k. subst (λ m. get_elem? all m ≡ get_elem? xs k) (omega arith) (e (suc k)))
    where
      chosen : (b : Bool) → get_elem? all (if b then n else i) ≡ some (if b then x else best)
      chosen true = subst (λ m. get_elem? all m ≡ some x) (omega arith) (e 0)
      chosen false = h

  -- `o` is an option of the greatest probability, under the same index, and `m` that probability.
  abbrev pub IsBest : List String → List fl.Float → String → fl.Float → Type 0
  IsBest options ps o m =
      ((i : ℕ) × (get_elem? options i ≡ some o) × (get_elem? ps i ≡ some m))
      × All (λ q. fl.less m q ≡ false) ps

  next : (p : fl.Float) (ps : List fl.Float) (k : ℕ) → get_elem? (p ∷ ps) (1 + k) ≡ get_elem? ps k
  next p ps k =
      let e : suc k ≡ 1 + k = omega arith in
      subst (λ m. get_elem? (p ∷ ps) m ≡ get_elem? ps k) e refl

  module _ (irreflexive : (x : fl.Float) → fl.less x x ≡ false)
      (transitive : (x y z : fl.Float)
        → fl.less x y ≡ true
        → fl.less y z ≡ true
        → fl.less x z ≡ true) where
    -- What is not above the first candidate is not above the greatest.
    above_best :
        (y best : fl.Float) (xs : List fl.Float)
        → fl.less best y ≡ false
        → fl.less (max_of fl best xs) y ≡ false
    unfolding max_of
    above_best y best [] h = h
    above_best y best (x ∷ xs) h =
        above_best y (if fl.less best x then x else best) xs (step (fl.less best x) refl)
      where
        step : (b : Bool) → fl.less best x ≡ b → fl.less (if b then x else best) y ≡ false
        step false e = h
        step true e = elim (Bool-cases (fl.less x y)) [
          | inl t ↦ absurd (ground (arith, transitive best x y e t, h))
          | inr f ↦ f
        ]

    above-All :
        (best : fl.Float) (xs : List fl.Float) → All (λ y. fl.less (max_of fl best xs) y ≡ false) xs
    unfolding max_of
    above-All best [] = tt
    above-All best (x ∷ xs) = (
      above_best x (if fl.less best x then x else best) xs (step (fl.less best x) refl),
      above-All (if fl.less best x then x else best) xs,
    )
      where
        step : (b : Bool) → fl.less best x ≡ b → fl.less (if b then x else best) x ≡ false
        step false e = e
        step true e = irreflexive x

    answer_of-choice :
        (c : CompiledQuestion) (ps : List fl.Float) (o : String) (d : Entries fl.Float)
        (m : fl.Float)
        → answer_of fl c ps ≡ ok (Answer.choice_answer o d m)
        → IsBest c.option_ids ps o m
    unfolding answer_of
    answer_of-choice c [] o d m h = absurd (ground (arith, h))
    answer_of-choice c (p ∷ ps) o d m h =
        let best = max_of fl p ps in
        let found =
          go (zip_dict c.option_ids (p ∷ ps)) (c.kind == "choice") (c.kind == "score") c.legend
            (get_elem? c.option_ids (argmax fl 0 p 1 ps)) refl h in
        let same : best ≡ m = found.1 in
        subst (IsBest c.option_ids (p ∷ ps) o) same (
          (argmax fl 0 p 1 ps, found.0, argmax-max_of (p ∷ ps) 0 p 1 ps refl (next p ps)),
          (above_best p p ps (irreflexive p), above-All p ps),
        )
      where
        go :
            (z : Mapped (Entries fl.Float)) (b k : Bool) (l : Option (Entries Json))
            (found : Option String)
            → get_elem? c.option_ids (argmax fl 0 p 1 ps) ≡ found
            → (let typed : Mapped (Answer fl) = (do
              mapped ← z
              if b
                  then (do
                    option ← elim found [ none ↦ err MappingError.index_error | some x ↦ ok x ]
                    ok (Answer.choice_answer option mapped (max_of fl p ps)))
                  else if k
                  then elim l [
                    | none ↦ err MappingError.missing_legend
                    | some legend ↦ ok (
                        Answer.score_answer
                          (expectation fl (p ∷ ps))
                          legend
                          mapped
                          (max_of fl p ps))
                  ]
                  else ok (Answer.noul_answer p)) in
                typed ≡ ok (Answer.choice_answer o d m))
            → (get_elem? c.option_ids (argmax fl 0 p 1 ps) ≡ some o) × (max_of fl p ps ≡ m)
        go (ok z) true k l (some x) e h = ground (arith, e, h)
        go (ok z) true k l none e h = absurd (ground (arith, h))
        go (ok z) false true none f e h = absurd (ground (arith, h))
        go (ok z) false true (some l) f e h = absurd (ground (arith, h))
        go (ok z) false false l f e h = absurd (ground (arith, h))
        go (err x) b k l f e h = absurd (ground (arith, h))

    -- Where an accepted question is answered with a choice, the choice is an option of the greatest
    -- probability that `stable_softmax` returns, and the confidence is that probability.
    pub map_question-IsBest :
        (profile : Profile) (is_first : Bool) (c : CompiledQuestion) (raw : WorkerQuestionResult fl)
        (o : String) (d : Entries fl.Float) (m : fl.Float)
        → map_question fl profile is_first c raw ≡ ok (Answer.choice_answer o d m)
        → (ps : List fl.Float) × (stable_softmax fl raw.label_logits ≡ ok ps)
          × IsBest c.option_ids ps o m
    unfolding map_question
    map_question-IsBest profile is_first c raw o d m h =
        go (raw.id == c.id)
          (same_tokens raw.label_token_ids (take (length c.labels) profile.label_token_ids))
          (eqb (length raw.label_logits) (length c.option_ids))
          (not (is_first && ltb 0 raw.reused_tokens)) (stable_softmax fl raw.label_logits) refl h
      where
        go :
            (w x y z : Bool) (s : Mapped (List fl.Float))
            → stable_softmax fl raw.label_logits ≡ s
            → (do
              check w MappingError.question_id
              check x MappingError.label_tokens
              check y MappingError.label_count
              check z MappingError.reused_context
              probabilities ← s
              answer_of fl c probabilities)
              ≡ ok (Answer.choice_answer o d m)
            → (ps : List fl.Float) × (stable_softmax fl raw.label_logits ≡ ok ps)
              × IsBest c.option_ids ps o m
        go false x y z s e h = absurd (ground (arith, h))
        go true false y z s e h = absurd (ground (arith, h))
        go true true false z s e h = absurd (ground (arith, h))
        go true true true false s e h = absurd (ground (arith, h))
        go true true true true (err e) f h = absurd (ground (arith, h))
        go true true true true (ok ps) e h = (ps, e, answer_of-choice c ps o d m h)

-- ===== src/Compiler/Prompts.antt =====
-- What a compiled decision request looks like: its shared prefix, its labels, that a question never
-- sees its siblings, and which requests are accepted.
use Prim.Native.String.{len, slice}
use riderless.Prelude.{
  ℕ, zero, suc, ◌≤◌, String, ◌≡◌, refl, sym, ◌∙◌, Bool, true, false, ◌&&◌, List, [], ◌∷◌, ◌++◌,
  take, length, all, leb, arith,
}
use text.Mathlib.TextLemmas.{append_assoc}
use text.Mathlib.TextPositions.{slice-append_left}
use riderless.Json.{Json}
use riderless.Compiler.Text.{◌^^◌, join, join-append}
use riderless.Compiler.{
  Question, Profile, CompiledQuestion, Compiled, ok, err, ◌>>=◌, options, shared_lines,
  question_lines, compile_question, compile_all,
}

length-take : {A : Type 0} (n : ℕ) (xs : List A) → n ≤ length xs → length (take n xs) ≡ n
length-take zero xs h = refl
length-take (suc n) [] h = absurd (omega arith)
length-take (suc n) (x ∷ xs) h = omega (arith, length-take n xs)

abbrev pub is_ok : {A : Type 0} → Compiled A → Bool
is_ok (ok a) = true
is_ok (err e) = false

module _ (repr : ℕ → String) where
  -- the text that every question of a request starts with
  abbrev pub shared_text : Json → String
  shared_text state = join (shared_lines repr state) ^^ "\n"

  -- A prompt is the shared text and then the question's own lines.
  pub join-shared :
      (state : Json) (q : Question) (labels : List String)
      → join (shared_lines repr state ++ question_lines repr q labels)
        ≡ shared_text state ^^ join (question_lines repr q labels)
  unfolding shared_lines question_lines
  join-shared state q labels =
      join-append _ _ _ _ ∙ sym (append_assoc (join (shared_lines repr state)) "\n" _)

  module _ (id : String) (q : Question) (state : Json) (profile : Profile) where
    -- A compiled question has one user message, which starts with the shared text of its state; the
    -- reported number of shared bytes is the length of that text, and cuts it off.
    pub compile_question-shared :
        (c : CompiledQuestion)
        → compile_question repr id q state profile true ≡ ok c
        → (tail : String) × (c.messages
            ≡ record { role = "user"; content = shared_text state ^^ tail } ∷ [])
          × (c.shared_prefix_bytes ≡ len (shared_text state))
          × (slice (shared_text state ^^ tail) 0 c.shared_prefix_bytes ≡ shared_text state)
    unfolding compile_question
    compile_question-shared c h = (
      join (question_lines repr q (take (length (options q).ids) profile.labels)),
      ground (arith, h, join-shared state q (take (length (options q).ids) profile.labels)),
      ground (arith, h),
      ground (
        arith,
        h,
        slice-append_left (shared_text state)
            (join (question_lines repr q (take (length (options q).ids) profile.labels))),
      ),
    )

    -- There is one label for each option, in the profile's order.
    pub compile_question-labels :
        (share : Bool) (c : CompiledQuestion)
        → compile_question repr id q state profile share ≡ ok c
        → (c.id ≡ id)
          × (c.option_ids ≡ (options q).ids)
          × (c.labels ≡ take (length c.option_ids) profile.labels)
          × (length c.labels ≡ length c.option_ids)
    unfolding compile_question
    compile_question-labels share c h = (
      ground (arith, h),
      ground (arith, h),
      ground (arith, h),
      ground (arith, h, length-take (length (options q).ids) profile.labels),
    )

  abbrev pub has_labels : Profile → String × Question → Bool
  has_labels profile (id, q) = leb (length (options q).ids) (length profile.labels)

  compile_question-is_ok :
      (id : String) (q : Question) (state : Json) (profile : Profile) (share : Bool)
      → is_ok (compile_question repr id q state profile share) ≡ has_labels profile (id, q)
  unfolding compile_question
  compile_question-is_ok id q state profile share = ground arith

  pub compile_all-is_ok :
      (qs : List (String × Question)) (state : Json) (profile : Profile) (share : Bool)
      → is_ok (compile_all repr qs state profile share) ≡ all (has_labels profile) qs
  unfolding compile_all
  compile_all-is_ok [] state profile share = refl
  compile_all-is_ok ((id, q) ∷ qs) state profile share =
      go (compile_question repr id q state profile share) (compile_all repr qs state profile share)
        (compile_question-is_ok id q state profile share) (compile_all-is_ok qs state profile share)
    where
      go :
          (m : Compiled CompiledQuestion) (n : Compiled (List CompiledQuestion))
          → is_ok m ≡ has_labels profile (id, q)
          → is_ok n ≡ all (has_labels profile) qs
          → is_ok (do c ← m; cs ← n; ok (c ∷ cs))
            ≡ (has_labels profile (id, q) && all (has_labels profile) qs)
      go (ok c) (ok cs) e f = ground (arith, e, f)
      go (ok c) (err x) e f = ground (arith, e, f)
      go (err x) n e f = ground (arith, e)

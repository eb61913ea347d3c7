-- ===== src/Compiler/Requests.antt =====
-- Which decision requests are accepted.
use riderless.Prelude.{ℕ, String, ◌≡◌, refl, Bool, ◌&&◌, List, length, all, leb, arith, ◌==◌}
use riderless.Compiler.{
  Profile, DecisionRequest, CompiledQuestion, CompiledBatch, Compiled, ok, err, ◌>>=◌, compile_all,
  compile_request,
}
use riderless.Compiler.Prompts.{is_ok, has_labels, compile_all-is_ok}

module _ (repr : ℕ → String) where
  is_ok-bind :
      (m : Compiled (List CompiledQuestion)) (f : List CompiledQuestion → CompiledBatch)
      → is_ok (m >>= λ qs. ok (f qs)) ≡ is_ok m
  is_ok-bind (ok a) f = refl
  is_ok-bind (err e) f = refl

  -- A request is accepted exactly where it names the model, has at most as many questions as the
  -- backend takes, and no question has more options than the profile has labels.
  pub compile_request-is_ok :
      (request : DecisionRequest) (profile : Profile) (share : Bool)
      → is_ok (compile_request repr request profile share) ≡ (
          request.model == profile.model_id
          && (leb (length request.questions) profile.max_questions
              && all (has_labels repr profile) request.questions))
  unfolding compile_request
  compile_request-is_ok request profile share = ground (
    arith,
    is_ok-bind (compile_all repr request.questions request.state profile share)
        (λ qs. record { model_id = profile.model_id; questions = qs }),
    compile_all-is_ok repr request.questions request.state profile share,
  )

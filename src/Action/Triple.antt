-- ===== src/Action/Triple.antt =====
-- Pre- and postconditions of actions, with one rule for each way to build an action. `fail` is
-- what holds of the state where the action raises.
use riderless.Prelude.{◌≡◌, refl, Bool, true, false, if◌then◌else◌}
use riderless.Action.{
  Outcome, ok, err, Action, pure, raise, lift, continue, ◌>>=◌, ◌>>◌, reraise, settle, on_error,
  finish, finally,
}

abbrev pub Meets {ℓ} :
    {E S A : Type ℓ} → (A → S → Type ℓ) → (E → S → Type ℓ) → Outcome E A × S → Type ℓ
Meets post fail (ok a, s) = post a s
Meets post fail (err e, s) = fail e s

pub record Triple {ℓ} {E S A : Type ℓ} (pre : S → Type ℓ) (m : Action E S A) (post : A → S → Type ℓ)
    (fail : E → S → Type ℓ) : Type ℓ where
  pub holds : (s : S) → pre s → Meets post fail (m s)

module _ {ℓ} {E S A B : Type ℓ} {pre : S → Type ℓ} {fail : E → S → Type ℓ} where
  pub Triple-bind :
      {post : B → S → Type ℓ} (mid : A → S → Type ℓ) (m : Action E S A) (f : A → Action E S B)
      → Triple pre m mid fail
      → ((a : A) → Triple (mid a) (f a) post fail)
      → Triple pre (m >>= f) post fail
  Triple-bind {post} mid m f tm tf = record { holds = λ s h. go (m s) (tm.holds s h) }
    where
      go : (r : Outcome E A × S) → Meets mid fail r → Meets post fail (continue f r)
      go (ok a, s) h = (tf a).holds s h
      go (err e, s) h = h

  pub Triple-then :
      {post : B → S → Type ℓ} (mid : A → S → Type ℓ) (m : Action E S A) (n : Action E S B)
      → Triple pre m mid fail
      → ((a : A) → Triple (mid a) n post fail)
      → Triple pre (m >> n) post fail
  Triple-then mid m n = Triple-bind mid m (λ _. n)

module _ {ℓ} {E S A : Type ℓ} where
  -- A stronger precondition, a weaker postcondition and a weaker failure condition.
  pub Triple-weaken :
      {pre pre' : S → Type ℓ} {post post' : A → S → Type ℓ} {fail fail' : E → S → Type ℓ}
      (m : Action E S A)
      → ((s : S) → pre' s → pre s)
      → ((a : A) (s : S) → post a s → post' a s)
      → ((e : E) (s : S) → fail e s → fail' e s)
      → Triple pre m post fail
      → Triple pre' m post' fail'
  Triple-weaken {post} {post'} {fail} {fail'} m p q f t = record {
    holds = λ s h. go (m s) (t.holds s (p s h));
  }
    where
      go : (r : Outcome E A × S) → Meets post fail r → Meets post' fail' r
      go (ok a, s) h = q a s h
      go (err e, s) h = f e s h

module _ {ℓ} {E S A B : Type ℓ} {pre : S → Type ℓ} {post : A → S → Type ℓ} where
  -- The cleanup runs where `m` raised, and may itself raise.
  pub Triple-on_error :
      {fail : E → S → Type ℓ} (mid : E → S → Type ℓ) (m : Action E S A) (cleanup : Action E S B)
      → Triple pre m post mid
      → ((e : E) → Triple (mid e) cleanup (λ _. fail e) fail)
      → Triple pre (on_error m cleanup) post fail
  Triple-on_error {fail} mid m cleanup tm tc = record { holds = λ s h. go (m s) (tm.holds s h) }
    where
      after :
          (e : E) (r : Outcome E B × S) → Meets (λ _. fail e) fail r → Meets post fail (reraise e r)
      after e (ok b, s) h = h
      after e (err e', s) h = h

      go : (r : Outcome E A × S) → Meets post mid r → Meets post fail (settle cleanup r)
      go (ok a, s) h = h
      go (err e, s) h = after e (cleanup s) ((tc e).holds s h)

module _ {ℓ} {E S A B : Type ℓ} {pre : S → Type ℓ} where
  -- The cleanup runs on both ways out.
  pub Triple-finally :
      {post : A → S → Type ℓ} {fail : E → S → Type ℓ} (mid : A → S → Type ℓ)
      (broken : E → S → Type ℓ) (m : Action E S A) (cleanup : Action E S B)
      → Triple pre m mid broken
      → ((a : A) → Triple (mid a) cleanup (λ _. post a) fail)
      → ((e : E) → Triple (broken e) cleanup (λ _. fail e) fail)
      → Triple pre (finally m cleanup) post fail
  Triple-finally {post} {fail} mid broken m cleanup tm ta te = record {
    holds = λ s h. go (m s) (tm.holds s h);
  }
    where
      after_ok :
          (a : A) (r : Outcome E B × S)
          → Meets (λ _. post a) fail r
          → Meets post fail (finish (ok a) r)
      after_ok a (ok b, s) h = h
      after_ok a (err e, s) h = h

      after_err :
          (e : E) (r : Outcome E B × S)
          → Meets (λ _. fail e) fail r
          → Meets post fail (finish (err e) r)
      after_err e (ok b, s) h = h
      after_err e (err e', s) h = h

      go :
          (r : Outcome E A × S)
          → Meets mid broken r
          → Meets post fail (let (o, s') = r in finish o (cleanup s'))
      go (ok a, s) h = after_ok a (cleanup s) ((ta a).holds s h)
      go (err e, s) h = after_err e (cleanup s) ((te e).holds s h)

module _ {ℓ} {E S A : Type ℓ} {pre : S → Type ℓ} {post : A → S → Type ℓ}
    {fail : E → S → Type ℓ} where
  pub Triple-pure : (a : A) → ((s : S) → pre s → post a s) → Triple pre (pure a) post fail
  Triple-pure a h = record { holds = h }

  pub Triple-raise : (e : E) → ((s : S) → pre s → fail e s) → Triple pre (raise e) post fail
  Triple-raise e h = record { holds = h }

  pub Triple-lift :
      (r : Outcome E A) → ((s : S) → pre s → Meets post fail (r, s)) → Triple pre (lift r) post fail
  Triple-lift r h = record { holds = h }

  pub Triple-if :
      (b : Bool) (m n : Action E S A)
      → (b ≡ true → Triple pre m post fail)
      → (b ≡ false → Triple pre n post fail)
      → Triple pre (if b then m else n) post fail
  Triple-if true m n h k = h refl
  Triple-if false m n h k = k refl

  -- Two facts about one action hold together.
  pub Triple-with :
      {pre' : S → Type ℓ} {post' : A → S → Type ℓ} {fail' : E → S → Type ℓ} (m : Action E S A)
      → Triple pre m post fail
      → Triple pre' m post' fail'
      → Triple (λ s. pre s × pre' s) m (λ a s. post a s × post' a s) (λ e s. fail e s × fail' e s)
  Triple-with {post'} {fail'} m t t' = record {
    holds = λ s h. go (m s) (t.holds s h.0) (t'.holds s h.1);
  }
    where
      go :
          (r : Outcome E A × S)
          → Meets post fail r
          → Meets post' fail' r
          → Meets (λ a s. post a s × post' a s) (λ e s. fail e s × fail' e s) r
      go (ok a, s) h k = (h, k)
      go (err e, s) h k = (h, k)

-- ===== src/Action.antt =====
-- Python code that mutates objects and may raise. An action takes the state and returns what it
-- returned or raised, with the state that it left: writes made before a `raise` stay made.
pub mod Triple

pub data Outcome {ℓ} (E A : Type ℓ) : Type ℓ where
  ok : A → Outcome E A
  err : E → Outcome E A

abbrev pub Action {ℓ} : Type ℓ → Type ℓ → Type ℓ → Type ℓ
Action E S A = S → Outcome E A × S

module _ {ℓ} {E S A : Type ℓ} where
  abbrev pub pure : A → Action E S A
  pure a s = (ok a, s)

  abbrev pub raise : E → Action E S A
  raise e s = (err e, s)

  abbrev pub lift : Outcome E A → Action E S A
  lift r s = (r, s)

  -- a read of the state
  abbrev pub gets : (S → A) → Action E S A
  gets f s = (ok (f s), s)

abbrev pub modifies {ℓ} : {E S : Type ℓ} → (S → S) → Action E S (Unit {ℓ})
modifies f s = (ok tt, f s)

module _ {ℓ} {E S A B : Type ℓ} where
  abbrev pub continue : (A → Action E S B) → Outcome E A × S → Outcome E B × S
  continue f (ok a, s) = f a s
  continue f (err e, s) = (err e, s)

  infixl 5 ◌>>=◌ ◌>>◌
  abbrev pub ◌>>=◌ : Action E S A → (A → Action E S B) → Action E S B
  ◌>>=◌ m f s = continue f (m s)

  abbrev pub ◌>>◌ : Action E S A → Action E S B → Action E S B
  ◌>>◌ m n s = continue (λ _. n) (m s)

module _ {ℓ} {E S A B : Type ℓ} where
  abbrev pub reraise : E → Outcome E B × S → Outcome E A × S
  reraise e (ok b, s) = (err e, s)
  reraise e (err e', s) = (err e', s)

  abbrev pub settle : Action E S B → Outcome E A × S → Outcome E A × S
  settle cleanup (ok a, s) = (ok a, s)
  settle cleanup (err e, s) = reraise e (cleanup s)

  -- `try: m; except BaseException: cleanup; raise`
  abbrev pub on_error : Action E S A → Action E S B → Action E S A
  on_error m cleanup s = settle cleanup (m s)

module _ {ℓ} {E S A B : Type ℓ} where
  abbrev pub finish : Outcome E A → Outcome E B × S → Outcome E A × S
  finish r (ok b, s) = (r, s)
  finish r (err e, s) = (err e, s)

  -- `try: m; finally: cleanup`
  abbrev pub finally : Action E S A → Action E S B → Action E S A
  finally m cleanup s = let (r, s') = m s in finish r (cleanup s')

-- ===== src/Snapshots/Store/Env/Rules.antt =====
-- Rules for the actions that look at the store or leave it alone. A condition is one on the store.
use riderless.Prelude.{ℕ, ◌≡◌, refl}
use riderless.Action.{Outcome, ok, err, ◌>>=◌, ◌>>◌}
use riderless.Action.Triple.{Meets, Triple, Triple-bind, Triple-weaken}
use riderless.Snapshots.Errors.{Error}
use riderless.Snapshots.Store.Types.{Store}
use riderless.Snapshots.Store.Env.{
  Env, Sys, Do, call, ask, reads, writes, suppress_not_found, missing_ok,
}

module _ {env : Env} where
  abbrev pub On : (Store → Type 0) → Sys env → Type 0
  On P s = P s.store

  abbrev pub On2 : {A : Type 0} → (A → Store → Type 0) → A → Sys env → Type 0
  On2 P a s = P a s.store

  abbrev pub Keeps : {A : Type 0} → (Store → Type 0) → Do env A → Type 0
  Keeps P m = Triple (On P) m (λ _. On P) (λ _. On P)

  -- A call of something outside changes nothing in the store.
  pub Keeps-call :
      {A : Type 0} (P : Store → Type 0) (f : env.World → Outcome Error A × env.World)
      → Keeps P (call f)
  Keeps-call {A} P f = record { holds = λ s h. go s (f s.world) h }
    where
      go :
          (s : Sys env) (r : Outcome Error A × env.World)
          → P s.store
          → Meets (λ _. On P) (λ _. On P) (let (o, w) = r in (o, record s { world = w }))
      go s (ok a, w) h = h
      go s (err e, w) h = h

  pub Keeps-ask :
      {A : Type 0} (P : Store → Type 0) (f : env.World → A × env.World) → Keeps P (ask f)
  Keeps-ask P f = record { holds = λ s h. h }

  pub Keeps-suppress :
      (P : Store → Type 0) (m : Do env ℕ) → Keeps P m → Keeps P (suppress_not_found m)
  Keeps-suppress P m t = record { holds = λ s h. go (m s) (t.holds s h) }
    where
      go :
          (r : Outcome Error ℕ × Sys env)
          → Meets (λ _. On P) (λ _. On P) r
          → Meets (λ _. On P) (λ _. On P) (missing_ok r)
      go (err Error.not_found, s) h = h
      go (err e, s) h = h
      go (ok n, s) h = h

  module _ {B : Type 0} {post : B → Sys env → Type 0} {fail : Error → Sys env → Type 0} where
    -- What was read is known to be what the store held.
    pub Triple-reads :
        {A : Type 0} (P : Store → Type 0) (f : Store → A) (g : A → Do env B)
        → ((a : A) → Triple (On (λ s. P s × (f s ≡ a))) (g a) post fail)
        → Triple (On P) (reads f >>= g) post fail
    Triple-reads P f g t = record { holds = λ s h. (t (f s.store)).holds s (h, refl) }

  pub Triple-writes :
      {fail : Error → Sys env → Type 0} (P Q : Store → Type 0) (f : Store → Store)
      → ((s : Store) → P s → Q (f s))
      → Triple (On P) (writes f) (λ _. On Q) fail
  Triple-writes P Q f h = record { holds = λ s p. h s.store p }

  module _ {A B : Type 0} {post : B → Sys env → Type 0} (Q F : Store → Type 0) where
    -- A step that keeps `Q` stands in front of what needs `Q`. A failure leaves `F`.
    pub Keeps-bind :
        (m : Do env A) (f : A → Do env B)
        → Keeps Q m
        → ((s : Store) → Q s → F s)
        → ((a : A) → Triple (On Q) (f a) post (λ _. On F))
        → Triple (On Q) (m >>= f) post (λ _. On F)
    Keeps-bind m f k w t =
        Triple-bind (λ _. On Q) m f
          (Triple-weaken m (λ s h. h) (λ a s h. h) (λ e s h. w s.store h) k) t

    pub Keeps-then :
        (m : Do env A) (n : Do env B)
        → Keeps Q m
        → ((s : Store) → Q s → F s)
        → Triple (On Q) n post (λ _. On F)
        → Triple (On Q) (m >> n) post (λ _. On F)
    Keeps-then m n k w t = Keeps-bind m (λ _. n) k w (λ _. t)

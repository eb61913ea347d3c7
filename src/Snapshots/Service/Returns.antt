-- ===== src/Snapshots/Service/Returns.antt =====
-- What the requests return, whatever state they start from: rules for the ways in which a request is built.
use riderless.Prelude.{
  ℕ, ◌≡◌, refl, ap, subst, Bool, true, false, not, Option, none, some, is_some, List, [], get_elem?,
  if◌then◌else◌, String,
}
use riderless.Action.{
  Outcome, ok, err, Action, pure, raise, lift, gets, modifies, on_error, finally, ◌>>=◌, ◌>>◌,
}
use riderless.Action.Triple.{
  Meets, Triple, Triple-bind, Triple-then, Triple-on_error, Triple-finally,
}
use riderless.Mapping.Arithmetic.{Floats}
use riderless.Snapshots.Errors.{Error}
use riderless.Snapshots.Store.Types.{Store}
use riderless.Snapshots.Store.Env.{Env, Sys, Do, writes}
use riderless.Snapshots.Store.Lease.{with_lease, collect, pin, unpin}
use riderless.Snapshots.Service
use riderless.Snapshots.Service.{
  Parts, Serve, is_ready, recover, rollback, release, call, prepared, serialized,
}
use riderless.Snapshots.Service.Office.{Backend, Settings, Office, parts, within, left, in_store}
use riderless.Snapshots.Service.Entries.{Any, Triple-Any}

module _ {S A : Type 0} where
  -- whatever `m` returns has the property
  abbrev pub Returns : (A → Type 0) → Action Error S A → Type 0
  Returns P m = Triple Any m (λ a _. P a) (λ _. Any)

  -- what an action returns is what it returned from some state
  pub Returns-self : (m : Action Error S A) → Returns (λ a. (s : S) × ((m s).0 ≡ ok a)) m
  Returns-self m = record { holds = λ s h. go s (m s) refl }
    where
      go :
          (s : S) (x : Outcome Error A × S)
          → m s ≡ x
          → Meets (λ a _. (u : S) × ((m u).0 ≡ ok a)) (λ _. Any) x
      go s (ok a, t) e = (s, ap (λ x. x.0) e)
      go s (err x, t) e = tt

  pub Returns-raise : {P : A → Type 0} (e : Error) → Returns P (raise e)
  Returns-raise e = record { holds = λ s h. tt }

  pub Returns-lift :
      {P : A → Type 0} (r : Outcome Error A) → ((a : A) → r ≡ ok a → P a) → Returns P (lift r)
  Returns-lift {P} r h = record { holds = λ s k. go s r refl }
    where
      go : (s : S) (x : Outcome Error A) → r ≡ x → Meets (λ a _. P a) (λ _. Any) (x, s)
      go s (ok a) e = h a e
      go s (err x) e = tt

  pub Returns-result :
      {P : A → Type 0} (m : Action Error S A) (s t : S) (a : A)
      → Returns P m
      → m s ≡ (ok a, t)
      → P a
  Returns-result {P} m s t a h e = subst (λ x. Meets (λ b _. P b) (λ _. Any) x) e (h.holds s tt)

module _ {S A B : Type 0} where
  pub Returns-bind :
      {P : B → Type 0} (Q : A → Type 0) (m : Action Error S A) (f : A → Action Error S B)
      → Returns Q m
      → ((a : A) → Q a → Returns P (f a))
      → Returns P (m >>= f)
  Returns-bind Q m f h k =
      Triple-bind (λ a _. Q a) m f h (λ a. record { holds = λ s q. (k a q).holds s tt })

  pub Returns-then :
      {P : B → Type 0} (m : Action Error S A) (n : Action Error S B)
      → Returns P n
      → Returns P (m >> n)
  Returns-then m n h = Triple-then (λ _. Any) m n (Triple-Any m) (λ a. h)

  pub Returns-finally :
      {P : A → Type 0} (m : Action Error S A) (cleanup : Action Error S B)
      → Returns P m
      → Returns P (finally m cleanup)
  Returns-finally {P} m cleanup h =
      Triple-finally (λ a _. P a) (λ _. Any) m cleanup h
        (λ a. record { holds = λ s p. go a p (cleanup s) }) (λ e. Triple-Any cleanup)
    where
      go : (a : A) (p : P a) (x : Outcome Error B × S) → Meets (λ _ _. P a) (λ _. Any) x
      go a p (ok b, t) = p
      go a p (err e, t) = tt

  pub Returns-on_error :
      {P : A → Type 0} (m : Action Error S A) (cleanup : Action Error S B)
      → Returns P m
      → Returns P (on_error m cleanup)
  Returns-on_error m cleanup h = Triple-on_error (λ _. Any) m cleanup h (λ e. Triple-Any cleanup)

module _ {env : Env} {A : Type 0} {P : A → Type 0} where
  pub Returns-with_lease :
      (ids : List String) (m : Do env A) → Returns P m → Returns P (with_lease env ids m)
  unfolding with_lease
  Returns-with_lease ids m h =
      Returns-bind (λ _. Unit {0}) (collect env ids []) _ (Triple-Any (collect env ids []))
        λ pinned _.
          Returns-then (writes (pin pinned)) _ (Returns-finally m (writes (unpin pinned)) h)

  pub Returns-in_store :
      (fl : Floats) (backend : Backend env fl) (settings : Settings) (ref : ℕ) (m : Do env A)
      → Returns P m
      → Returns P (in_store env fl backend settings ref m)
  unfolding within
  Returns-in_store fl backend settings ref m h = record {
    holds = λ s k. go s (get_elem? s.world.stores ref);
  }
    where
      inner :
          (s : Service.Service (parts env fl backend settings)) (x : Outcome Error A × Sys env)
          → Meets (λ a _. P a) (λ _. Any) x
          → Meets
              (λ a _. P a)
              (λ _. Any)
              (let (r, w) = left ref s.world.stores x in (r, record s { world = w }))
      inner s (ok a, t) h = h
      inner s (err e, t) h = tt

      go :
          (s : Service.Service (parts env fl backend settings)) (o : Option Store)
          → Meets
              (λ a _. P a)
              (λ _. Any)
              (let (r, w) : Outcome Error A × Office env = elim o [
                | none ↦ (err (Error.foreign "AttributeError"), s.world)
                | some store ↦
                    left ref s.world.stores (m (record { store = store; world = s.world.world }))
              ] in
                (r, record s { world = w }))
      go s none = tt
      go s (some store) =
          inner s (m (record { store = store; world = s.world.world }))
            (h.holds (record { store = store; world = s.world.world }) tt)

module _ (parts : Parts) {A : Type 0} {P : A → Type 0} where
  prepared-Returns :
      (hello : parts.Hello) (body : parts.Hello → parts.Store → Serve parts A)
      → ((store : parts.Store) → Returns P (body hello store))
      → Returns P (prepared parts hello body)
  unfolding prepared
  prepared-Returns hello body h =
      Returns-bind (λ _. Unit {0}) (gets (is_ready parts)) _ (Triple-Any (gets (is_ready parts)))
        λ alive _. Returns-then (if alive then pure tt else recover parts) _ (
          Returns-bind (λ _. Unit {0}) (gets (λ s. s.store)) _ (Triple-Any (gets (λ s. s.store)))
            λ store _. given store)
    where
      given :
          (o : Option parts.Store)
          → Returns P (elim o as (λ _. Serve parts A) [
            | none ↦ raise (Error.foreign "AttributeError")
            | some st ↦ (do call parts (parts.expire st); body hello st)
          ])
      given none = Returns-raise (Error.foreign "AttributeError")
      given (some st) = Returns-then (call parts (parts.expire st)) (body hello st) (h st)

  pub Returns-serialized :
      (body : parts.Hello → parts.Store → Serve parts A)
      → ((hello : parts.Hello) (store : parts.Store) → Returns P (body hello store))
      → Returns P (serialized parts body)
  unfolding serialized
  Returns-serialized body h = record { holds = λ s x. go s s.profile (is_some s.store) s.busy }
    where
      go :
          (s : Service.Service parts) (p : Option parts.Hello) (b c : Bool)
          → Meets
              (λ a _. P a)
              (λ _. Any)
              (elim p as (λ _. Outcome Error A × Service.Service parts) [
                | none ↦ (err Error.unavailable, s)
                | some hello ↦
                    if not b
                    then (err Error.unavailable, s)
                    else if c
                    then (err (Error.foreign "SnapshotBusyError"), s)
                    else finally
                        (on_error (prepared parts hello body) (rollback parts))
                        (modifies (release parts))
                        (record s { busy = true })
              ])
      go s none b c = tt
      go s (some hello) false c = tt
      go s (some hello) true true = tt
      go s (some hello) true false =
          (Returns-finally _ (modifies (release parts))
              (Returns-on_error _ (rollback parts) (prepared-Returns hello body (h hello)))).holds
            (record s { busy = true }) tt

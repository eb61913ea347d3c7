-- ===== src/Snapshots/Service/Soundness/Stores.antt =====
-- A method of one store, run by the service: every store that the service built stays sound.
use riderless.Prelude.{
  ℕ, zero, suc, ◌≡◌, refl, subst, String, Option, none, some, List, [], ◌∷◌, All, All-append,
  get_elem?, arith,
}
use riderless.Action.{Outcome, ok, err, lift, modifies, ◌>>=◌, ◌>>◌}
use riderless.Action.Triple.{Meets, Triple-bind, Triple-then}
use riderless.Mapping.Arithmetic.{Floats}
use riderless.Snapshots.Errors.{Error}
use riderless.Snapshots.Wire.Rows.{WorkerHello}
use riderless.Snapshots.Store.Types.{Store}
use riderless.Snapshots.Store.Env.{Env, Sys, Do}
use riderless.Snapshots.Store.Env.Rules.{On}
use riderless.Snapshots.Store.Core.{expire}
use riderless.Snapshots.Store.Registry.{delete}
use riderless.Snapshots.Store.Registry.Soundness.{Sound}
use riderless.Snapshots.Store.Rule.Loops.{expire-Keeps}
use riderless.Snapshots.Store.Accounting.{IsSound}
use riderless.Snapshots.Store.Accounting.Presence.{IsSound-Safe}
use riderless.Snapshots.Store.Index.{open_store}
use riderless.Snapshots.Store.Index.Rebuilt.{open_store-Sound}
use riderless.Snapshots.Service.{Serve, serialized}
use riderless.Snapshots.Service.Invariants.{Respects, Guards, Guards-call, serialized-Guards}
use riderless.Snapshots.Service.Office.{
  Backend, Settings, Office, set, store_config, left, within, filed, new_store, parts, in_store,
}
use riderless.Snapshots.Service.Soundness.{delete-Sounds, Sounds}

module _ (P : Store → Type 0) where
  All-set : (xs : List Store) (i : ℕ) (v : Store) → P v → All P xs → All P (set xs i v)
  All-set [] i v p h = tt
  All-set (x ∷ xs) zero v p h = (p, h.1)
  All-set (x ∷ xs) (suc i) v p h = (h.0, All-set xs i v p h.1)

  All-at : (xs : List Store) (i : ℕ) (v : Store) → get_elem? xs i ≡ some v → All P xs → P v
  All-at [] i v e h = absurd (ground (arith, e))
  All-at (x ∷ xs) zero v e h = subst P (ground (arith, e)) h.0
  All-at (x ∷ xs) (suc i) v e h = All-at xs i v e h.1

module _ {env : Env} where
  -- every store that was built is sound
  abbrev pub AllSound : Office env → Type 0
  AllSound o = All Sound o.stores

  pub within-AllSound :
      {A : Type 0} (ref : ℕ) (m : Do env A)
      → Sounds m
      → (o : Office env) → AllSound o
      → AllSound (within ref m o).1
  unfolding within
  within-AllSound {A} ref m k o h = go (get_elem? o.stores ref) refl
    where
      after :
          (r : Outcome Error A × Sys env)
          → Meets (λ _. On Sound) (λ _. On Sound) r
          → AllSound (left ref o.stores r).1
      after (ok a, s) p = All-set Sound o.stores ref s.store p h
      after (err e, s) p = All-set Sound o.stores ref s.store p h

      go :
          (x : Option Store)
          → get_elem? o.stores ref ≡ x
          → AllSound
              (elim x as (λ _. Outcome Error A × Office env) [
                | none ↦ (err (Error.foreign "AttributeError"), o)
                | some store ↦ left ref o.stores (m (record { store = store; world = o.world }))
              ]).1
      go none e = h
      go (some store) e = after (m (record { store = store; world = o.world })) (
          k.holds (record { store = store; world = o.world }) (All-at Sound o.stores ref store e h))

module _ (env : Env) (fl : Floats) (backend : Backend env fl) (settings : Settings) where
  new_store-AllSound :
      (hello : WorkerHello) (o : Office env)
      → AllSound o
      → AllSound (new_store env fl backend settings hello o).1
  unfolding new_store
  new_store-AllSound hello o h = go (open_store env (store_config settings hello) o.world) refl
    where
      go :
          (r : Outcome Error Store × env.World)
          → open_store env (store_config settings hello) o.world ≡ r
          → AllSound (filed {env = env} o.stores r).1
      go (ok store, w) e =
          All-append Sound o.stores (store ∷ []) h
            (open_store-Sound env (store_config settings hello) o.world w store e, tt)
      go (err x, w) e = h

  pub parts-Respects : Respects (parts env fl backend settings) AllSound
  parts-Respects = record {
    monotonic = λ o h. h;
    start = λ o h. h;
    close = λ o h. h;
    drop = λ id o h. h;
    new_store = new_store-AllSound;
    expire = λ ref. within-AllSound ref (expire env) (expire-Keeps env IsSound IsSound-Safe);
    delete = λ ref id. within-AllSound ref (delete env id) (delete-Sounds env id);
  }

  abbrev pub Safely : {A : Type 0} → Serve (parts env fl backend settings) A → Type 0
  Safely m = Guards (parts env fl backend settings) AllSound m

  pub Safely-in_store :
      {A : Type 0} (ref : ℕ) (m : Do env A)
      → Sounds m
      → Safely (in_store env fl backend settings ref m)
  Safely-in_store ref m k =
      Guards-call (parts env fl backend settings) AllSound (within ref m) (within-AllSound ref m k)

  pub Safely-bind :
      {A B : Type 0} (m : Serve (parts env fl backend settings) A)
      (f : A → Serve (parts env fl backend settings) B)
      → Safely m
      → ((a : A) → Safely (f a))
      → Safely (m >>= f)
  Safely-bind m f k l = Triple-bind (λ a s. AllSound s.world) m f k l

  pub Safely-then :
      {A B : Type 0} (m : Serve (parts env fl backend settings) A)
      (n : Serve (parts env fl backend settings) B)
      → Safely m
      → Safely n
      → Safely (m >> n)
  Safely-then m n k l = Triple-then (λ a s. AllSound s.world) m n k (λ a. l)

  -- a write to `_pending_ids`
  pub Safely-pending :
      {A : Type 0} (ids : List String) (n : Serve (parts env fl backend settings) A)
      → Safely n
      → Safely (modifies (λ s. record s { pending_ids = ids }) >> n)
  Safely-pending ids n k = record { holds = λ s h. k.holds (record s { pending_ids = ids }) h }

  pub Safely-lift : {A : Type 0} (r : Outcome Error A) → Safely (lift r)
  Safely-lift (ok a) = record { holds = λ s h. h }
  Safely-lift (err e) = record { holds = λ s h. h }

  pub Safely-serialized :
      {A : Type 0} (body : WorkerHello → ℕ → Serve (parts env fl backend settings) A)
      → ((hello : WorkerHello) (ref : ℕ) → Safely (body hello ref))
      → Safely (serialized (parts env fl backend settings) body)
  Safely-serialized body k =
      serialized-Guards (parts env fl backend settings) AllSound parts-Respects body k

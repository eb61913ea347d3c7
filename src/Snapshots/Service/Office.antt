-- ===== src/Snapshots/Service/Office.antt =====
-- The parts of the service put together: the snapshot backend as an interface, the stores as objects
-- that the service refers to, and `_new_store`.
use riderless.Prelude.{
  ℕ, zero, suc, String, Bool, true, false, ◌&&◌, Option, none, some, List, [], ◌∷◌, ◌++◌, length,
  get_elem?, eqb, ◌==◌,
}
use riderless.Action.{Outcome, ok, err}
use riderless.Mapping.Arithmetic.{Floats}
use riderless.Mapping.{same_texts, same_tokens}
use riderless.Snapshots.Errors.{Error}
use riderless.Snapshots.Compiler.{CompiledCreate, CompiledSnapshotQuestion, CompiledPrompt}
use riderless.Snapshots.Wire.Rows.{WorkerHello, WorkerCreated, WorkerPromoted}
use riderless.Snapshots.Wire.Branches.{WorkerResult, WorkerState, WorkerRide}
use riderless.Snapshots.Wire.Vectors.{ExportKind, Which, WorkerVectors}
use riderless.Snapshots.Schema.{Checkpoint}
use riderless.Snapshots.Store.Types.{Store, Config}
use riderless.Snapshots.Store.Env.{Env, Sys, Do}
use riderless.Snapshots.Store.Core.{expire}
use riderless.Snapshots.Store.Registry.{delete}
use riderless.Snapshots.Store.Index.{open_store}
use riderless.Snapshots.Service.{Parts, Serve, call}

-- The methods of `SnapshotBackend` that the service calls beside `drop`, which `Env` has.
pub record Backend (env : Env) (fl : Floats) : Type 0 where
  pub ready : env.World → Bool
  pub monotonic : env.World → ℕ × env.World
  pub start : env.World → Outcome Error WorkerHello × env.World
  pub close : env.World → Outcome Error (Unit {0}) × env.World
  -- the compiled input, the ids of the checkpoints, and the labels
  pub create :
      CompiledCreate
      → List (Checkpoint × String)
      → Option (List String)
      → env.World
      → Outcome Error (WorkerCreated fl) × env.World
  pub promote : String → String → env.World → Outcome Error (WorkerPromoted fl) × env.World
  -- the parent, and the questions with the id to save each under
  pub evaluate :
      String
      → List (CompiledSnapshotQuestion × Option String)
      → env.World
      → Outcome Error (WorkerResult fl) × env.World
  pub state_eval :
      String
      → CompiledPrompt
      → List ExportKind
      → ℕ
      → Option String
      → env.World
      → Outcome Error (WorkerState fl) × env.World
  pub ride : String → CompiledPrompt → ℕ → ℕ → env.World → Outcome Error (WorkerRide fl) × env.World
  pub vectors : String → Which → ℕ → ℕ → env.World → Outcome Error WorkerVectors × env.World

-- the arguments of `SnapshotService.__init__` that never change
pub record Settings : Type 0 where
  pub store_root : String
  pub host_bytes : ℕ
  pub default_ttl : ℕ

-- The world with every store that was built.
pub record Office (env : Env) : Type 0 where
  pub world : env.World
  pub stores : List Store

abbrev pub set : List Store → ℕ → Store → List Store
set [] i v = []
set (x ∷ xs) zero v = v ∷ xs
set (x ∷ xs) (suc i) v = x ∷ set xs i v

abbrev same_flag : Bool → Bool → Bool
same_flag true true = true
same_flag false false = true
same_flag _ _ = false

-- `profile != self.profile`, negated
unfoldable pub same_hello : WorkerHello → WorkerHello → Bool
same_hello a b =
    a.model_id == b.model_id
    && (a.model_name == b.model_name
        && (a.model_sha256 == b.model_sha256
            && (a.runtime_sha256 == b.runtime_sha256
                && (a.profile == b.profile
                    && (same_texts a.labels b.labels
                        && (same_tokens a.label_token_ids b.label_token_ids
                            && (eqb a.context_size b.context_size
                                && (eqb a.batch_size b.batch_size
                                    && (eqb a.ubatch_size b.ubatch_size
                                        && (eqb a.threads b.threads
                                            && (eqb a.n_embd b.n_embd
                                                && (same_flag a.reference_context
                                                      b.reference_context
                                                    && same_flag a.rider_mode
                                                        b.rider_mode))))))))))))

-- the arguments of `SnapshotStore` in `_new_store`
unfoldable pub store_config : Settings → WorkerHello → Config
store_config c hello = record {
  root = c.store_root;
  model_sha256 = hello.model_sha256;
  runtime_sha256 = hello.runtime_sha256;
  profile = hello.profile;
  n_embd = hello.n_embd;
  context_size = hello.context_size;
  host_bytes = c.host_bytes;
}

module _ {env : Env} {A : Type 0} where
  -- what a method leaves is what its store is from then on
  abbrev pub left : ℕ → List Store → Outcome Error A × Sys env → Outcome Error A × Office env
  left ref stores (r, s) = (r, record { world = s.world; stores = set stores ref s.store })

  -- a method of a store, by its reference
  unfoldable pub within : ℕ → Do env A → Office env → Outcome Error A × Office env
  within ref m o = elim (get_elem? o.stores ref) [
    | none ↦ (err (Error.foreign "AttributeError"), o)
    | some store ↦ left ref o.stores (m (record { store = store; world = o.world }))
  ]

  -- a call of something else
  abbrev pub outside :
      (env.World → Outcome Error A × env.World) → Office env → Outcome Error A × Office env
  outside f o = let (r, w) = f o.world in (r, record o { world = w })

-- a new store stands behind the others
abbrev pub filed :
    {env : Env} → List Store → Outcome Error Store × env.World → Outcome Error ℕ × Office env
filed stores (ok store, w) =
    (ok (length stores), record { world = w; stores = stores ++ (store ∷ []) })
filed stores (err e, w) = (err e, record { world = w; stores = stores })

module _ (env : Env) (fl : Floats) (backend : Backend env fl) (settings : Settings) where
  -- `_new_store`
  unfoldable pub new_store : WorkerHello → Office env → Outcome Error ℕ × Office env
  unfolding store_config
  new_store hello o = filed o.stores (open_store env (store_config settings hello) o.world)

  abbrev pub parts : Parts
  parts = record {
    World = Office env;
    Hello = WorkerHello;
    Store = ℕ;
    same_hello = same_hello;
    ready = λ o. backend.ready o.world;
    monotonic = λ o. let (t, w) = backend.monotonic o.world in (t, record o { world = w });
    start = outside backend.start;
    close = outside backend.close;
    drop = λ id. outside (env.drop id);
    new_store = new_store;
    expire = λ ref. within ref (expire env);
    delete = λ ref id. within ref (delete env id);
  }

  -- a method of the store that a request was given
  abbrev pub in_store : {A : Type 0} → ℕ → Do env A → Serve parts A
  in_store ref m = call parts (within ref m)

-- ===== src/Snapshots/Store/Env.antt =====
-- What the store uses and does not implement: the clock, `uuid4`, the native worker behind the
-- protocol `NativeSnapshotIO`, the file system and the JSON reader. Each is a function of the
-- world outside, which the store can neither see nor change in another way.
pub mod Rules
use riderless.Prelude.{ℕ, String, List}
use riderless.Action.{Outcome, ok, err, Action}
use riderless.Json.{Json}
use riderless.Snapshots.Errors.{Error}
use riderless.Snapshots.Schema.{WorkerFileEntry}
use riderless.Snapshots.Store.Types.{Store}

abbrev pub Files : Type 0
Files = List (String × WorkerFileEntry)

pub record Env : Type 1 where
  pub World : Type 0
  -- `self._clock()`
  pub clock : World → ℕ × World
  -- `uuid.uuid4().hex`
  pub fresh_hex : World → String × World
  -- the methods of `NativeSnapshotIO`
  pub save : String → String → World → Outcome Error Files × World
  pub load : String → String → List (String × String) → World → Outcome Error (Unit {0}) × World
  pub drop : String → World → Outcome Error ℕ × World
  -- `os.makedirs(path, exist_ok=True)` and `path.mkdir(mode=0o700)`
  pub make_dirs : String → World → Outcome Error (Unit {0}) × World
  pub make_dir : String → World → Outcome Error (Unit {0}) × World
  -- the names of the directories in `sorted(path.iterdir())`
  pub list_dirs : String → World → Outcome Error (List String) × World
  -- `os.open(path, O_WRONLY | O_CREAT | O_EXCL)`, then the write of `json.dumps(manifest)`
  pub write_manifest : String → Json → World → Outcome Error (Unit {0}) × World
  -- `json.loads(path.read_text())`; an `OSError` or a `JSONDecodeError` is an `Error.foreign`
  pub read_manifest : String → World → Outcome Error Json × World
  -- the loops over `os.fsync` of `_fsync_tree` and `_fsync_dir`, and `os.replace`
  pub sync_tree : String → World → Outcome Error (Unit {0}) × World
  pub sync_dir : String → World → Outcome Error (Unit {0}) × World
  pub replace : String → String → World → Outcome Error (Unit {0}) × World
  -- the unlinking of `_remove_tree`
  pub remove_tree : String → World → Outcome Error (Unit {0}) × World

-- The store with the world that it runs in.
pub record Sys (env : Env) : Type 0 where
  pub store : Store
  pub world : env.World

abbrev pub Do : Env → Type 0 → Type 0
Do env A = Action Error (Sys env) A

-- a call that may raise
abbrev pub call : {env : Env} {A : Type 0} → (env.World → Outcome Error A × env.World) → Do env A
call f s = let (r, w) = f s.world in (r, record s { world = w })

-- a call that cannot raise
abbrev pub ask : {env : Env} {A : Type 0} → (env.World → A × env.World) → Do env A
ask f s = let (a, w) = f s.world in (ok a, record s { world = w })

-- a read of the store, and a write to it
abbrev pub reads : {env : Env} {A : Type 0} → (Store → A) → Do env A
reads f s = (ok (f s.store), s)

abbrev pub writes : {env : Env} → (Store → Store) → Do env (Unit {0})
writes f s = (ok tt, record s { store = f s.store })

-- `with contextlib.suppress(SnapshotNotFound): freed = m`, where `freed` was 0
abbrev pub missing_ok : {env : Env} → Outcome Error ℕ × Sys env → Outcome Error ℕ × Sys env
missing_ok (err Error.not_found, s) = (ok 0, s)
missing_ok (err e, s) = (err e, s)
missing_ok (ok freed, s) = (ok freed, s)

abbrev pub suppress_not_found : {env : Env} → Do env ℕ → Do env ℕ
suppress_not_found m s = missing_ok (m s)

-- ===== src/Snapshots/Store/Persist.antt =====
-- `_persist` and `_read_manifest`: a snapshot is written to a temporary directory, renamed into
-- place, and read back.
use Prim.Native.String.{◌++◌ as append}
use riderless.Prelude.{String, Bool, true, false, ◌&&◌, Option, none, some, is_some, if◌then◌else◌}
use riderless.Action.{Outcome, ok, err, pure, lift, ◌>>=◌, ◌>>◌, on_error}
use riderless.Json.{Json, Fields, as_obj}
use riderless.Snapshots.Errors.{Error}
use riderless.Snapshots.Store.Types.{SnapshotRecord, Config}
use riderless.Snapshots.Store.Dict.{modify}
use riderless.Snapshots.Store.Env.{Env, Files, Sys, Do, call, ask, reads, writes}
use riderless.Snapshots.Store.Manifest.{valid_id, file_names_ok, manifest, manifest_ok}

infixr 65 ◌^^◌
abbrev pub ◌^^◌ : String → String → String
a ^^ b = append a b

abbrev pub guard : Bool → Error → Outcome Error (Unit {0})
guard true e = ok tt
guard false e = err e

-- `_disk_dir`
unfoldable pub disk_dir : Config → String → Outcome Error String
disk_dir c id = if valid_id id then ok (c.root ^^ ("/" ^^ id)) else err Error.integrity

-- `directory / MANIFEST_NAME`
abbrev pub manifest_path : String → String
manifest_path directory = directory ^^ "/manifest.json"

-- the test at the top of `_persist`
abbrev pub is_durable : SnapshotRecord → Bool
is_durable r = is_some r.durable_files && is_some r.disk_dir

-- the two assignments at the end of `_persist`
abbrev pub persisted : String → Files → SnapshotRecord → SnapshotRecord
persisted directory files r = record r { disk_dir = some directory; durable_files = some files }

-- `except (OSError, json.JSONDecodeError)`: both are foreign exceptions
abbrev pub unreadable : {env : Env} → Outcome Error Json × Sys env → Outcome Error Json × Sys env
unreadable (err (Error.foreign name), s) = (err Error.integrity, s)
unreadable (err e, s) = (err e, s)
unreadable (ok j, s) = (ok j, s)

abbrev pub as_manifest : Option Fields → Outcome Error Fields
as_manifest none = err Error.integrity
as_manifest (some fs) = ok fs

module _ (env : Env) where
  -- `_read_manifest`
  unfoldable pub read_manifest : String → Do env Fields
  read_manifest directory = do
    raw ← (λ s. unreadable (call (env.read_manifest (manifest_path directory)) s))
    lift (as_manifest (as_obj raw))

  -- `self._validate_manifest(manifest, record)`
  unfoldable pub validate_manifest : Fields → SnapshotRecord → Do env (Unit {0})
  validate_manifest m r = do
    c ← reads (λ s. s.config)
    lift (guard (manifest_ok c m r) Error.integrity)

  -- `_persist` inside `try`, up to and with `os.replace`
  unfoldable pub stage : SnapshotRecord → String → String → Do env Files
  stage r tmp final = do
    files ← call (env.save r.id tmp)
    lift (guard (file_names_ok files) Error.integrity)
    c ← reads (λ s. s.config)
    call (env.write_manifest (manifest_path tmp) (Json.obj (manifest c r files)))
    call (env.sync_tree tmp)
    call (env.replace tmp final)
    pure files

  -- `_persist` inside `try`, after `published = True`
  unfoldable pub confirm : SnapshotRecord → String → Do env (Unit {0})
  unfolding read_manifest validate_manifest
  confirm r final = do
    c ← reads (λ s. s.config)
    call (env.sync_dir c.root)
    reopened ← read_manifest final
    validate_manifest reopened r

  -- `_persist` of a record that is not durable yet. Before the rename only the temporary directory
  -- is cleaned up after an exception, and after it the published directory too.
  unfoldable pub publish : SnapshotRecord → Do env (Unit {0})
  unfolding stage confirm
  publish r = do
    c ← reads (λ s. s.config)
    final ← lift (disk_dir c r.id)
    call (env.make_dirs c.root)
    hex ← ask env.fresh_hex
    let tmp = final ^^ (".tmp-" ^^ hex)
    call (env.make_dir tmp)
    files ← on_error (stage r tmp final) (call (env.remove_tree tmp))
    on_error (confirm r final) (do call (env.remove_tree tmp); call (env.remove_tree final))
    writes (λ s. record s { records = modify r.id (persisted final files) s.records })

  -- `_persist`
  unfoldable pub persist : SnapshotRecord → Do env (Unit {0})
  unfolding publish
  persist r = if is_durable r then pure tt else publish r

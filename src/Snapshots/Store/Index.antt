-- ===== src/Snapshots/Store/Index.antt =====
-- `SnapshotStore.__init__` and `_load_disk_index`: the store is rebuilt from the published snapshots, and
-- `metadata`, which reports one.
pub mod Counting
pub mod Rebuilt
mod Examples
use riderless.Prelude.{
  ℕ, zero, suc, ◌+◌, String, Bool, true, false, not, ◌&&◌, ◌||◌, Option, none, some, is_some, List,
  [], ◌∷◌, ◌++◌, length, eqb, ltb, leb, ◌==◌, if◌then◌else◌,
}
use riderless.Action.{Outcome, ok, err, pure, raise, lift, ◌>>=◌, ◌>>◌}
use riderless.Json.{
  ℤ, Json, Items, Fields, as_int, as_number, as_str, as_obj, get, lookup, json_eq, size,
}
use riderless.Snapshots.Errors.{Error}
use riderless.Snapshots.Schema.{Checkpoint, Boundary, Persistence, Message, WorkerFileEntry}
use riderless.Snapshots.Store.Types.{SnapshotRecord, Store, Config, capabilities}
use riderless.Snapshots.Store.Dict.{find, modify, put}
use riderless.Snapshots.Store.Env.{Env, Files, Sys, Do, call, reads, writes}
use riderless.Snapshots.Store.Core.{now, extra_parent}
use riderless.Snapshots.Store.Core
use riderless.Snapshots.Store.Lease.{optional}
use riderless.Snapshots.Store.Manifest.{valid_id, schema_version, is_checksum}
use riderless.Snapshots.Store.Persist.{◌^^◌, guard, read_manifest, validate_manifest}
use riderless.Snapshots.Store.Registry.{referenced, is_promotion}
use riderless.Snapshots.Store.Published.{
  ◌>>=?◌, message_of, items_of, messages_of, natural, entry_of, files_of, optional_of, depth_of,
  boundary_of, Entry, promotion_ok, entry_tests, Shape, shape_of, shape_error, has_keys,
  record_keys, parse_manifest, indexed,
}

abbrev pub or_raise : {A : Type 0} → Error → Option A → Outcome Error A
or_raise e none = err e
or_raise e (some a) = ok a

-- the references of a record, as the set of the second loop has them
abbrev pub reference_set : SnapshotRecord → List String
reference_set r = optional r.parent ++ optional (extra_parent r)

-- `previous is None or previous.created_at < record.created_at`
abbrev pub is_newer : Option SnapshotRecord → SnapshotRecord → Bool
is_newer none r = true
is_newer (some previous) r = ltb previous.created_at r.created_at

-- `self._records[parent.promotion_child]`, if any
abbrev pub previous_of : List SnapshotRecord → SnapshotRecord → Option SnapshotRecord
previous_of rs parent = parent.promotion_child >>=? λ id. find id rs

module _ (env : Env) where
  -- the body of the first loop of `_load_disk_index`
  unfoldable pub index_one : String → Do env (Unit {0})
  unfolding parse_manifest
  index_one name = if not (valid_id name) then pure tt else (do
    c ← reads (λ s. s.config)
    let directory = c.root ^^ ("/" ^^ name)
    m ← read_manifest env directory
    parsed ← lift (or_raise Error.integrity (parse_manifest m))
    writes (λ s. record s { tick = s.tick + 1 })
    shape ← lift (or_raise (shape_error m) (shape_of m))
    tick ← reads (λ s. s.tick)
    validate_manifest env m (indexed name directory parsed.0 shape parsed.1 tick)
    writes (λ s. record s {
      records = put (indexed name directory parsed.0 shape parsed.1 tick) s.records;
    }))

  unfoldable pub index_all : List String → Do env (Unit {0})
  unfolding index_one
  index_all [] = pure tt
  index_all (name ∷ names) = do index_one name; index_all names

  -- one reference of the second loop
  unfoldable pub count_reference : String → Do env (Unit {0})
  count_reference id = do
    rs ← reads (λ s. s.records)
    lift (guard (is_some (find id rs)) Error.integrity)
    writes (λ s. record s { records = modify id referenced s.records })

  unfoldable pub count_references : List String → Do env (Unit {0})
  unfolding count_reference
  count_references [] = pure tt
  count_references (id ∷ ids) = do count_reference id; count_references ids

  -- the promotion of the second loop
  unfoldable pub link_promotion : SnapshotRecord → String → Do env (Unit {0})
  link_promotion r id = do
    rs ← reads (λ s. s.records)
    parent ← lift (or_raise Error.integrity (find id rs))
    lift (guard (is_promotion r parent) Error.integrity)
    t ← now env
    if ltb t r.expires_at && is_newer (previous_of rs parent) r
        then writes (λ s. record s {
          records = modify id (λ p. record p { promotion_child = some r.id }) s.records;
        })
        else pure tt

  -- the second loop of `_load_disk_index`
  unfoldable pub link_all : List SnapshotRecord → Do env (Unit {0})
  unfolding count_references link_promotion
  link_all [] = pure tt
  link_all (r ∷ rs) = do
    count_references (reference_set r)
    elim r.promotion_of [ none ↦ pure tt | some id ↦ link_promotion r id ]
    link_all rs

  -- `_load_disk_index`
  unfoldable pub load_disk_index : Do env (Unit {0})
  unfolding index_all link_all
  load_disk_index = do
    c ← reads (λ s. s.config)
    names ← call (env.list_dirs c.root)
    index_all names
    rs ← reads (λ s. s.records)
    link_all rs

  -- the rest of `__init__`
  unfoldable pub initialize : Do env (Unit {0})
  unfolding load_disk_index
  initialize = do
    c ← reads (λ s. s.config)
    lift (guard (ltb 0 c.host_bytes) (Error.foreign "ValueError"))
    call (env.make_dirs c.root)
    load_disk_index

abbrev pub blank : Config → Store
blank c = record { config = c; records = []; resident_bytes = 0; tick = 0 }

abbrev pub opened :
    {env : Env} → Outcome Error (Unit {0}) × Sys env → Outcome Error Store × env.World
opened (ok r, s) = (ok s.store, s.world)
opened (err e, s) = (err e, s.world)

-- `SnapshotStore(...)`
unfoldable pub open_store : (env : Env) → Config → env.World → Outcome Error Store × env.World
unfolding initialize
open_store env c w = opened (initialize env (record { store = blank c; world = w }))

-- `SnapshotMetadata`
pub record SnapshotMetadata : Type 0 where
  pub id : String
  pub completed_blocks : Checkpoint
  pub boundary : Boundary
  pub parent : Option String
  pub context_parent : Option String
  pub persistence : Persistence
  pub resident : Bool
  pub tokens : ℕ
  pub capabilities : List String
  pub created_at : ℕ
  pub expires_at : ℕ

-- `metadata`
unfoldable pub metadata : (env : Env) → String → Do env SnapshotMetadata
metadata env id = do
  r ← Core.get env id
  pure (record {
    id = r.id;
    completed_blocks = r.completed_blocks;
    boundary = r.boundary;
    parent = r.parent;
    context_parent = r.context_parent;
    persistence = r.persistence;
    resident = r.resident;
    tokens = r.tokens;
    capabilities = capabilities r;
    created_at = r.created_at;
    expires_at = r.expires_at;
  })

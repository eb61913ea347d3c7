-- ===== src/Snapshots/Service/Creation.antt =====
-- unridden/api/snapshots/service.py: `create`, `metadata` and `delete`.
use riderless.Prelude.{
  ℕ, String, Bool, true, false, not, ◌&&◌, Option, none, some, List, [], ◌∷◌, ◌++◌, map, any, all,
  if◌then◌else◌,
}
use riderless.Action.{pure, lift, on_error, ◌>>=◌, ◌>>◌}
use riderless.Mapping.Arithmetic.{Floats}
use riderless.Snapshots.Errors.{Error}
use riderless.Snapshots.Schema.{Checkpoint, Boundary, is_b18}
use riderless.Snapshots.Compiler.{CompiledCreate, compile_create}
use riderless.Snapshots.Wire.Rows.{WorkerHello, WorkerSnapshotRow, WorkerCreated}
use riderless.Snapshots.Wire.Requests.{SnapshotCreateRequest}
use riderless.Snapshots.Store.Types.{SnapshotRecord, capabilities}
use riderless.Snapshots.Store.Env.{Env, Do, call}
use riderless.Snapshots.Store.Lease.{contains}
use riderless.Snapshots.Store.Persist.{guard}
use riderless.Snapshots.Store.Registry.{Registration, register}
use riderless.Snapshots.Store.Registry
use riderless.Snapshots.Store.Index.{SnapshotMetadata}
use riderless.Snapshots.Store.Index
use riderless.Snapshots.Service.{Serve, serialized, reverse}
use riderless.Snapshots.Service.Office.{Backend, Settings, parts, in_store}
use riderless.Snapshots.Service.Planning.{row_bytes, new_snapshot_id, roll_back}
use riderless.Snapshots.Service.Decisions.{compiled}

-- `SnapshotRow`
pub record SnapshotRow : Type 0 where
  pub id : String
  pub completed_blocks : Checkpoint
  pub boundary : Boundary
  pub parent : Option String
  pub context_parent : Option String
  pub capabilities : List String

-- a row of the response
abbrev pub row_of : SnapshotRecord → SnapshotRow
row_of r = record {
  id = r.id;
  completed_blocks = r.completed_blocks;
  boundary = r.boundary;
  parent = r.parent;
  context_parent = r.context_parent;
  capabilities = capabilities r;
}

abbrev pub ids_of : List (Checkpoint × String) → List String
ids_of = map (λ kv. kv.1)

-- `returned != requested_ids`, negated, of two sets
abbrev pub same_set : List String → List String → Bool
same_set xs ys = all (λ x. contains x ys) xs && all (λ y. contains y xs) ys

unfoldable pub of_depth : Bool → List WorkerSnapshotRow → List WorkerSnapshotRow
of_depth early [] = []
of_depth early (r ∷ rs) =
    let rest = of_depth early rs in
    if (if early then is_b18 r.completed_blocks else not (is_b18 r.completed_blocks))
    then r ∷ rest
    else rest

-- `sorted(result.snapshots, key=lambda item: item.completed_blocks)`
abbrev pub by_blocks : List WorkerSnapshotRow → List WorkerSnapshotRow
by_blocks rs = of_depth true rs ++ of_depth false rs

module _ (env : Env) where
  -- `{str(block): new_snapshot_id() for block in request.checkpoints}`
  unfoldable pub choose_checkpoints : List Checkpoint → Do env (List (Checkpoint × String))
  choose_checkpoints [] = pure []
  choose_checkpoints (b ∷ bs) = do
    id ← new_snapshot_id env
    rest ← choose_checkpoints bs
    pure ((b, id) ∷ rest)

module _ (repr : ℕ → String) (env : Env) (fl : Floats) (backend : Backend env fl)
    (settings : Settings) where
  -- the arguments of the `register` of `create`
  unfoldable pub creation_of :
      SnapshotCreateRequest
      → String
      → CompiledCreate
      → WorkerCreated fl
      → WorkerSnapshotRow
      → Registration
  creation_of request owner c result row = record {
    snapshot_id = row.snapshot_id;
    owner = owner;
    completed_blocks = row.completed_blocks;
    boundary = c.boundary;
    parent = row.parent;
    context_parent = none;
    messages = c.messages;
    answer_prefix = c.answer_prefix;
    tokens = row.tokens;
    host_bytes = row_bytes row;
    persistence = request.persistence;
    prompt_sha256 = result.prompt_sha256;
    ttl_seconds = request.ttl_seconds;
    promotion_of = none;
  }

  -- the loop of `create`
  unfoldable pub register_rows :
      SnapshotCreateRequest
      → String
      → CompiledCreate
      → WorkerCreated fl
      → List WorkerSnapshotRow
      → Do env (List SnapshotRow)
  unfolding creation_of
  register_rows request owner c result [] = pure []
  register_rows request owner c result (row ∷ rows) = do
    r ← register env (creation_of request owner c result row)
    rest ← register_rows request owner c result rows
    pure (row_of r ∷ rest)

  -- `labels = compiled.labels if (wants_30 and compiled.labels) else None`
  abbrev pub labels_of : SnapshotCreateRequest → CompiledCreate → Option (List String)
  labels_of request c =
      if any (λ b. not (is_b18 b)) request.checkpoints
      then elim c.labels [
        | none ↦ none
        | some ls ↦ elim ls [ [] ↦ none | l ∷ more ↦ some (l ∷ more) ]
      ]
      else none

  -- the `try` block of `create`
  unfoldable pub freeze :
      SnapshotCreateRequest
      → String
      → CompiledCreate
      → List (Checkpoint × String)
      → Do env (List SnapshotRow)
  unfolding register_rows of_depth
  freeze request owner c checkpoints = do
    result ← call (backend.create c checkpoints (labels_of request c))
    lift (
        guard (same_set (map (λ r. r.snapshot_id) result.snapshots) (ids_of checkpoints))
          Error.protocol)
    register_rows request owner c result (by_blocks result.snapshots)

  -- the body of `_serialized` in `create`
  unfoldable pub create_in :
      SnapshotCreateRequest → String → WorkerHello → Do env (List SnapshotRow)
  unfolding choose_checkpoints freeze roll_back
  create_in request owner profile = do
    c ← lift (compiled (compile_create repr request.input profile.labels))
    checkpoints ← choose_checkpoints env request.checkpoints
    on_error (freeze request owner c checkpoints) (roll_back env (reverse (ids_of checkpoints)))

  -- `create`
  unfoldable pub create :
      SnapshotCreateRequest → String → Serve (parts env fl backend settings) (List SnapshotRow)
  unfolding create_in
  create request owner =
      serialized (parts env fl backend settings)
        (λ profile ref. in_store env fl backend settings ref (create_in request owner profile))

module _ (env : Env) (fl : Floats) (backend : Backend env fl) (settings : Settings) where
  -- `metadata`
  unfoldable pub describe : String → Serve (parts env fl backend settings) SnapshotMetadata
  describe id =
      serialized (parts env fl backend settings)
        (λ profile ref. in_store env fl backend settings ref (Index.metadata env id))

  -- `delete`
  unfoldable pub remove : String → Serve (parts env fl backend settings) ℕ
  remove id =
      serialized (parts env fl backend settings)
        (λ profile ref. in_store env fl backend settings ref (Registry.delete env id))

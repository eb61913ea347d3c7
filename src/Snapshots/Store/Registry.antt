-- ===== src/Snapshots/Store/Registry.antt =====
-- The operations of the store that the service calls: `register`, `memoize_promotion`,
-- `memoized_promotion`, `delete` and `restore`. `get` and `lease` stand in Core and Lease.
pub mod Entering
pub mod Loading
pub mod Soundness
pub mod Admission
pub mod Registering
pub mod Restoring
use riderless.Prelude.{
  ℕ, ◌+◌, String, Bool, true, false, not, ◌&&◌, Option, none, some, List, [], ◌∷◌, ◌++◌, max,
  is_some, leb, eqb, refers, same_ref, ◌==◌, if◌then◌else◌,
}
use riderless.Action.{pure, raise, lift, ◌>>=◌, ◌>>◌, on_error}
use riderless.Snapshots.Errors.{Error}
use riderless.Snapshots.Schema.{
  Checkpoint, Boundary, Persistence, Message, is_b18, same_boundary, is_disk,
}
use riderless.Snapshots.Store.Types.{SnapshotRecord, Store}
use riderless.Snapshots.Store.Dict.{find, modify, put}
use riderless.Snapshots.Store.Env.{Env, Files, Do, call, reads, writes, suppress_not_found}
use riderless.Snapshots.Store.Core.{now, forget, extra_parent, get, expire, remove_dir}
use riderless.Snapshots.Store.Lease.{with_lease}
use riderless.Snapshots.Store.Manifest.{valid_id}
use riderless.Snapshots.Store.Persist.{guard, persist, read_manifest, validate_manifest}
use riderless.Snapshots.Store.Budget.{enforce_budget}

-- the keyword arguments of `register`
pub record Registration : Type 0 where
  pub snapshot_id : String
  pub owner : String
  pub completed_blocks : Checkpoint
  pub boundary : Boundary
  pub parent : Option String
  pub context_parent : Option String
  pub messages : List Message
  pub answer_prefix : String
  pub tokens : ℕ
  pub host_bytes : ℕ
  pub persistence : Persistence
  pub prompt_sha256 : String
  pub ttl_seconds : ℕ
  pub promotion_of : Option String

-- the record that `register` builds at a time and a tick
unfoldable pub new_record : Registration → ℕ → ℕ → SnapshotRecord
new_record a now tick = record {
  id = a.snapshot_id;
  owner = a.owner;
  completed_blocks = a.completed_blocks;
  boundary = a.boundary;
  parent = a.parent;
  context_parent = a.context_parent;
  messages = a.messages;
  answer_prefix = a.answer_prefix;
  tokens = a.tokens;
  host_bytes = a.host_bytes;
  persistence = a.persistence;
  prompt_sha256 = a.prompt_sha256;
  created_at = now;
  expires_at = now + a.ttl_seconds;
  resident = true;
  disk_dir = none;
  durable_files = none;
  promotion_child = none;
  promotion_of = a.promotion_of;
  leases = 0;
  refcount = 0;
  last_used = tick;
  persisted_host_bytes = a.host_bytes;
}

abbrev pub same_messages : List Message → List Message → Bool
same_messages [] [] = true
same_messages (m ∷ ms) (n ∷ ns) =
    (m.role == n.role && m.content == n.content) && same_messages ms ns
same_messages _ _ = false

-- the `context_parent` that a promotion of `parent` has
abbrev pub promoted_context : SnapshotRecord → Option String
promoted_context parent = elim parent.boundary [
  | Boundary.context ↦ none
  | Boundary.readout ↦ parent.context_parent
]

-- `_validate_promotion`, which raises `IntegrityError` where this is false
unfoldable pub is_promotion : SnapshotRecord → SnapshotRecord → Bool
is_promotion child parent =
    refers child.promotion_of parent.id
    && (refers child.parent parent.id
        && (is_b18 parent.completed_blocks
            && (not (is_b18 child.completed_blocks)
                && (child.owner == parent.owner
                    && (same_boundary child.boundary parent.boundary
                        && (same_messages child.messages parent.messages
                            && (child.answer_prefix == parent.answer_prefix
                                && (eqb child.tokens parent.tokens
                                    && (child.prompt_sha256 == parent.prompt_sha256
                                        && same_ref child.context_parent
                                            (promoted_context parent))))))))))

-- one reference more
abbrev pub referenced : SnapshotRecord → SnapshotRecord
referenced p = record p { refcount = p.refcount + 1 }

abbrev pub add_ref : Option String → List SnapshotRecord → List SnapshotRecord
add_ref none rs = rs
add_ref (some id) rs = modify id referenced rs

-- the writes of `register` from `self._records[snapshot_id] = record` to the reference counts
unfoldable pub enter : SnapshotRecord → Store → Store
enter r s = record s {
  records = add_ref (extra_parent r) (add_ref r.parent (put r s.records));
  resident_bytes = s.resident_bytes + r.host_bytes;
}

-- `reference is not None and reference not in self._records` for each of the two references
abbrev pub is_known : List SnapshotRecord → Option String → Bool
is_known rs none = true
is_known rs (some id) = is_some (find id rs)

-- `(reference for reference in (parent, context_parent) if reference)`
abbrev pub truthy : Option String → List String
truthy none = []
truthy (some id) = if id == "" then [] else id ∷ []

-- `promotion_of is not None and promotion_of != parent`
abbrev pub is_misplaced : Option String → Option String → Bool
is_misplaced none parent = false
is_misplaced (some id) parent = not (refers parent id)

-- the bytes that `restore` reserves for the saved tensors
abbrev pub tensor_bytes : Files → ℕ
tensor_bytes [] = 0
tensor_bytes ((name, entry) ∷ files) =
    (if name == "native.json" then 0 else entry.bytes) + tensor_bytes files

abbrev pub checksums : Files → List (String × String)
checksums [] = []
checksums ((name, entry) ∷ files) = (name, entry.sha256) ∷ checksums files

-- the writes at the end of `restore`
unfoldable pub page_in : SnapshotRecord → ℕ → Store → Store
page_in r loaded s = record s {
  records =
      modify r.id (λ x. record x { resident = true; host_bytes = loaded; last_used = s.tick + 1 })
        s.records;
  resident_bytes = s.resident_bytes + loaded;
  tick = s.tick + 1;
}

-- the object that `record` names, which `_records` may show changed
abbrev pub current : SnapshotRecord → Store → SnapshotRecord
current r s = elim (find r.id s.records) [ none ↦ r | some x ↦ x ]

module _ (env : Env) where
  -- `self._validate_promotion(record, parent)` of a looked up parent; a missing one is a `KeyError`
  unfoldable pub check_against : SnapshotRecord → Option SnapshotRecord → Do env (Unit {0})
  check_against r none = raise (Error.foreign "KeyError")
  check_against r (some p) = lift (guard (is_promotion r p) Error.integrity)

  -- `if promotion_of is not None: self._validate_promotion(record, self._records[promotion_of])`
  unfoldable pub check_promotion : SnapshotRecord → Do env (Unit {0})
  unfolding check_against
  check_promotion r = elim r.promotion_of [
    | none ↦ pure tt
    | some id ↦ do parent ← reads (λ s. find id s.records); check_against r parent
  ]

  -- the `try` block of `register`
  unfoldable pub persist_new : SnapshotRecord → Do env (Unit {0})
  persist_new r =
      if is_disk r.persistence then on_error (persist env r) (writes (forget r)) else pure tt

  -- `register` from the reservation of the bytes on, under the lease of the parents
  unfoldable pub admit : Registration → Do env SnapshotRecord
  unfolding check_promotion persist_new
  admit a = do
    enforce_budget env a.host_bytes
    t ← now env
    writes (λ s. record s { tick = s.tick + 1 })
    r ← reads (λ s. new_record a t s.tick)
    check_promotion r
    writes (enter r)
    persist_new r
    reads (current r)

  -- `register`
  unfoldable pub register : Registration → Do env SnapshotRecord
  unfolding admit
  register a = do
    expire env
    lift (guard (valid_id a.snapshot_id) Error.integrity)
    rs ← reads (λ s. s.records)
    lift (guard (not (is_some (find a.snapshot_id rs))) Error.integrity)
    lift (guard (is_known rs a.parent && is_known rs a.context_parent) Error.not_found)
    lift (guard (not (is_misplaced a.promotion_of a.parent)) Error.integrity)
    with_lease env (truthy a.parent ++ truthy a.context_parent) (admit a)

  -- `memoize_promotion`
  unfoldable pub memoize_promotion : String → String → Do env (Unit {0})
  memoize_promotion parent_id child_id = do
    parent ← get env parent_id
    child ← get env child_id
    lift (guard (is_promotion child parent) Error.integrity)
    writes (λ s. record s {
      records = modify parent_id (λ p. record p { promotion_child = some child_id }) s.records;
    })

  abbrev pub forget_promotion : String → Do env (Option String)
  forget_promotion parent_id = do
    writes (λ s. record s {
      records = modify parent_id (λ p. record p { promotion_child = none }) s.records;
    })
    pure none

  -- `memoized_promotion`
  unfoldable pub memoized_promotion : String → Do env (Option String)
  memoized_promotion parent_id = do
    parent ← get env parent_id
    rs ← reads (λ s. s.records)
    elim parent.promotion_child [
      | none ↦ forget_promotion parent_id
      | some child_id ↦ elim (find child_id rs) [
        | none ↦ forget_promotion parent_id
        | some child ↦ do
          t ← now env
          if leb child.expires_at t then forget_promotion parent_id else pure (some child_id)
      ]
    ]

  -- `delete`
  unfoldable pub delete : String → Do env ℕ
  delete id = do
    r ← get env id
    lift (guard (eqb r.leases 0) Error.in_use)
    lift (guard (eqb r.refcount 0) Error.in_use)
    freed ← suppress_not_found (call (env.drop id))
    remove_dir env r
    writes (forget r)
    pure freed

  -- `restore` of a record that is on disk only
  unfoldable pub reload : SnapshotRecord → String → Files → Do env SnapshotRecord
  reload r directory files = do
    m ← read_manifest env directory
    validate_manifest env m r
    let loaded = max r.host_bytes (tensor_bytes files)
    enforce_budget env loaded
    call (env.load r.id directory (checksums files))
    writes (page_in r loaded)
    reads (λ s. record r { resident = true; host_bytes = loaded; last_used = s.tick })

  -- `restore`
  unfoldable pub restore : String → Do env SnapshotRecord
  unfolding reload
  restore id = do
    r ← get env id
    if r.resident then pure r else elim r.disk_dir [
      | none ↦ raise Error.not_found
      | some directory ↦ elim r.durable_files [
        | none ↦ raise Error.not_found
        | some files ↦ reload r directory files
      ]
    ]

-- ===== src/Snapshots/Store/Types.antt =====
-- The state of `SnapshotStore`. A reading of the clock is a whole number of seconds; the code only
-- adds a number of seconds to one, and compares two.
use riderless.Prelude.{ℕ, String, Bool, Option, List, ◌∷◌, []}
use riderless.Snapshots.Schema.{Checkpoint, Boundary, Persistence, WorkerFileEntry, Message}

pub record SnapshotRecord : Type 0 where
  pub id : String
  pub owner : String
  pub completed_blocks : Checkpoint
  pub boundary : Boundary
  pub parent : Option String
  pub context_parent : Option String
  pub messages : List Message
  pub answer_prefix : String
  pub tokens : ℕ
  pub host_bytes : ℕ
  pub persistence : Persistence
  pub prompt_sha256 : String
  pub created_at : ℕ
  pub expires_at : ℕ
  pub resident : Bool
  pub disk_dir : Option String
  pub durable_files : Option (List (String × WorkerFileEntry))
  pub promotion_child : Option String
  pub promotion_of : Option String
  pub leases : ℕ
  pub refcount : ℕ
  pub last_used : ℕ
  pub persisted_host_bytes : ℕ

-- `SnapshotRecord.capabilities`
unfoldable pub capabilities : SnapshotRecord → List String
capabilities r = elim r.completed_blocks [
  | Checkpoint.b18 ↦ "continue" ∷ "promote" ∷ "inspect" ∷ []
  | Checkpoint.b30 ↦ "continue" ∷ "inspect" ∷ []
]

-- What `__init__` is given and never changes.
pub record Config : Type 0 where
  pub root : String
  pub model_sha256 : String
  pub runtime_sha256 : String
  pub profile : String
  pub n_embd : ℕ
  pub context_size : ℕ
  pub host_bytes : ℕ

-- `records` is `_records`, a dict by id, in its order of insertion. The keys are the fields `id`.
pub record Store : Type 0 where
  pub config : Config
  pub records : List SnapshotRecord
  pub resident_bytes : ℕ
  pub tick : ℕ

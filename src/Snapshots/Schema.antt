-- ===== src/Snapshots/Schema.antt =====
-- The finite vocabularies of unridden/api/snapshots/schema.py, and the messages of a prompt.
pub use riderless.Compiler.{Message}
use riderless.Prelude.{ℕ, String, Bool, true, false}

-- `Literal[18, 30]`
pub data Checkpoint : Type 0 where
  b18 b30 : Checkpoint

pub data Boundary : Type 0 where
  context readout : Boundary

pub data Persistence : Type 0 where
  memory disk : Persistence

pub data Promotion : Type 0 where
  performed reused none_needed : Promotion

pub record WorkerFileEntry : Type 0 where
  pub bytes : ℕ
  pub sha256 : String

abbrev pub is_b18 : Checkpoint → Bool
is_b18 Checkpoint.b18 = true
is_b18 Checkpoint.b30 = false

abbrev pub same_boundary : Boundary → Boundary → Bool
same_boundary Boundary.context Boundary.context = true
same_boundary Boundary.readout Boundary.readout = true
same_boundary _ _ = false

abbrev pub is_disk : Persistence → Bool
is_disk Persistence.memory = false
is_disk Persistence.disk = true

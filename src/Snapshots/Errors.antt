-- ===== src/Snapshots/Errors.antt =====
-- unridden/api/snapshots/errors.py: the exceptions that the snapshot code raises.
use riderless.Prelude.{String}

-- `foreign` is any exception of a class that is not declared there, such as an `OSError`.
pub data Error : Type 0 where
  unavailable protocol execution not_found exists prefix_mismatch : Error
  followup_unsupported capability_unavailable integrity store_full in_use : Error
  request foreign : String → Error

-- ===== src/Snapshots/Store.antt =====
-- unridden/api/snapshots/store.py: the in-process snapshot registry.
pub mod Types
pub mod Dict
pub mod Env
pub mod Core
pub mod Lease
pub mod Manifest
pub mod Persist
pub mod Budget
pub mod Registry
pub mod Published
pub mod Index
pub mod Rule
pub mod Order
pub mod Catalogue
pub mod RoundTrip
pub mod Promises
mod Examples
pub mod Accounting

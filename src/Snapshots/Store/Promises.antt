-- ===== src/Snapshots/Store/Promises.antt =====
-- What the store promises its callers: each operation of `SnapshotStore`, run from a sound store in
-- any world.
use riderless.Prelude.{ℕ, String, ◌≡◌, ◌↔◌, true, none, some, List}
use riderless.Action.Triple.{Meets}
use riderless.Snapshots.Store.Types.{SnapshotRecord}
use riderless.Snapshots.Store.Dict.{find}
use riderless.Snapshots.Store.Env.{Env, Sys}
use riderless.Snapshots.Store.Env.Rules.{On}
use riderless.Snapshots.Store.Core.{first, is_expired_leaf, expire}
use riderless.Snapshots.Store.Lease.{contains, ancestors}
use riderless.Snapshots.Store.Lease.Ancestors.{IsAncestor, sound-ancestors, complete-ancestors}
use riderless.Snapshots.Store.Budget.{fits, enforce_budget}
use riderless.Snapshots.Store.Rule.Safe.{Inv}
use riderless.Snapshots.Store.Rule.Expiry.{expire-clears}
use riderless.Snapshots.Store.Rule.Evictions.{enforce_budget-keeps}
use riderless.Snapshots.Store.Accounting.{IsPinned, IsSound}
use riderless.Snapshots.Store.Accounting.Pinned.{IsPinned-Safe}
use riderless.Snapshots.Store.Accounting.Presence.{IsSound-Safe}
use riderless.Snapshots.Store.Registry.{Registration, register, delete, restore}
use riderless.Snapshots.Store.Registry.Soundness.{Sound, delete-Sound}
use riderless.Snapshots.Store.Registry.Admission.{Registered}
use riderless.Snapshots.Store.Registry.Registering.{register-Registered}
use riderless.Snapshots.Store.Registry.Restoring.{Pinned, Restored, restore-Restored}

-- From a sound store `register` either returns the new snapshot, which is then in the store, or
-- raises. Both leave a sound store: distinct and well-formed ids, `_resident_bytes` the sum over the
-- resident snapshots and within the budget, and every `refcount` the number of references.
pub register-Sound :
    (env : Env) (a : Registration) (s : Sys env)
    → Sound s.store
    → Meets (λ r. On (Registered a r)) (λ _. On Sound) (register env a s)
register-Sound env a s h = (register-Registered env a).holds s h

-- From a sound store in which the snapshot is leased, `restore` either returns with the snapshot
-- resident, or raises. Both leave a sound store, so the loaded bytes are within the budget.
pub restore_resident :
    (env : Env) (id : String) (s : Sys env)
    → Inv (Pinned id) s.store
    → Meets (λ _. On (Restored id)) (λ _. On Sound) (restore env id s)
restore_resident env id s h = (restore-Restored env id).holds s h

-- From a sound store `delete` either returns with the snapshot gone, or raises. Both leave a sound
-- store, so no reference to the snapshot is left.
pub delete_removes :
    (env : Env) (id : String) (s : Sys env)
    → Sound s.store
    → Meets (λ _. On (λ t. Sound t × (find id t.records ≡ none))) (λ _. On Sound) (delete env id s)
delete_removes env id s h = (delete-Sound env id).holds s h

-- From a sound store `expire` either returns with no snapshot left that had expired at the clock's
-- reading and that nothing leases or references, or raises. Both leave a sound store.
pub expire_complete :
    (env : Env) (s : Sys env)
    → Sound s.store
    → Meets
        (λ _. On (λ t. Sound t × (first (is_expired_leaf (env.clock s.world).0) t.records ≡ none)))
        (λ _. On Sound)
        (expire env s)
expire_complete env s h = expire-clears env IsSound IsSound-Safe s h

-- From a sound store `_enforce_budget` either returns with room for the bytes, or raises. Both leave
-- a sound store.
pub enforce_budget_room :
    (env : Env) (incoming : ℕ) (s : Sys env)
    → Sound s.store
    → Meets
        (λ _. On (λ t. Sound t × (fits incoming t ≡ true)))
        (λ _. On Sound)
        (enforce_budget env incoming s)
enforce_budget_room env incoming s h =
    (enforce_budget-keeps env IsSound IsSound-Safe incoming).holds s h

-- A leased snapshot is still in the store and leased after `_enforce_budget`, whether that returns
-- or raises, if the ids are distinct.
pub lease_pins :
    (env : Env) (id : String) (incoming : ℕ) (s : Sys env)
    → Inv (IsPinned id) s.store
    → Meets
        (λ _. On (λ t. Inv (IsPinned id) t × (fits incoming t ≡ true)))
        (λ _. On (Inv (IsPinned id)))
        (enforce_budget env incoming s)
lease_pins env id incoming s h =
    (enforce_budget-keeps env (IsPinned id) (IsPinned-Safe id) incoming).holds s h

-- `_ancestors` returns, of the snapshots in the store, exactly those that are reached from the given
-- one by following `parent` and `context_parent`.
pub ancestors_exact :
    (rs : List SnapshotRecord) (id x : String) (r : SnapshotRecord)
    → find x rs ≡ some r
    → (contains x (ancestors rs id) ≡ true) ↔ IsAncestor rs id x
ancestors_exact rs id x r h = (sound-ancestors rs id x, λ a. complete-ancestors rs id x r a h)

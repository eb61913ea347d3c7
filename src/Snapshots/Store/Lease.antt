-- ===== src/Snapshots/Store/Lease.antt =====
-- `_ancestors` and `lease`: the snapshots that a call pins against eviction.
pub mod Ancestors
pub mod Pins
pub mod Scope
use riderless.Prelude.{
  ℕ, zero, suc, ◌+◌, ◌-◌, ◌*◌, String, Bool, Option, none, some, List, [], ◌∷◌, ◌++◌, any, length,
  ltb, ◌==◌, if◌then◌else◌,
}
use riderless.Action.{pure, ◌>>=◌, ◌>>◌, finally}
use riderless.Snapshots.Store.Types.{SnapshotRecord, Store}
use riderless.Snapshots.Store.Dict.{find, modify}
use riderless.Snapshots.Store.Env.{Env, Do, reads, writes}
use riderless.Snapshots.Store.Core.{get}

abbrev pub contains : String → List String → Bool
contains id ids = any (λ x. x == id) ids

abbrev pub optional {ℓ} : {A : Type ℓ} → Option A → List A
optional none = []
optional (some a) = a ∷ []

-- The references of a record as the frontier's top holds them: `context_parent` was appended last.
abbrev pub references : SnapshotRecord → List String
references r = optional r.context_parent ++ optional r.parent

-- `current`'s record, unless the loop passes over `current`
unfoldable pub unvisited : List SnapshotRecord → List String → String → Option SnapshotRecord
unvisited rs seen current = if contains current seen then none else find current rs

-- The loop of `_ancestors`. The head of the frontier is its top.
unfoldable pub ancestors_loop : ℕ → List SnapshotRecord → List String → List String → List String
ancestors_loop fuel rs [] seen = seen
ancestors_loop zero rs (current ∷ frontier) seen = seen
ancestors_loop (suc fuel) rs (current ∷ frontier) seen = elim (unvisited rs seen current) [
  | none ↦ ancestors_loop fuel rs frontier seen
  | some r ↦ ancestors_loop fuel rs (references r ++ frontier) (current ∷ seen)
]

-- A snapshot enters `seen` once and then appends two references at most.
unfoldable pub ancestors : List SnapshotRecord → String → List String
unfolding ancestors_loop
ancestors rs id = ancestors_loop (2 * length rs + 1) rs (id ∷ []) []

-- `pinned |= ids`
unfoldable pub union : List String → List String → List String
union pinned [] = pinned
union pinned (id ∷ ids) = union (if contains id pinned then pinned else id ∷ pinned) ids

abbrev pub leased : SnapshotRecord → SnapshotRecord
leased r = record r { leases = r.leases + 1 }

abbrev pub unleased : SnapshotRecord → SnapshotRecord
unleased r = record r { leases = if ltb 0 r.leases then r.leases - 1 else r.leases }

unfoldable pub modify_each :
    (SnapshotRecord → SnapshotRecord) → List String → List SnapshotRecord → List SnapshotRecord
modify_each f [] rs = rs
modify_each f (id ∷ ids) rs = modify_each f ids (modify id f rs)

unfoldable pub pin : List String → Store → Store
pin ids s = record s { records = modify_each leased ids s.records }

unfoldable pub unpin : List String → Store → Store
unpin ids s = record s { records = modify_each unleased ids s.records }

module _ (env : Env) where
  -- the first loop of `lease`
  unfoldable pub collect : List String → List String → Do env (List String)
  collect [] pinned = pure pinned
  collect (id ∷ ids) pinned = do
    get env id
    rs ← reads (λ s. s.records)
    collect ids (union pinned (ancestors rs id))

  -- `with self.lease(*ids): body`
  unfoldable pub with_lease : {A : Type 0} → List String → Do env A → Do env A
  with_lease ids body = do
    pinned ← collect ids []
    writes (pin pinned)
    finally body (writes (unpin pinned))

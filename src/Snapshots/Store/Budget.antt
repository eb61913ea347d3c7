-- ===== src/Snapshots/Store/Budget.antt =====
-- `_enforce_budget` and `_evict_one`: room for new bytes, by eviction of what was used longest ago.
use riderless.Prelude.{
  ℕ, zero, suc, ◌+◌, ◌-◌, Bool, true, false, not, ◌&&◌, ◌||◌, List, [], ◌∷◌, any, ltb, leb, eqb,
  refers, if◌then◌else◌,
}
use riderless.Action.{pure, raise, ◌>>=◌, ◌>>◌}
use riderless.Snapshots.Errors.{Error}
use riderless.Snapshots.Schema.{is_b18, is_disk}
use riderless.Snapshots.Store.Types.{SnapshotRecord, Store}
use riderless.Snapshots.Store.Dict.{modify}
use riderless.Snapshots.Store.Env.{Env, Do, call, reads, writes, suppress_not_found}
use riderless.Snapshots.Store.Core.{forget, expire}
use riderless.Snapshots.Store.Persist.{persist}

-- the test of `_has_resident_shared_child` on one record
abbrev pub is_shared_child : SnapshotRecord → SnapshotRecord → Bool
is_shared_child parent child =
    refers child.parent parent.id
    && (not (is_b18 child.completed_blocks) && (eqb child.tokens parent.tokens && child.resident))

-- `_has_resident_shared_child`
unfoldable pub has_resident_shared_child : List SnapshotRecord → SnapshotRecord → Bool
has_resident_shared_child rs parent =
    is_b18 parent.completed_blocks && any (is_shared_child parent) rs

-- the test of the comprehension in `_evict_one`
unfoldable pub is_candidate : List SnapshotRecord → SnapshotRecord → Bool
is_candidate rs r =
    r.resident
    && (eqb r.leases 0
        && (eqb r.refcount 0 || (is_disk r.persistence && not (has_resident_shared_child rs r))))

unfoldable pub select : (SnapshotRecord → Bool) → List SnapshotRecord → List SnapshotRecord
select test [] = []
select test (r ∷ rs) = let rest = select test rs in if test r then r ∷ rest else rest

unfoldable pub insert_by_use : SnapshotRecord → List SnapshotRecord → List SnapshotRecord
insert_by_use r [] = r ∷ []
insert_by_use r (x ∷ xs) =
    let rest = insert_by_use r xs in if leb r.last_used x.last_used then r ∷ (x ∷ xs) else x ∷ rest

-- `candidates.sort(key=lambda record: record.last_used)`, which is stable
unfoldable pub sort_by_use : List SnapshotRecord → List SnapshotRecord
sort_by_use [] = []
sort_by_use (r ∷ rs) = insert_by_use r (sort_by_use rs)

-- the candidates of `_evict_one`, in the order in which it tries them
unfoldable pub candidates : List SnapshotRecord → List SnapshotRecord
candidates rs = sort_by_use (select (is_candidate rs) rs)

-- how many records are resident, which bounds the rounds of the eviction loop
abbrev pub count_resident : List SnapshotRecord → ℕ
count_resident [] = 0
count_resident (r ∷ rs) = if r.resident then suc (count_resident rs) else count_resident rs

-- `self._resident_bytes -= record.host_bytes; record.resident = False`
unfoldable pub page_out : SnapshotRecord → Store → Store
page_out r s = record s {
  resident_bytes = s.resident_bytes - r.host_bytes;
  records = modify r.id (λ x. record x { resident = false }) s.records;
}

unfoldable pub fits : ℕ → Store → Bool
fits incoming s = leb (s.resident_bytes + incoming) s.config.host_bytes

module _ (env : Env) where
  unfoldable pub evict_to_disk : SnapshotRecord → Do env Bool
  evict_to_disk r = do
    persist env r
    suppress_not_found (call (env.drop r.id))
    writes (page_out r)
    pure true

  unfoldable pub evict_from_memory : SnapshotRecord → Do env Bool
  evict_from_memory r = do call (env.drop r.id); writes (forget r); pure true

  -- the loop of `_evict_one` over the candidates
  unfoldable pub evict_first : List SnapshotRecord → Do env Bool
  evict_first [] = pure false
  evict_first (r ∷ rs) =
      let rest = evict_first rs in
      if is_disk r.persistence
      then evict_to_disk r
      else if eqb r.refcount 0
      then evict_from_memory r
      else rest

  -- `_evict_one`
  unfoldable pub evict_one : Do env Bool
  evict_one = do chosen ← reads (λ s. candidates s.records); evict_first chosen

  -- The loop of `_enforce_budget`. An eviction leaves one resident record fewer, so the fuel is
  -- their number; without any, `_evict_one` has no candidate and returns `False`.
  unfoldable pub budget_loop : ℕ → ℕ → Do env (Unit {0})
  budget_loop zero incoming = do
    enough ← reads (fits incoming)
    if enough then pure tt else raise Error.store_full
  budget_loop (suc fuel) incoming =
      let rest = budget_loop fuel incoming in
      do
        enough ← reads (fits incoming)
        if enough
            then pure tt
            else do evicted ← evict_one; if evicted then rest else raise Error.store_full

  -- `_enforce_budget`
  unfoldable pub enforce_budget : ℕ → Do env (Unit {0})
  enforce_budget incoming = do
    budget ← reads (λ s. s.config.host_bytes)
    if ltb budget incoming
        then raise Error.store_full
        else do expire env; fuel ← reads (λ s. count_resident s.records); budget_loop fuel incoming

-- ===== src/Snapshots/Store/Core.antt =====
-- Lookups, the reference counts and the expiry of the store.
use riderless.Prelude.{
  ℕ, zero, suc, ◌+◌, ◌-◌, String, Bool, ◌&&◌, Option, none, some, List, [], ◌∷◌, length, ltb, leb,
  eqb, refers, if◌then◌else◌,
}
use riderless.Action.{pure, raise, ◌>>=◌, ◌>>◌}
use riderless.Snapshots.Errors.{Error}
use riderless.Snapshots.Store.Types.{SnapshotRecord, Store}
use riderless.Snapshots.Store.Dict.{find, modify, pop}
use riderless.Snapshots.Store.Env.{Env, Do, call, ask, reads, writes, suppress_not_found}

-- One reference less, for `_release_ref`.
abbrev pub released : SnapshotRecord → SnapshotRecord
released p = record p { refcount = if ltb 0 p.refcount then p.refcount - 1 else p.refcount }

-- `_release_ref`, where the reference may be `None`
abbrev pub release_ref : Option String → List SnapshotRecord → List SnapshotRecord
release_ref none rs = rs
release_ref (some id) rs = modify id released rs

-- `context_parent` where it counts as a reference of its own
abbrev pub extra_parent : SnapshotRecord → Option String
extra_parent r = elim r.context_parent [
  | none ↦ none
  | some c ↦ if refers r.parent c then none else some c
]

-- `_forget`
unfoldable pub forget : SnapshotRecord → Store → Store
forget r s = record s {
  records = pop r.id (release_ref (extra_parent r) (release_ref r.parent s.records));
  resident_bytes = if r.resident then s.resident_bytes - r.host_bytes else s.resident_bytes;
}

-- `record.last_used = self._next_tick()`
unfoldable pub touch : String → Store → Store
touch id s = record s {
  tick = s.tick + 1;
  records = modify id (λ r. record r { last_used = s.tick + 1 }) s.records;
}

abbrev pub is_expired_leaf : ℕ → SnapshotRecord → Bool
is_expired_leaf now r = leb r.expires_at now && (eqb r.leases 0 && eqb r.refcount 0)

-- `next((record for record in records if test(record)), None)`
unfoldable pub first : (SnapshotRecord → Bool) → List SnapshotRecord → Option SnapshotRecord
first test [] = none
first test (r ∷ rs) = if test r then some r else first test rs

module _ (env : Env) where
  abbrev pub now : Do env ℕ
  now = ask env.clock

  -- `get` past the lookup in the dict
  unfoldable pub get_found : SnapshotRecord → Do env SnapshotRecord
  get_found r = do
    t ← now
    if leb r.expires_at t && eqb r.refcount 0
        then raise Error.not_found
        else do writes (touch r.id); reads (λ s. record r { last_used = s.tick })

  -- `get`
  unfoldable pub get : String → Do env SnapshotRecord
  unfolding get_found
  get id = do
    found ← reads (λ s. find id s.records)
    elim found [ none ↦ raise Error.not_found | some r ↦ get_found r ]

  -- `if record.disk_dir is not None: _remove_tree(record.disk_dir)`
  abbrev pub remove_dir : SnapshotRecord → Do env (Unit {0})
  remove_dir r = elim r.disk_dir [ none ↦ pure tt | some dir ↦ call (env.remove_tree dir) ]

  abbrev pub drop_if_resident : SnapshotRecord → Do env ℕ
  drop_if_resident r = if r.resident then suppress_not_found (call (env.drop r.id)) else pure 0

  -- the body of the loop of `expire`, past its `return`
  unfoldable pub reclaim : SnapshotRecord → Do env (Unit {0})
  reclaim r = do drop_if_resident r; remove_dir r; writes (forget r)

  -- The loop of `expire`. A round takes a record away, so there are at most as many rounds as
  -- records, and the fuel is their number.
  unfoldable pub expire_loop : ℕ → ℕ → Do env (Unit {0})
  expire_loop zero t = pure tt
  expire_loop (suc fuel) t =
      let rest = expire_loop fuel t in
      do
        found ← reads (λ s. first (is_expired_leaf t) s.records)
        elim found [ none ↦ pure tt | some r ↦ reclaim r >> rest ]

  -- `expire`
  unfoldable pub expire : Do env (Unit {0})
  expire = do t ← now; fuel ← reads (λ s. length s.records); expire_loop fuel t

-- ===== src/Snapshots/Store/Rule/Loops.antt =====
-- A predicate that survives every write survives `expire` and `get`, whether they return or raise,
-- and whatever the world outside answers.
use riderless.Prelude.{
  ℕ, zero, suc, ◌+◌, ◌≡◌, refl, String, ◌&&◌, Option, none, some, arith, leb, eqb, eq_iff, length,
}
use riderless.Action.{pure, raise, ◌>>◌}
use riderless.Action.Triple.{
  Triple, Triple-then, Triple-pure, Triple-raise, Triple-if, Triple-weaken,
}
use riderless.Snapshots.Errors.{Error}
use riderless.Snapshots.Store.Types.{SnapshotRecord, Store}
use riderless.Snapshots.Store.Dict.{find}
use riderless.Snapshots.Store.Dict.Laws.{find-id, find-modify}
use riderless.Snapshots.Store.Env.{Env, call, ask, reads, writes, suppress_not_found}
use riderless.Snapshots.Store.Env.Rules.{
  On, Keeps, Keeps-then, Keeps-bind, Keeps-call, Keeps-ask, Keeps-suppress, Triple-reads,
  Triple-writes,
}
use riderless.Snapshots.Store.Core.{
  is_expired_leaf, first, forget, touch, get_found, get, remove_dir, drop_if_resident, reclaim,
  expire_loop, expire,
}
use riderless.Snapshots.Store.Rule.{Alike, Current, Current-of_find, test-first, find-first}
use riderless.Snapshots.Store.Rule.Safe.{Stable, Safe, Inv, Neutral-Inv, forget-Inv}

-- The object that the code holds is a record of the store.
abbrev pub Holding : (Store → Type 0) → SnapshotRecord → Store → Type 0
Holding P r s = Inv P s × Current r s.records

module _ (env : Env) where
  pub remove_dir-Keeps :
      (Q : Store → Type 0) (r : SnapshotRecord) → Keeps {env = env} Q (remove_dir env r)
  remove_dir-Keeps Q r = go r.disk_dir
    where
      go :
          (o : Option String)
          → Keeps {env = env} Q (elim o [ none ↦ pure tt | some dir ↦ call (env.remove_tree dir) ])
      go none = Triple-pure tt (λ s h. h)
      go (some dir) = Keeps-call Q (env.remove_tree dir)

  pub drop_if_resident-Keeps :
      (Q : Store → Type 0) (r : SnapshotRecord) → Keeps {env = env} Q (drop_if_resident env r)
  drop_if_resident-Keeps Q r =
      Triple-if r.resident (suppress_not_found (call (env.drop r.id))) (pure 0)
        (λ _. Keeps-suppress Q (call (env.drop r.id)) (Keeps-call Q (env.drop r.id)))
        (λ _. Triple-pure 0 (λ s h. h))

module _ (env : Env) (P : Store → Type 0) (safe : Safe P) where
  pub reclaim-keeps :
      (r : SnapshotRecord)
      → r.leases ≡ 0
      → r.refcount ≡ 0
      → Triple (On (Holding P r)) (reclaim env r) (λ _. On (Inv P)) (λ _. On (Inv P))
  unfolding reclaim
  reclaim-keeps r l n =
      Keeps-then (Holding P r) (Inv P) (drop_if_resident env r) _
        (drop_if_resident-Keeps env (Holding P r) r) (λ s h. h.0)
        (Keeps-then (Holding P r) (Inv P) (remove_dir env r) _
          (remove_dir-Keeps env (Holding P r) r) (λ s h. h.0)
          (Triple-writes (Holding P r) (Inv P) (forget r) (λ s h. forget-Inv safe s r h.1 l n h.0)))

  pub expire_loop-Keeps : (fuel t : ℕ) → Keeps {env = env} (Inv P) (expire_loop env fuel t)
  unfolding expire_loop
  expire_loop-Keeps zero t = Triple-pure tt (λ s h. h)
  expire_loop-Keeps (suc fuel) t =
      Triple-reads (Inv P) (λ s. first (is_expired_leaf t) s.records) _
        (go (expire_loop-Keeps fuel t))
    where
      go :
          Keeps {env = env} (Inv P) (expire_loop env fuel t)
          → (o : Option SnapshotRecord)
          → Triple {E = Error}
              (On {env = env} (λ s. Inv P s × (first (is_expired_leaf t) s.records ≡ o)))
              (elim o [ none ↦ pure tt | some r ↦ reclaim env r >> expire_loop env fuel t ])
              (λ _. On (Inv P))
              (λ _. On (Inv P))
      go ih none = Triple-pure tt (λ s h. h.0)
      go ih (some r) = record {
        holds = λ s h.
            let e = test-first (is_expired_leaf t) s.store.records r h.1 in
            (Triple-then (λ _. On (Inv P)) (reclaim env r) (expire_loop env fuel t)
                (reclaim-keeps r (ground (arith, e)) (ground (arith, e))) (λ _. ih)).holds
              s
              (
                h.0,
                Current-of_find r s.store.records
                    (find-first (is_expired_leaf t) s.store.records r h.0.unique h.1),
              );
      }

  pub expire-Keeps : Keeps {env = env} (Inv P) (expire env)
  unfolding expire
  expire-Keeps =
      Keeps-bind (Inv P) (Inv P) (ask env.clock) _ (Keeps-ask (Inv P) env.clock) (λ s h. h)
        λ t.
          Triple-reads (Inv P) (λ s. length s.records) _
            λ n.
              Triple-weaken (expire_loop env n t) (λ s h. h.0) (λ a s h. h) (λ e s h. h)
                (expire_loop-Keeps n t)

module _ (env : Env) (P : Store → Type 0) (stable : Stable P) where
  -- `get` returns the record of the store under that id.
  pub get-keeps :
      (id : String)
      → Triple
          (On {env = env} (Inv P))
          (get env id)
          (λ r. On (λ s. Holding P r s × (r.id ≡ id)))
          (λ _. On (Inv P))
  unfolding get get_found touch
  get-keeps id = Triple-reads (Inv P) (λ s. find id s.records) _ go
    where
      bump : ℕ → SnapshotRecord → SnapshotRecord
      bump t x = record x { last_used = t }

      plain : (t : ℕ) (x : SnapshotRecord) → Alike (bump t x) x
      plain t x = record {
        id = refl;
        parent = refl;
        context_parent = refl;
        resident = refl;
        host_bytes = refl;
        leases = refl;
        refcount = refl;
      }

      held :
          (s : Store) (r : SnapshotRecord)
          → Inv P s
          → find id s.records ≡ some r
          → Holding P (bump (s.tick + 1) r) (touch r.id s) × (r.id ≡ id)
      held s r h e =
          let k = find-id id s.records r e in
          (
            (
              Neutral-Inv stable s r.id (bump (s.tick + 1)) (s.tick + 1) (plain (s.tick + 1)) h,
              record {
                held = bump (s.tick + 1) r;
                found = ground (
                  arith,
                  find-modify (bump (s.tick + 1)) (λ x. refl) r.id r.id s.records,
                  eq_iff r.id r.id,
                  k,
                  e,
                );
                alike = plain (s.tick + 1) (bump (s.tick + 1) r);
              },
            ),
            k,
          )

      go :
          (o : Option SnapshotRecord)
          → Triple
              (On {env = env} (λ s. Inv P s × (find id s.records ≡ o)))
              (elim o [ none ↦ raise Error.not_found | some r ↦ get_found env r ])
              (λ r. On (λ s. Holding P r s × (r.id ≡ id)))
              (λ _. On (Inv P))
      go none = Triple-raise Error.not_found (λ s h. h.0)
      go (some r) =
          Keeps-bind (λ s. Inv P s × (find id s.records ≡ some r)) (Inv P) (ask env.clock) _
            (Keeps-ask (λ s. Inv P s × (find id s.records ≡ some r)) env.clock) (λ s h. h.0)
            λ t.
              Triple-if (leb r.expires_at t && eqb r.refcount 0) (raise Error.not_found)
                (writes (touch r.id) >> reads (λ s. record r { last_used = s.tick }))
                (λ _. Triple-raise Error.not_found (λ s h. h.0))
                (λ _. record { holds = λ s h. held s.store r h.0 h.1 })

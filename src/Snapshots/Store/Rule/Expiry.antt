-- ===== src/Snapshots/Store/Rule/Expiry.antt =====
-- The rounds of `expire`, their fuel, and the expired leaves.
use riderless.Prelude.{
  ℕ, zero, suc, ◌+◌, ◌≤◌, ◌≡◌, refl, Option, none, some, List, [], ◌∷◌, arith, length,
}
use riderless.Action.{pure, ◌>>◌}
use riderless.Action.Triple.{Meets, Triple, Triple-then, Triple-pure}
use riderless.Snapshots.Errors.{Error}
use riderless.Snapshots.Store.Types.{SnapshotRecord, Store}
use riderless.Snapshots.Store.Dict.{pop}
use riderless.Snapshots.Store.Dict.Laws.{total, total-pop}
use riderless.Snapshots.Store.Env.{Env, Sys}
use riderless.Snapshots.Store.Env.Rules.{On, Keeps-then, Triple-reads, Triple-writes}
use riderless.Snapshots.Store.Core.{
  is_expired_leaf, first, forget, release_ref, extra_parent, remove_dir, drop_if_resident, reclaim,
  expire_loop, expire,
}
use riderless.Snapshots.Store.Rule.{Current, Current-of_find, test-first, find-first}
use riderless.Snapshots.Store.Rule.Safe.{Safe, Inv, forget-Inv}
use riderless.Snapshots.Store.Rule.Loops.{remove_dir-Keeps, drop_if_resident-Keeps}
use riderless.Snapshots.Store.Accounting.Bytes.{total-release_ref, released_current}

abbrev one : SnapshotRecord → ℕ
one r = 1

length-total : (rs : List SnapshotRecord) → length rs ≡ total one rs
unfolding total
length-total [] = refl
length-total (r ∷ rs) = omega (arith, length-total rs)

-- `forget` takes one record away.
pub length-forget :
    (s : Store) (r : SnapshotRecord)
    → Current r s.records
    → length (forget r s).records + 1 ≡ length s.records
unfolding forget
length-forget s r c =
    let once = release_ref r.parent s.records in
    let twice = release_ref (extra_parent r) once in
    let (y, found, _, _, _, _) =
      released_current r.parent (extra_parent r) r.id s.records c.held c.found in
    omega (
      arith,
      length-total s.records,
      length-total (pop r.id twice),
      total-pop one r.id twice y found,
      total-release_ref one (λ x. refl) r.parent s.records,
      total-release_ref one (λ x. refl) (extra_parent r) once,
    )

module _ (env : Env) (P : Store → Type 0) (safe : Safe P) where
  -- The rounds that are left suffice.
  abbrev pub Left : ℕ → Store → Type 0
  Left fuel s = Inv P s × (length s.records ≤ fuel)

  pub reclaim-Left :
      (r : SnapshotRecord) (fuel : ℕ)
      → r.leases ≡ 0
      → r.refcount ≡ 0
      → Triple
          (On (λ s. Left (suc fuel) s × Current r s.records))
          (reclaim env r)
          (λ _. On (Left fuel))
          (λ _. On (Inv P))
  unfolding reclaim
  reclaim-Left r fuel l n =
      let H = λ (s : Store). Left (suc fuel) s × Current r s.records in
      Keeps-then H (Inv P) (drop_if_resident env r) _ (drop_if_resident-Keeps env H r)
        (λ s h. h.0.0)
        (Keeps-then H (Inv P) (remove_dir env r) _ (remove_dir-Keeps env H r) (λ s h. h.0.0)
          (Triple-writes H (Left fuel) (forget r) (λ s h.
            (forget-Inv safe s r h.1 l n h.0.0, omega (arith, length-forget s r h.1, h.0.1)))))

  pub expire_loop-clears :
      (fuel t : ℕ)
      → Triple
          (On {env = env} (Left fuel))
          (expire_loop env fuel t)
          (λ _. On (λ s. Inv P s × (first (is_expired_leaf t) s.records ≡ none)))
          (λ _. On (Inv P))
  unfolding expire_loop first
  expire_loop-clears zero t = Triple-pure tt (λ s h. (h.0, empty s.store.records h.1))
    where
      empty : (rs : List SnapshotRecord) → length rs ≤ 0 → first (is_expired_leaf t) rs ≡ none
      empty [] h = refl
      empty (r ∷ rs) h = absurd (omega arith)
  expire_loop-clears (suc fuel) t =
      Triple-reads (Left (suc fuel)) (λ s. first (is_expired_leaf t) s.records) _
        (go (expire_loop-clears fuel t))
    where
      go :
          Triple
            (On {env = env} (Left fuel))
            (expire_loop env fuel t)
            (λ _. On (λ s. Inv P s × (first (is_expired_leaf t) s.records ≡ none)))
            (λ _. On (Inv P))
          → (o : Option SnapshotRecord)
          → Triple {E = Error}
              (On {env = env} (λ s. Left (suc fuel) s × (first (is_expired_leaf t) s.records ≡ o)))
              (elim o [ none ↦ pure tt | some r ↦ reclaim env r >> expire_loop env fuel t ])
              (λ _. On (λ s. Inv P s × (first (is_expired_leaf t) s.records ≡ none)))
              (λ _. On (Inv P))
      go ih none = Triple-pure tt (λ s h. (h.0.0, h.1))
      go ih (some r) = record {
        holds = λ s h.
            let e = test-first (is_expired_leaf t) s.store.records r h.1 in
            (Triple-then (λ _. On (Left fuel)) (reclaim env r) (expire_loop env fuel t)
                (reclaim-Left r fuel (ground (arith, e)) (ground (arith, e))) (λ _. ih)).holds
              s
              (
                h.0,
                Current-of_find r s.store.records
                    (find-first (is_expired_leaf t) s.store.records r h.0.0.unique h.1),
              );
      }

  -- With the clock's reading at the start, no leaf that had expired by then is left.
  pub expire-clears :
      (s : Sys env)
      → Inv P s.store
      → Meets
          (λ _.
            On (λ u. Inv P u × (first (is_expired_leaf (env.clock s.world).0) u.records ≡ none)))
          (λ _. On (Inv P))
          (expire env s)
  unfolding expire
  expire-clears s h =
      let (t, w) = env.clock s.world in
      (expire_loop-clears (length s.store.records) t).holds (record s { world = w })
        (h, omega arith)

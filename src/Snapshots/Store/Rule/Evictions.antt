-- ===== src/Snapshots/Store/Rule/Evictions.antt =====
-- A predicate that survives every write survives `_evict_one` and `_enforce_budget`, whatever the
-- world outside answers; and where `_enforce_budget` returns, the new bytes fit.
use riderless.Prelude.{
  ℕ, zero, suc, ◌≡◌, subst, ◌∙◌, true, false, some, List, [], ◌∷◌, All, arith, ltb, eqb,
}
use riderless.Action.{pure, raise}
use riderless.Action.Triple.{
  Triple, Triple-bind, Triple-then, Triple-pure, Triple-raise, Triple-if, Triple-weaken,
}
use riderless.Snapshots.Errors.{Error}
use riderless.Snapshots.Schema.{is_disk}
use riderless.Snapshots.Store.Types.{SnapshotRecord, Store}
use riderless.Snapshots.Store.Dict.{find}
use riderless.Snapshots.Store.Env.{Env, call, suppress_not_found}
use riderless.Snapshots.Store.Env.Rules.{
  On, Keeps, Keeps-then, Keeps-call, Keeps-suppress, Triple-reads,
}
use riderless.Snapshots.Store.Core.{expire}
use riderless.Snapshots.Store.Persist.{persist}
use riderless.Snapshots.Store.Budget.{
  is_candidate, candidates, select, fits, evict_to_disk, evict_from_memory, evict_first, evict_one,
  budget_loop, enforce_budget, count_resident,
}
use riderless.Snapshots.Store.Rule.{Current-of_find, Found-All, All-select, All-sort}
use riderless.Snapshots.Store.Rule.Safe.{Safe, Inv, forget-Inv, page_out-Inv}
use riderless.Snapshots.Store.Rule.Loops.{Holding, expire-Keeps}
use riderless.Snapshots.Store.Rule.Publishing.{persist-Keeps}

-- A record that `_evict_one` may take.
abbrev pub Chosen : List SnapshotRecord → SnapshotRecord → Type 0
Chosen rs r = (find r.id rs ≡ some r) × (is_candidate rs r ≡ true)

module _ (rs : List SnapshotRecord) (r : SnapshotRecord) (h : is_candidate rs r ≡ true) where
  pub candidate-resident : r.resident ≡ true
  unfolding is_candidate
  candidate-resident = ground (arith, h)

  pub candidate-leases : r.leases ≡ 0
  unfolding is_candidate
  candidate-leases = ground (arith, h)

pub candidates-Chosen :
    (rs : List SnapshotRecord)
    → All (λ r. find r.id rs ≡ some r) rs
    → All (Chosen rs) (candidates rs)
unfolding candidates
candidates-Chosen rs h =
    All-sort (Chosen rs) (select (is_candidate rs) rs)
      (All-select (λ r. find r.id rs ≡ some r) (is_candidate rs) rs h)

module _ (env : Env) (P : Store → Type 0) (safe : Safe P) where
  evict_to_disk-keeps :
      (r : SnapshotRecord)
      → r.leases ≡ 0
      → r.resident ≡ true
      → Triple (On (Holding P r)) (evict_to_disk env r) (λ _. On (Inv P)) (λ _. On (Inv P))
  unfolding evict_to_disk
  evict_to_disk-keeps r l h =
      let H = Holding P r in
      Keeps-then H (Inv P) (persist env r) _ (persist-Keeps env P safe.stable r) (λ s k. k.0)
        (Keeps-then H (Inv P) (suppress_not_found (call (env.drop r.id))) _
          (Keeps-suppress H (call (env.drop r.id)) (Keeps-call H (env.drop r.id))) (λ s k. k.0)
          (record { holds = λ s k. page_out-Inv safe s.store r k.1 l h k.0 }))

  evict_from_memory-keeps :
      (r : SnapshotRecord)
      → r.leases ≡ 0
      → r.refcount ≡ 0
      → Triple (On (Holding P r)) (evict_from_memory env r) (λ _. On (Inv P)) (λ _. On (Inv P))
  unfolding evict_from_memory
  evict_from_memory-keeps r l n =
      let H = Holding P r in
      Keeps-then H (Inv P) (call (env.drop r.id)) _ (Keeps-call H (env.drop r.id)) (λ s k. k.0)
        (record { holds = λ s k. forget-Inv safe s.store r k.1 l n k.0 })

  evict_first-keeps :
      (rs : List SnapshotRecord)
      → Triple
          (On {env = env} (λ s. Inv P s × All (Chosen s.records) rs))
          (evict_first env rs)
          (λ _. On (Inv P))
          (λ _. On (Inv P))
  unfolding evict_first
  evict_first-keeps [] = Triple-pure false (λ s h. h.0)
  evict_first-keeps (r ∷ rs) =
      let C = λ (s : Store). Inv P s × All (Chosen s.records) (r ∷ rs) in
      Triple-if (is_disk r.persistence) (evict_to_disk env r) _
        (λ _. record {
          holds = λ s h.
              let c = h.1.0.1 in
              (evict_to_disk-keeps r (candidate-leases s.store.records r c)
                  (candidate-resident s.store.records r c)).holds
                s (h.0, Current-of_find r s.store.records h.1.0.0);
        })
        (λ _.
          Triple-if (eqb r.refcount 0) (evict_from_memory env r) (evict_first env rs)
            (λ e. record {
              holds = λ s h.
                  (evict_from_memory-keeps r (candidate-leases s.store.records r h.1.0.1)
                      (ground (arith, e))).holds
                    s (h.0, Current-of_find r s.store.records h.1.0.0);
            })
            (λ _.
              Triple-weaken (evict_first env rs) (λ s h. (h.0, h.1.1)) (λ a s h. h) (λ e s h. h)
                (evict_first-keeps rs)))

  pub evict_one-Keeps : Keeps (Inv P) (evict_one env)
  unfolding evict_one
  evict_one-Keeps =
      Triple-reads (Inv P) (λ s. candidates s.records) (evict_first env)
        λ chosen. record {
          holds = λ s h. (evict_first-keeps chosen).holds s (
            h.0,
            subst (All (Chosen s.store.records)) h.1
                (candidates-Chosen s.store.records (Found-All s.store.records h.0.unique)),
          );
        }

  abbrev pub Room : ℕ → Store → Type 0
  Room incoming s = Inv P s × (fits incoming s ≡ true)

  budget_loop-keeps :
      (fuel incoming : ℕ)
      → Triple
          (On {env = env} (Inv P))
          (budget_loop env fuel incoming)
          (λ _. On (Room incoming))
          (λ _. On (Inv P))
  unfolding budget_loop
  budget_loop-keeps zero incoming = Triple-reads (Inv P) (fits incoming) _ λ enough.
      Triple-if enough (pure tt) (raise Error.store_full)
        (λ e. Triple-pure tt (λ s h. (h.0, h.1 ∙ e)))
        (λ _. Triple-raise Error.store_full (λ s h. h.0))
  budget_loop-keeps (suc fuel) incoming =
      let ih = budget_loop-keeps fuel incoming in
      Triple-reads (Inv P) (fits incoming) _ λ enough.
        Triple-if enough (pure tt) _ (λ e. Triple-pure tt (λ s h. (h.0, h.1 ∙ e)))
          λ _.
            Triple-bind (λ _. On (Inv P)) (evict_one env) _
              (Triple-weaken (evict_one env) (λ s h. h.0) (λ a s h. h) (λ e s h. h) evict_one-Keeps)
              λ evicted.
                Triple-if evicted (budget_loop env fuel incoming) (raise Error.store_full) (λ _. ih)
                  (λ _. Triple-raise Error.store_full (λ s h. h))

  pub enforce_budget-keeps :
      (incoming : ℕ)
      → Triple
          (On (Inv P))
          (enforce_budget env incoming)
          (λ _. On (Room incoming))
          (λ _. On (Inv P))
  unfolding enforce_budget
  enforce_budget-keeps incoming =
      Triple-reads (Inv P) (λ s. s.config.host_bytes) _
        λ budget.
          Triple-if (ltb budget incoming) (raise Error.store_full) _
            (λ _. Triple-raise Error.store_full (λ s h. h.0))
            λ _.
              Triple-then (λ _. On (Inv P)) (expire env) _
                (Triple-weaken (expire env) (λ s h. h.0) (λ a s h. h) (λ e s h. h)
                  (expire-Keeps env P safe))
                λ _.
                  Triple-reads (Inv P) (λ s. count_resident s.records) _
                    λ n.
                      Triple-weaken (budget_loop env n incoming) (λ s h. h.0) (λ a s h. h)
                        (λ e s h. h) (budget_loop-keeps n incoming)

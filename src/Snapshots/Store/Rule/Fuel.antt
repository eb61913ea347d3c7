-- ===== src/Snapshots/Store/Rule/Fuel.antt =====
-- The rounds of `expire` are as many as the code makes: more fuel changes nothing.
use riderless.Prelude.{
  ℕ, zero, suc, ◌≤◌, ◌≡◌, refl, sym, Option, none, some, List, [], ◌∷◌, arith, length,
}
use riderless.Action.{Outcome, ok, err, pure, continue, ◌>>◌}
use riderless.Action.Triple.{Meets}
use riderless.Snapshots.Errors.{Error}
use riderless.Snapshots.Store.Types.{SnapshotRecord}
use riderless.Snapshots.Store.Env.{Env, Sys, Do}
use riderless.Snapshots.Store.Env.Rules.{On}
use riderless.Snapshots.Store.Core.{is_expired_leaf, first, reclaim, expire_loop, expire}
use riderless.Snapshots.Store.Rule.{Current-of_find, test-first, find-first}
use riderless.Snapshots.Store.Rule.Expiry.{Left, reclaim-Left}
use riderless.Snapshots.Store.Accounting.{IsSound}
use riderless.Snapshots.Store.Accounting.Presence.{IsSound-Safe}
use riderless.Snapshots.Store.Registry.Soundness.{Sound}

module _ (env : Env) (t : ℕ) where
  -- a round of the loop, from the expired leaf that was found
  abbrev Round :
      Sys env → Do env (Unit {0}) → Option SnapshotRecord → Outcome Error (Unit {0}) × Sys env
  Round s rest o =
      (elim o as (λ _. Do env (Unit {0})) [ none ↦ pure tt | some r ↦ reclaim env r >> rest ]) s

  empty :
      (s : Sys env) (rest : Do env (Unit {0})) (rs : List SnapshotRecord)
      → length rs ≤ 0
      → Round s rest (first (is_expired_leaf t) rs) ≡ (ok tt, s)
  unfolding first
  empty s rest [] le = refl
  empty s rest (r ∷ rs) le = absurd (omega arith)

  abbrev IsSame : ℕ → ℕ → Type 0
  IsSame m n =
      (s : Sys env)
      → Sound s.store
      → length s.store.records ≤ m
      → length s.store.records ≤ n
      → expire_loop env m t s ≡ expire_loop env n t s

  Round-cong :
      (m n : ℕ)
      → IsSame m n
      → (s : Sys env) → Sound s.store
      → length s.store.records ≤ suc m
      → length s.store.records ≤ suc n
      → (o : Option SnapshotRecord) → first (is_expired_leaf t) s.store.records ≡ o
      → Round s (expire_loop env m t) o ≡ Round s (expire_loop env n t) o
  Round-cong m n ih s h p q none e = refl
  Round-cong m n ih s h p q (some r) e =
      let expired = test-first (is_expired_leaf t) s.store.records r e in
      let here =
        Current-of_find r s.store.records
          (find-first (is_expired_leaf t) s.store.records r h.unique e) in
      after (reclaim env r s)
        ((reclaim-Left env IsSound IsSound-Safe r m (ground (arith, expired))
            (ground (arith, expired))).holds
          s ((h, p), here))
        ((reclaim-Left env IsSound IsSound-Safe r n (ground (arith, expired))
            (ground (arith, expired))).holds
          s ((h, q), here))
    where
      after :
          (x : Outcome Error (Unit {0}) × Sys env)
          → Meets (λ _. On (Left env IsSound IsSound-Safe m)) (λ _. On Sound) x
          → Meets (λ _. On (Left env IsSound IsSound-Safe n)) (λ _. On Sound) x
          → continue (λ _. expire_loop env m t) x ≡ continue (λ _. expire_loop env n t) x
      after (ok x, u) k l = ih u k.0 k.1 l.1
      after (err x, u) k l = refl

  loop-IsSame : (m n : ℕ) → IsSame m n
  unfolding expire_loop
  loop-IsSame zero zero s h p q = refl
  loop-IsSame zero (suc n) s h p q = sym (empty s (expire_loop env n t) s.store.records p)
  loop-IsSame (suc m) zero s h p q = empty s (expire_loop env m t) s.store.records q
  loop-IsSame (suc m) (suc n) s h p q =
      Round-cong m n (loop-IsSame m n) s h p q (first (is_expired_leaf t) s.store.records) refl

-- From a sound store the loop of `expire`, which has no bound in the code, ends within as many rounds as
-- there are records: with any fuel that is enough it does what `expire` does.
pub expire-terminates :
    (env : Env) (fuel : ℕ) (s : Sys env)
    → Sound s.store
    → length s.store.records ≤ fuel
    → expire env s
      ≡ expire_loop env fuel (env.clock s.world).0 (record s { world = (env.clock s.world).1 })
unfolding expire
expire-terminates env fuel s h le =
    loop-IsSame env (env.clock s.world).0 (length s.store.records) fuel
      (record s { world = (env.clock s.world).1 }) h (omega arith) le

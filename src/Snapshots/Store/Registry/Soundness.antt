-- ===== src/Snapshots/Store/Registry/Soundness.antt =====
-- Soundness of the store, and `delete`.
use riderless.Prelude.{String, ◌≡◌, refl, subst, Bool, true, false, none, arith, eqb}
use riderless.Action.{lift, ◌>>◌}
use riderless.Action.Triple.{Triple, Triple-bind}
use riderless.Snapshots.Errors.{Error}
use riderless.Snapshots.Store.Types.{Store}
use riderless.Snapshots.Store.Dict.{find}
use riderless.Snapshots.Store.Env.{Env, Sys, Do, call, suppress_not_found}
use riderless.Snapshots.Store.Env.Rules.{On, Keeps-then, Keeps-bind, Keeps-call, Keeps-suppress}
use riderless.Snapshots.Store.Core.{forget, get, remove_dir}
use riderless.Snapshots.Store.Persist.{guard}
use riderless.Snapshots.Store.Rule.Safe.{Inv, forget-Inv}
use riderless.Snapshots.Store.Rule.Loops.{Holding, get-keeps, remove_dir-Keeps}
use riderless.Snapshots.Store.Accounting.{IsSound}
use riderless.Snapshots.Store.Accounting.Presence.{IsSound-Safe, forget-IsAbsent_self}
use riderless.Snapshots.Store.Registry.{delete}

-- The invariant of the store, with distinct ids.
abbrev pub Sound : Store → Type 0
Sound = Inv IsSound

module _ {env : Env} {A : Type 0} {post : A → Sys env → Type 0}
    {fail : Error → Sys env → Type 0} where
  -- A test that raises where it fails.
  pub Triple-guard :
      (P : Store → Type 0) (b : Bool) (e : Error) (m : Do env A)
      → ((s : Sys env) → P s.store → fail e s)
      → (b ≡ true → Triple (On P) m post fail)
      → Triple (On P) (lift (guard b e) >> m) post fail
  Triple-guard P true e m w t = record { holds = (t refl).holds }
  Triple-guard P false e m w t = record { holds = w }

module _ (env : Env) where
  -- `delete` of a snapshot that nothing leases or references leaves a sound store without it. Where
  -- it raises, the store is sound too.
  pub delete-Sound :
      (id : String)
      → Triple
          (On {env = env} Sound)
          (delete env id)
          (λ _. On (λ s. Sound s × (find id s.records ≡ none)))
          (λ _. On Sound)
  unfolding delete
  delete-Sound id =
      Triple-bind (λ r. On (λ s. Holding IsSound r s × (r.id ≡ id))) (get env id) _
        (get-keeps env IsSound IsSound-Safe.stable id)
        λ r.
          let H = λ (s : Store). Holding IsSound r s × (r.id ≡ id) in
          Triple-guard H (eqb r.leases 0) Error.in_use _ (λ s h. h.0.0)
            λ l.
              Triple-guard H (eqb r.refcount 0) Error.in_use _ (λ s h. h.0.0)
                λ n.
                  Keeps-bind H Sound (suppress_not_found (call (env.drop id))) _
                    (Keeps-suppress H (call (env.drop id)) (Keeps-call H (env.drop id)))
                    (λ s h. h.0.0)
                    λ freed.
                      Keeps-then H Sound (remove_dir env r) _ (remove_dir-Keeps env H r)
                        (λ s h. h.0.0)
                        (record {
                          holds = λ s h. (
                            forget-Inv IsSound-Safe s.store r h.0.1 (ground (arith, l))
                                (ground (arith, n)) h.0.0,
                            subst (λ k. find k (forget r s.store).records ≡ none) h.1
                                (forget-IsAbsent_self s.store r h.0.0.unique),
                          );
                        })

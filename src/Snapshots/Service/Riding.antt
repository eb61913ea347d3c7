-- ===== src/Snapshots/Service/Riding.antt =====
-- What a response of `ride` has of the snapshot and of the worker's result.
use riderless.Prelude.{ℕ, String, ◌≡◌, refl, subst, true, not, [], ◌∷◌}
use riderless.Action.{ok, lift, pure}
use riderless.Action.Triple.{Meets, Triple-if}
use riderless.Mapping.Arithmetic.{Floats}
use riderless.Snapshots.Errors.{Error}
use riderless.Snapshots.Compiler.{CompiledPrompt}
use riderless.Snapshots.Wire.Branches.{WorkerRide, ride_ok}
use riderless.Snapshots.Wire.Requests.{RiderRequest}
use riderless.Snapshots.Store.Types.{SnapshotRecord}
use riderless.Snapshots.Store.Env.{Env, Sys, call}
use riderless.Snapshots.Store.Registry.{restore}
use riderless.Snapshots.Service.{Service}
use riderless.Snapshots.Service.Office.{Backend, Settings, parts, in_store}
use riderless.Snapshots.Service.Planning.{BranchPlan, plan}
use riderless.Snapshots.Service.Evaluations.{
  RiderResponse, compile_prompt, generate, check_ride, ride_response, ride_in, ride,
}
use riderless.Snapshots.Service.Entries.{Triple-Any}
use riderless.Snapshots.Service.Rides.{Accounts, check_ride-Accounts}
use riderless.Snapshots.Service.Returns.{
  Returns, Returns-self, Returns-raise, Returns-lift, Returns-bind, Returns-in_store,
  Returns-with_lease, Returns-serialized, Returns-result,
}

module _ (env : Env) (fl : Floats) (backend : Backend env fl) (settings : Settings) where
  -- A restored snapshot and a result of the worker on it, for the prompt and the bounds of the request.
  pub record Generated (request : RiderRequest) (p : BranchPlan fl) (branch : CompiledPrompt)
      (found : SnapshotRecord × WorkerRide fl) : Type 0 where
    pub store : Sys env
    pub restored : (restore env p.effective_parent store).0 ≡ ok found.0
    pub world : env.World
    pub generated :
        (backend.ride p.effective_parent branch request.max_tokens request.top_logits world).0
        ≡ ok found.1

  -- A response of `ride` with what it was made from.
  pub record Rode (request : RiderRequest) (response : RiderResponse fl) : Type 0 where
    pub plan : BranchPlan fl
    pub branch : CompiledPrompt
    pub compiled : compile_prompt fl plan request.prompt ≡ ok branch
    pub parent : SnapshotRecord
    pub result : WorkerRide fl
    pub made : Generated request plan branch (parent, result)
    pub same : response ≡ ride_response env fl backend settings plan result
    pub accounts : Accounts fl parent result response

  generate-Generated :
      (request : RiderRequest) (p : BranchPlan fl) (branch : CompiledPrompt)
      → Returns (Generated request p branch) (generate env fl backend settings request p branch)
  unfolding generate
  generate-Generated request p branch =
      Returns-bind (λ parent. (s : Sys env) × ((restore env p.effective_parent s).0 ≡ ok parent))
        (restore env p.effective_parent) _ (Returns-self (restore env p.effective_parent))
        λ parent (s, e).
          Returns-bind
            (λ r.
              (t : Sys env) × ((backend.ride p.effective_parent branch request.max_tokens
                  request.top_logits t.world).0
                ≡ ok r))
            _ (λ r. pure (parent, r))
            (Returns-self (
              call {env = env}
                (backend.ride p.effective_parent branch request.max_tokens request.top_logits)))
            λ r (t, f). record {
              holds = λ u x. record { store = s; restored = e; world = t.world; generated = f };
            }

  -- Where the backend returns only rides that `WorkerRide` accepts, a response of `ride` is made of a ride that
  -- the backend returns, in some world, for the request's prompt and bounds on a snapshot that `restore`
  -- returns, from some store: it reports the tokens of that snapshot as reused and, with the suffix, the whole
  -- prompt; it has as many token ids as it counts; its step trace is empty, or has one entry for each token,
  -- or one more; and the worker restored the snapshot and did not run its stock model.
  pub ride-Rode :
      (request : RiderRequest) (s t : Service (parts env fl backend settings))
      (response : RiderResponse fl)
      → ((id : String) (branch : CompiledPrompt) (max_tokens top : ℕ) (w : env.World)
          → Meets {E = Error}
              (λ r _. ride_ok fl r ≡ true)
              (λ _ _. Unit {0})
              (backend.ride id branch max_tokens top w))
      → ride env fl backend settings request s ≡ (ok response, t)
      → Rode request response
  unfolding ride ride_in
  ride-Rode request s t response valid e =
      Returns-result (ride env fl backend settings request) s t response rode e
    where
      valid_ride :
          (p : BranchPlan fl) (branch : CompiledPrompt) (found : SnapshotRecord × WorkerRide fl)
          → Generated request p branch found
          → ride_ok fl found.1 ≡ true
      valid_ride p branch found g =
          let ran =
            backend.ride p.effective_parent branch request.max_tokens request.top_logits g.world in
          subst (λ o. Meets {E = Error} (λ r _. ride_ok fl r ≡ true) (λ _ _. Unit {0}) (o, ran.1))
            g.generated
            (valid p.effective_parent branch request.max_tokens request.top_logits g.world)

      rode : Returns (Rode request) (ride env fl backend settings request)
      rode = Returns-serialized (parts env fl backend settings) _ λ hello ref.
          Triple-if (not hello.rider_mode) _ _ (λ _. Returns-raise Error.capability_unavailable)
            (λ _.
              Returns-bind (λ _. Unit {0})
                (in_store env fl backend settings ref
                  (plan env fl backend settings request.snapshot))
                _ (Triple-Any _)
                λ p _.
                  Returns-bind (λ branch. compile_prompt fl p request.prompt ≡ ok branch) _ _
                    (Returns-lift _ (λ a h. h))
                    λ branch compiled.
                      Returns-bind (Generated request p branch) _ _
                        (Returns-in_store fl backend settings ref _ (
                          Returns-with_lease (p.effective_parent ∷ []) _
                            (generate-Generated request p branch)))
                        λ found g.
                          Returns-bind
                            (λ u. check_ride env fl backend settings found.0 found.1 ≡ ok tt)
                            (lift (check_ride env fl backend settings found.0 found.1))
                            (λ _. pure (ride_response env fl backend settings p found.1))
                            (Returns-lift _ (λ u h. h))
                            λ u checked. record {
                              holds = λ v x. record {
                                plan = p;
                                branch = branch;
                                compiled = compiled;
                                parent = found.0;
                                result = found.1;
                                made = g;
                                same = refl;
                                accounts =
                                    check_ride-Accounts env fl backend settings p found.0 found.1
                                      (valid_ride p branch found g) checked;
                              };
                            })

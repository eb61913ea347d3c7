-- ===== src/Snapshots/Service/Soundness/Requests.antt =====
-- Each request as a whole: every store that the service built stays sound.
use riderless.Prelude.{ℕ, ◌-◌, String, not, ◌||◌, leb, ltb}
use riderless.Action.{lift, ◌>>=◌}
use riderless.Action.Triple.{Triple-pure, Triple-raise, Triple-if}
use riderless.Mapping.Arithmetic.{Floats}
use riderless.Snapshots.Errors.{Error}
use riderless.Snapshots.Schema.{is_b18}
use riderless.Snapshots.Wire.Vectors.{Which}
use riderless.Snapshots.Wire.Requests.{
  SnapshotCreateRequest, V2DecisionRequest, StateEvaluationRequest, RiderRequest, SnapshotRef,
}
use riderless.Snapshots.Store.Env.{Env}
use riderless.Snapshots.Store.Registry.{delete}
use riderless.Snapshots.Service.{Serve, background_recovery, start}
use riderless.Snapshots.Service.Invariants.{background_recovery-Guards, start-Guards}
use riderless.Snapshots.Service.Office.{Backend, Settings, parts, in_store}
use riderless.Snapshots.Service.Planning.{BranchPlan, plan}
use riderless.Compiler.{zip}
use riderless.Snapshots.Service.Decisions.{names, compile_branches, decide_in, decide}
use riderless.Snapshots.Service.Evaluations.{
  compile_prompt, state_eval_in, state_eval, check_ride, ride_in, ride, vectors,
}
use riderless.Snapshots.Service.Creation.{create, describe, remove}
use riderless.Snapshots.Service.Soundness.{delete-Sounds, plan-Sounds}
use riderless.Snapshots.Service.Soundness.Bodies.{
  metadata-Sounds, saved_as-Sounds, choose_ids-Sounds, evaluate-Sounds, create_in-Sounds,
  evaluate_state-Sounds, generate-Sounds, read_vectors-Sounds,
}
use riderless.Snapshots.Service.Soundness.Stores.{
  AllSound, parts-Respects, Safely, Safely-in_store, Safely-bind, Safely-then, Safely-pending,
  Safely-lift, Safely-serialized,
}

module _ (env : Env) (fl : Floats) (backend : Backend env fl) (settings : Settings) where
  pub start-Safely : Safely env fl backend settings (start (parts env fl backend settings))
  start-Safely =
      start-Guards (parts env fl backend settings) AllSound (parts-Respects env fl backend settings)

  pub background_recovery-Safely :
      Safely env fl backend settings (background_recovery (parts env fl backend settings))
  background_recovery-Safely =
      background_recovery-Guards (parts env fl backend settings) AllSound
        (parts-Respects env fl backend settings)

  pub describe-Safely :
      (id : String) → Safely env fl backend settings (describe env fl backend settings id)
  unfolding describe
  describe-Safely id =
      Safely-serialized env fl backend settings _
        λ hello ref. Safely-in_store env fl backend settings ref _ (metadata-Sounds env id)

  pub remove-Safely :
      (id : String) → Safely env fl backend settings (remove env fl backend settings id)
  unfolding remove
  remove-Safely id = Safely-serialized env fl backend settings _ λ hello ref.
      Safely-in_store env fl backend settings ref (delete env id) (delete-Sounds env id)

  pub vectors-Safely :
      (id : String) (which : Which) (row_begin row_end : ℕ)
      → Safely env fl backend settings (vectors env fl backend settings id which row_begin row_end)
  unfolding vectors
  vectors-Safely id which row_begin row_end =
      Triple-if (leb row_end row_begin || ltb 64 (row_end - row_begin)) _ _
        (λ _. Triple-raise (Error.request "budget") (λ s h. h))
        (λ _.
          Safely-bind env fl backend settings _ _
            (Safely-serialized env fl backend settings _ λ hello ref.
              Safely-in_store env fl backend settings ref _
                (read_vectors-Sounds env fl backend settings id which row_begin row_end))
            (λ worker. Triple-pure worker.tensor (λ s h. h)))

  -- the plan that a request starts with, and what runs on it
  module _ {A : Type 0} (ref : ℕ) (snapshot : SnapshotRef)
      (f : BranchPlan fl → Serve (parts env fl backend settings) A) where
    Safely-plan :
        ((p : BranchPlan fl) → Safely env fl backend settings (f p))
        → Safely env fl backend settings
            (in_store env fl backend settings ref (plan env fl backend settings snapshot) >>= f)
    Safely-plan k =
        Safely-bind env fl backend settings _ f
          (Safely-in_store env fl backend settings ref (plan env fl backend settings snapshot)
            (plan-Sounds env fl backend settings snapshot))
          k

  pub state_eval-Safely :
      (request : StateEvaluationRequest) (owner : String)
      → Safely env fl backend settings (state_eval env fl backend settings request owner)
  unfolding state_eval state_eval_in
  state_eval-Safely request owner =
      Triple-if (is_b18 request.readout.completed_blocks) _ _
        (λ _. Triple-raise Error.capability_unavailable (λ s h. h))
        (λ _. Safely-serialized env fl backend settings _ λ hello ref.
          Safely-plan ref request.snapshot _ λ p.
            Safely-bind env fl backend settings (lift (compile_prompt fl p request.prompt)) _
              (Safely-lift env fl backend settings (compile_prompt fl p request.prompt))
              λ branch.
                Safely-bind env fl backend settings _ _
                  (Safely-in_store env fl backend settings ref _
                    (saved_as-Sounds env request.save_result_snapshot))
                  λ save. Safely-pending env fl backend settings _ _ (
                    Safely-bind env fl backend settings _ _
                      (Safely-in_store env fl backend settings ref _
                        (evaluate_state-Sounds env fl backend settings request owner p branch save))
                      (λ found. record { holds = λ s h. h })))

  pub ride-Safely :
      (request : RiderRequest)
      → Safely env fl backend settings (ride env fl backend settings request)
  unfolding ride ride_in
  ride-Safely request = Safely-serialized env fl backend settings _ λ hello ref.
      Triple-if (not hello.rider_mode) _ _
        (λ _. Triple-raise Error.capability_unavailable (λ s h. h))
        (λ _. Safely-plan ref request.snapshot _ λ p.
          Safely-bind env fl backend settings (lift (compile_prompt fl p request.prompt)) _
            (Safely-lift env fl backend settings (compile_prompt fl p request.prompt))
            λ branch.
              Safely-bind env fl backend settings _ _
                (Safely-in_store env fl backend settings ref _
                  (generate-Sounds env fl backend settings request p branch))
                λ found.
                  Safely-then env fl backend settings _ _
                    (Safely-lift env fl backend settings
                      (check_ride env fl backend settings found.0 found.1))
                    (record { holds = λ s h. h }))

module _ (repr : ℕ → String) (env : Env) (fl : Floats) (backend : Backend env fl)
    (settings : Settings) where
  pub create-Safely :
      (request : SnapshotCreateRequest) (owner : String)
      → Safely env fl backend settings (create repr env fl backend settings request owner)
  unfolding create
  create-Safely request owner = Safely-serialized env fl backend settings _ λ hello ref.
      Safely-in_store env fl backend settings ref _
        (create_in-Sounds repr env fl backend settings request owner hello)

  pub decide-Safely :
      (request : V2DecisionRequest) (owner : String)
      → Safely env fl backend settings (decide repr env fl backend settings request owner)
  unfolding decide decide_in
  decide-Safely request owner =
      Triple-if (is_b18 request.readout) _ _
        (λ _. Triple-raise Error.capability_unavailable (λ s h. h))
        (λ _. Safely-serialized env fl backend settings _ λ hello ref.
          Safely-plan env fl backend settings ref request.snapshot _ λ p.
            Safely-bind env fl backend settings _ _
              (Safely-lift env fl backend settings
                (compile_branches repr env fl backend settings p request.questions hello.labels))
              λ cs.
                Safely-bind env fl backend settings _ _
                  (Safely-in_store env fl backend settings ref _ (
                    choose_ids-Sounds repr env fl backend settings request.save_result_snapshot
                      (names request.questions)))
                  λ saves. Safely-pending env fl backend settings _ _ (
                    Safely-bind env fl backend settings _ _
                      (Safely-in_store env fl backend settings ref _ (
                        evaluate-Sounds repr env fl backend settings hello p owner
                          (names request.questions) (zip cs saves)))
                      (λ found. record { holds = λ s h. h })))

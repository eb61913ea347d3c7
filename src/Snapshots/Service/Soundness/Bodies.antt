-- ===== src/Snapshots/Service/Soundness/Bodies.antt =====
-- The bodies of the requests keep the store sound.
use riderless.Prelude.{
  ℕ, String, Bool, none, some, Option, List, [], ◌∷◌, map, length, eqb, ◌==◌, if◌then◌else◌,
}
use riderless.Action.{pure, lift, ◌>>=◌}
use riderless.Action.Triple.{Triple-if}
use riderless.Mapping.Arithmetic.{Floats}
use riderless.Snapshots.Errors.{Error}
use riderless.Snapshots.Schema.{Checkpoint}
use riderless.Snapshots.Compiler.{
  CompiledSnapshotQuestion, CompiledPrompt, CompiledCreate, compile_create,
}
use riderless.Snapshots.Mapping.{map_answer}
use riderless.Snapshots.Wire.Rows.{WorkerHello, WorkerSnapshotRow, WorkerCreated}
use riderless.Snapshots.Wire.Branches.{WorkerSnapshotQuestionResult}
use riderless.Snapshots.Wire.Vectors.{Which}
use riderless.Snapshots.Wire.Requests.{StateEvaluationRequest, RiderRequest, SnapshotCreateRequest}
use riderless.Snapshots.Store.Types.{SnapshotRecord}
use riderless.Snapshots.Store.Env.{Env, call}
use riderless.Snapshots.Store.Env.Rules.{Keeps-call}
use riderless.Snapshots.Store.Lease.{with_lease}
use riderless.Snapshots.Store.Registry.{register}
use riderless.Snapshots.Store.Registry.Soundness.{Sound, Triple-guard}
use riderless.Snapshots.Store.Index
use riderless.Snapshots.Service.{reverse}
use riderless.Snapshots.Service.Office.{Backend, Settings}
use riderless.Snapshots.Service.Planning.{BranchPlan, new_snapshot_id}
use riderless.Snapshots.Service.Decisions.{
  Running, compiled, mapped, choose_ids, answer_one, answer_all, nothing_yet, evaluate,
}
use riderless.Snapshots.Service.Evaluations.{check_vectors, evaluate_state, generate, read_vectors}
use riderless.Snapshots.Service.Creation.{
  ids_of, same_set, by_blocks, row_of, labels_of, choose_checkpoints, creation_of, register_rows,
  freeze, create_in,
}
use riderless.Snapshots.Service.Soundness.{
  Sounds, Sounds-bind, Sounds-then, Sounds-pure, Sounds-raise, Sounds-lift, Sounds-on_error,
  Sounds-restored, get-Sounds, register-Sounds, new_snapshot_id-Sounds, roll_back-Sounds,
  save_child-Sounds,
}

module _ (env : Env) where
  pub metadata-Sounds : (id : String) → Sounds (Index.metadata env id)
  unfolding Index.metadata
  metadata-Sounds id = Sounds-bind _ _ (get-Sounds env id) (λ r. record { holds = λ s h. h })

  pub saved_as-Sounds :
      (keep : Bool)
      → Sounds {env = env} {A = Option String}
          (if keep then (do id ← new_snapshot_id env; pure (some id)) else pure none)
  saved_as-Sounds keep =
      Triple-if keep _ _
        (λ _.
          Sounds-bind (new_snapshot_id env) _ (new_snapshot_id-Sounds env)
            (λ id. Sounds-pure (some id)))
        (λ _. Sounds-pure none)

  choose_checkpoints-Sounds : (bs : List Checkpoint) → Sounds (choose_checkpoints env bs)
  unfolding choose_checkpoints
  choose_checkpoints-Sounds [] = Sounds-pure []
  choose_checkpoints-Sounds (b ∷ bs) =
      Sounds-bind (new_snapshot_id env) _ (new_snapshot_id-Sounds env) λ id.
        Sounds-bind (choose_checkpoints env bs) _ (choose_checkpoints-Sounds bs)
          (λ rest. Sounds-pure ((b, id) ∷ rest))

module _ (repr : ℕ → String) (env : Env) (fl : Floats) (backend : Backend env fl)
    (settings : Settings) where
  pub choose_ids-Sounds :
      (keep : Bool) (ids : List String) → Sounds (choose_ids repr env fl backend settings keep ids)
  unfolding choose_ids
  choose_ids-Sounds keep [] = Sounds-pure []
  choose_ids-Sounds keep (question_id ∷ ids) = Sounds-bind _ _ (saved_as-Sounds env keep) λ save.
      Sounds-bind (choose_ids repr env fl backend settings keep ids) _ (choose_ids-Sounds keep ids)
        (λ rest. Sounds-pure (save ∷ rest))

  module _ (profile : WorkerHello) (p : BranchPlan fl) (owner : String) where
    answer_one-Sounds :
        (parent : SnapshotRecord) (id : String) (c : CompiledSnapshotQuestion × Option String)
        (raw : WorkerSnapshotQuestionResult fl) (t : Running fl)
        → Sounds (answer_one repr env fl backend settings profile p parent owner id c raw t)
    unfolding answer_one
    answer_one-Sounds parent id (c, save) raw t =
        Sounds-bind (lift (mapped (map_answer fl c raw.question profile.label_token_ids))) _
          (Sounds-lift (mapped (map_answer fl c raw.question profile.label_token_ids)))
          λ answer.
            Triple-guard Sound (raw.snapshot.parent == p.effective_parent) Error.protocol _
              (λ s h. h)
              λ _.
                Sounds-bind _ _
                  (save_child-Sounds env fl backend settings save raw.snapshot.child p c.messages
                    c.answer_prefix owner parent.persistence)
                  (λ child. record { holds = λ s h. h })

    answer_all-Sounds :
        (parent : SnapshotRecord) (ids : List String)
        (cs : List (CompiledSnapshotQuestion × Option String))
        (raws : List (WorkerSnapshotQuestionResult fl)) (t : Running fl)
        → Sounds (answer_all repr env fl backend settings profile p parent owner ids cs raws t)
    unfolding answer_all
    answer_all-Sounds parent (id ∷ ids) (c ∷ cs) (raw ∷ raws) t =
        Sounds-bind _ _ (answer_one-Sounds parent id c raw t)
          (λ u. answer_all-Sounds parent ids cs raws u)
    answer_all-Sounds parent (id ∷ ids) [] (raw ∷ raws) t = Sounds-raise (Error.foreign "KeyError")
    answer_all-Sounds parent (id ∷ ids) cs [] t = Sounds-raise (Error.foreign "ValueError")
    answer_all-Sounds parent [] cs (raw ∷ raws) t = Sounds-raise (Error.foreign "ValueError")
    answer_all-Sounds parent [] cs [] t = Sounds-pure t

    pub evaluate-Sounds :
        (ids : List String) (questions : List (CompiledSnapshotQuestion × Option String))
        → Sounds (
            with_lease env
              (p.effective_parent ∷ [])
              (evaluate repr env fl backend settings profile p owner ids questions))
    unfolding evaluate
    evaluate-Sounds ids questions = Sounds-restored p.effective_parent _ λ parent.
        Sounds-bind (call (backend.evaluate p.effective_parent questions)) _
          (Keeps-call Sound (backend.evaluate p.effective_parent questions))
          λ r.
            Triple-guard Sound (r.model_sha256 == profile.model_sha256) Error.protocol _ (λ s h. h)
              λ _.
                Triple-guard Sound (r.runtime_sha256 == profile.runtime_sha256) Error.protocol _
                  (λ s h. h)
                  λ _.
                    Triple-guard Sound (eqb (length r.questions) (length ids)) Error.protocol _
                      (λ s h. h)
                      λ _.
                        Sounds-bind _ _
                          (answer_all-Sounds parent ids questions r.questions
                            (nothing_yet repr env fl backend settings))
                          (λ t. Sounds-pure (parent, t))

  module _ (request : SnapshotCreateRequest) (owner : String) where
    register_rows-Sounds :
        (c : CompiledCreate) (result : WorkerCreated fl) (rows : List WorkerSnapshotRow)
        → Sounds (register_rows repr env fl backend settings request owner c result rows)
    unfolding register_rows
    register_rows-Sounds c result [] = Sounds-pure []
    register_rows-Sounds c result (row ∷ rows) =
        let a = creation_of repr env fl backend settings request owner c result row in
        Sounds-bind (register env a) _ (register-Sounds env a) λ r.
          Sounds-bind _ _ (register_rows-Sounds c result rows)
            (λ rest. Sounds-pure (row_of r ∷ rest))

    freeze-Sounds :
        (c : CompiledCreate) (checkpoints : List (Checkpoint × String))
        → Sounds (freeze repr env fl backend settings request owner c checkpoints)
    unfolding freeze
    freeze-Sounds c checkpoints =
        let create =
          backend.create c checkpoints (labels_of repr env fl backend settings request c) in
        Sounds-bind (call create) _ (Keeps-call Sound create) λ result.
          Triple-guard Sound
            (same_set (map (λ r. r.snapshot_id) result.snapshots) (ids_of checkpoints))
            Error.protocol _ (λ s h. h)
            (λ _. register_rows-Sounds c result (by_blocks result.snapshots))

    pub create_in-Sounds :
        (profile : WorkerHello)
        → Sounds (create_in repr env fl backend settings request owner profile)
    unfolding create_in
    create_in-Sounds profile =
        Sounds-bind (lift (compiled (compile_create repr request.input profile.labels))) _
          (Sounds-lift (compiled (compile_create repr request.input profile.labels)))
          λ c.
            Sounds-bind (choose_checkpoints env request.checkpoints) _
              (choose_checkpoints-Sounds env request.checkpoints)
              λ checkpoints.
                Sounds-on_error (freeze repr env fl backend settings request owner c checkpoints) _
                  (freeze-Sounds c checkpoints)
                  (roll_back-Sounds env (reverse (ids_of checkpoints)))

module _ (env : Env) (fl : Floats) (backend : Backend env fl) (settings : Settings) where
  pub evaluate_state-Sounds :
      (request : StateEvaluationRequest) (owner : String) (p : BranchPlan fl)
      (branch : CompiledPrompt) (save : Option String)
      → Sounds (
          with_lease env
            (p.effective_parent ∷ [])
            (evaluate_state env fl backend settings request owner p branch save))
  unfolding evaluate_state
  evaluate_state-Sounds request owner p branch save = Sounds-restored p.effective_parent _ λ parent.
      let run =
        backend.state_eval p.effective_parent branch request.readout.export
          request.readout.top_logits save in
      Sounds-bind (call run) _ (Keeps-call Sound run) λ state.
        Sounds-then (lift (check_vectors request.readout.export state.vectors)) _
          (Sounds-lift (check_vectors request.readout.export state.vectors))
          (Sounds-bind _ _
            (save_child-Sounds env fl backend settings save state.child p branch.messages
              branch.answer_prefix owner parent.persistence)
            (λ child. record { holds = λ s h. h }))

  pub generate-Sounds :
      (request : RiderRequest) (p : BranchPlan fl) (branch : CompiledPrompt)
      → Sounds (
          with_lease env
            (p.effective_parent ∷ [])
            (generate env fl backend settings request p branch))
  unfolding generate
  generate-Sounds request p branch = Sounds-restored p.effective_parent _ λ parent.
      let run = backend.ride p.effective_parent branch request.max_tokens request.top_logits in
      Sounds-bind (call run) _ (Keeps-call Sound run) (λ result. record { holds = λ s h. h })

  pub read_vectors-Sounds :
      (id : String) (which : Which) (row_begin row_end : ℕ)
      → Sounds (
          with_lease env
            (id ∷ [])
            (read_vectors env fl backend settings id which row_begin row_end))
  unfolding read_vectors
  read_vectors-Sounds id which row_begin row_end =
      Sounds-restored id _ (λ _. Keeps-call Sound (backend.vectors id which row_begin row_end))

-- ===== src/Snapshots/Service/Replies.antt =====
-- What a response of `decide` has for the questions of its request.
use riderless.Prelude.{
  ℕ, String, ◌≡◌, refl, ap, ◌∙◌, Bool, true, false, Option, none, some, is_some, List, [], ◌∷◌, map,
  arith, if◌then◌else◌,
}
use riderless.Action.{Outcome, ok, err, modifies, pure, ◌>>=◌}
use riderless.Action.Triple.{Meets, Triple-if}
use riderless.Compiler.{Question, Compiled, zip}
use riderless.Mapping.Arithmetic.{Floats}
use riderless.Snapshots.Errors.{Error}
use riderless.Snapshots.Schema.{Boundary, is_b18}
use riderless.Snapshots.Compiler.{
  CompiledSnapshotQuestion, compile_context_followup, compile_readout_followup,
}
use riderless.Snapshots.Compiler.Continuations.{
  compile_context_followup-id, compile_readout_followup-id,
}
use riderless.Snapshots.Wire.Branches.{result_ok}
use riderless.Snapshots.Wire.Requests.{V2DecisionRequest}
use riderless.Snapshots.Store.Env.{Env, Sys}
use riderless.Snapshots.Service.{Service}
use riderless.Snapshots.Service.Office.{Backend, Settings, parts, in_store}
use riderless.Snapshots.Service.Planning.{BranchPlan, new_snapshot_id, plan}
use riderless.Snapshots.Service.Decisions.{
  V2DecisionResponse, names, saved_ids, compiled, compile_branches, choose_ids, nothing_yet,
  respond, decide_in, decide,
}
use riderless.Snapshots.Service.Entries.{total, children, Triple-Any, Answered}
use riderless.Snapshots.Service.Answers.{Evaluated, evaluate-Answered}
use riderless.Snapshots.Service.Returns.{
  Returns, Returns-raise, Returns-lift, Returns-bind, Returns-then, Returns-in_store,
  Returns-with_lease, Returns-serialized, Returns-result,
}

abbrev pub ids_of : List CompiledSnapshotQuestion → List String
ids_of = map (λ c. c.id)

abbrev pub asked_ids : List (CompiledSnapshotQuestion × Option String) → List String
asked_ids = map (λ c. c.0.id)

-- one save for each question, which is an id exactly where results are kept
abbrev Saves : Bool → List String → List (Option String) → Type 0
Saves keep (q ∷ ids) (save ∷ saves) = (is_some save ≡ keep) × Saves keep ids saves
Saves keep [] [] = Unit {0}
Saves keep _ _ = ⊥

paired :
    (keep : Bool) (ids : List String) (cs : List CompiledSnapshotQuestion)
    (saves : List (Option String))
    → ids_of cs ≡ ids
    → Saves keep ids saves
    → (asked_ids (zip cs saves) ≡ ids)
      × (names (children ids (zip cs saves)) ≡ (if keep then ids else []))
paired true [] [] [] e h = (refl, refl)
paired false [] [] [] e h = (refl, refl)
paired true [] [] (save ∷ saves) e h = absurd h
paired false [] [] (save ∷ saves) e h = absurd h
paired true (q ∷ ids) (c ∷ cs) [] e h = absurd h
paired false (q ∷ ids) (c ∷ cs) [] e h = absurd h
paired keep [] (c ∷ cs) saves e h = absurd (ground (arith, e))
paired keep (q ∷ ids) [] saves e h = absurd (ground (arith, e))
paired true (q ∷ ids) (c ∷ cs) (none ∷ saves) e h = absurd (ground (arith, h.0))
paired false (q ∷ ids) (c ∷ cs) (some id ∷ saves) e h = absurd (ground (arith, h.0))
paired true (q ∷ ids) (c ∷ cs) (some id ∷ saves) e h =
    let rest = paired true ids cs saves (ground (arith, e)) h.1 in
    (ground (arith, e, rest.0), ground (arith, rest.1))
paired false (q ∷ ids) (c ∷ cs) (none ∷ saves) e h =
    let rest = paired false ids cs saves (ground (arith, e)) h.1 in
    (ground (arith, e, rest.0), ground (arith, rest.1))

module _ (repr : ℕ → String) (env : Env) (fl : Floats) (backend : Backend env fl)
    (settings : Settings) where
  choose_ids-Saves :
      (keep : Bool) (ids : List String)
      → Returns (Saves keep ids) (choose_ids repr env fl backend settings keep ids)
  unfolding choose_ids
  choose_ids-Saves keep [] = record { holds = λ s h. tt }
  choose_ids-Saves keep (q ∷ ids) =
      Returns-bind (λ save. is_some save ≡ keep) _ _ (chosen keep)
        λ save e.
          Returns-bind (Saves keep ids) (choose_ids repr env fl backend settings keep ids) _
            (choose_ids-Saves keep ids) (λ rest k. record { holds = λ s x. (e, k) })
    where
      chosen :
          (keep : Bool)
          → Returns {S = Sys env}
              (λ save. is_some save ≡ keep)
              (if keep then (do id ← new_snapshot_id env; pure (some id)) else pure none)
      chosen true = record { holds = λ s h. refl }
      chosen false = record { holds = λ s h. refl }

  followup-id :
      (p : BranchPlan fl) (id : String) (q : Question) (labels : List String)
      (c : CompiledSnapshotQuestion)
      → compiled (elim p.mode [
        | Boundary.context ↦ compile_context_followup repr p.messages id q labels
        | Boundary.readout ↦ compile_readout_followup repr p.messages p.answer_prefix id q labels
      ])
        ≡ ok c
      → c.id ≡ id
  followup-id p id q labels c h = go p.mode h
    where
      lifted : (m : Compiled CompiledSnapshotQuestion) → compiled m ≡ ok c → m ≡ Compiled.ok c
      lifted (Compiled.ok a) e = ground (arith, e)
      lifted (Compiled.err x) e = absurd (ground (arith, e))

      go :
          (mode : Boundary)
          → compiled (elim mode [
            | Boundary.context ↦ compile_context_followup repr p.messages id q labels
            | Boundary.readout ↦
                compile_readout_followup repr p.messages p.answer_prefix id q labels
          ])
            ≡ ok c
          → c.id ≡ id
      go Boundary.context e = compile_context_followup-id repr p.messages id q labels c (lifted _ e)
      go Boundary.readout e =
          compile_readout_followup-id repr p.messages p.answer_prefix id q labels c (lifted _ e)

  -- Every question of a request is compiled, in order, under its id.
  compile_branches-names :
      (p : BranchPlan fl) (qs : List (String × Question)) (labels : List String)
      (cs : List CompiledSnapshotQuestion)
      → compile_branches repr env fl backend settings p qs labels ≡ ok cs
      → ids_of cs ≡ names qs
  unfolding compile_branches
  compile_branches-names p [] labels [] h = refl
  compile_branches-names p [] labels (c ∷ cs) h = absurd (ground (arith, h))
  compile_branches-names p ((id, q) ∷ qs) labels cs h =
      go _ (followup-id p id q labels) (compile_branches repr env fl backend settings p qs labels)
        (compile_branches-names p qs labels) h
    where
      go :
          (m : Outcome Error CompiledSnapshotQuestion)
          → ((c : CompiledSnapshotQuestion) → m ≡ ok c → c.id ≡ id)
          → (n : Outcome Error (List CompiledSnapshotQuestion))
          → ((ds : List CompiledSnapshotQuestion) → n ≡ ok ds → ids_of ds ≡ names qs)
          → elim m as (λ _. Outcome Error (List CompiledSnapshotQuestion)) [
            | err e ↦ err e
            | ok c ↦ elim n [ err e ↦ err e | ok ds ↦ ok (c ∷ ds) ]
          ]
            ≡ ok cs
          → ids_of cs ≡ id ∷ names qs
      go (ok c) f (ok ds) g e =
          let same : (c ∷ ds) ≡ cs = ground (arith, e) in
          let first = f c refl in let rest = g ds refl in ground (arith, same, first, rest)
      go (ok c) f (err x) g e = absurd (ground (arith, e))
      go (err x) f n g e = absurd (ground (arith, e))

  -- A response of `decide` beside its request and what the backend was given.
  pub record Replies (request : V2DecisionRequest) (response : V2DecisionResponse fl) : Type 0 where
    pub payload : List (CompiledSnapshotQuestion × Option String)
    pub asked : asked_ids payload ≡ names request.questions
    pub evaluated : Evaluated backend response.snapshot_usage.effective_parent payload
    pub answers : names response.answers ≡ names request.questions
    pub suffixes : names response.snapshot_usage.suffix_tokens ≡ names request.questions
    pub child : response.snapshot_usage.child ≡ children (names request.questions) payload
    pub saved :
        names response.snapshot_usage.child
        ≡ (if request.save_result_snapshot then names request.questions else [])
    pub tokens : response.input_tokens ≡ total response.snapshot_usage.suffix_tokens

  -- Where the backend returns only results that `WorkerResult` accepts, a response of `decide` is this: on the
  -- snapshot that the response names, the backend returns a result, in some world, for the questions of the
  -- request, every one, in order and under its id; the response has one answer and one suffix length for each
  -- question of the request, in that order; it names a child for every question where the results were to be
  -- saved and for none otherwise, under the ids that the backend was given; and its input tokens are the sum
  -- of the suffix lengths.
  pub decide-Replies :
      (request : V2DecisionRequest) (owner : String) (s t : Service (parts env fl backend settings))
      (response : V2DecisionResponse fl)
      → ((id : String) (qs : List (CompiledSnapshotQuestion × Option String)) (w : env.World)
          → Meets {E = Error}
              (λ r _. result_ok fl r ≡ true)
              (λ _ _. Unit {0})
              (backend.evaluate id qs w))
      → decide repr env fl backend settings request owner s ≡ (ok response, t)
      → Replies request response
  unfolding decide decide_in
  decide-Replies request owner s t response valid e =
      Returns-result (decide repr env fl backend settings request owner) s t response replies e
    where
      ids : List String
      ids = names request.questions

      replies : Returns (Replies request) (decide repr env fl backend settings request owner)
      replies =
          Triple-if (is_b18 request.readout) _ _ (λ _. Returns-raise Error.capability_unavailable)
            (λ _. Returns-serialized (parts env fl backend settings) _ λ hello ref.
              Returns-bind (λ _. Unit {0})
                (in_store env fl backend settings ref
                  (plan env fl backend settings request.snapshot))
                _ (Triple-Any _)
                λ p _.
                  Returns-bind
                    (λ cs.
                      compile_branches repr env fl backend settings p request.questions hello.labels
                      ≡ ok cs)
                    _ _ (Returns-lift _ (λ a h. h))
                    λ cs compiled.
                      Returns-bind (Saves request.save_result_snapshot ids) _ _
                        (Returns-in_store fl backend settings ref _
                          (choose_ids-Saves request.save_result_snapshot ids))
                        λ saves chosen.
                          Returns-then (modifies (λ s. record s { pending_ids = saved_ids saves }))
                            _
                            (Returns-bind
                              (λ found.
                                Evaluated backend p.effective_parent (zip cs saves)
                                × Answered fl ids (zip cs saves)
                                    (nothing_yet repr env fl backend settings) found.1)
                              _ (λ found. pure (respond repr env fl backend settings p found))
                              (Returns-in_store fl backend settings ref _ (
                                Returns-with_lease (p.effective_parent ∷ []) _ (
                                  evaluate-Answered repr env fl backend settings hello p owner ids
                                    (zip cs saves) valid)))
                              λ found h.
                                let pair =
                                  paired request.save_result_snapshot ids cs saves
                                    (compile_branches-names p request.questions hello.labels cs
                                      compiled)
                                    chosen in
                                record {
                                  holds = λ u x. record {
                                    payload = zip cs saves;
                                    asked = pair.0;
                                    evaluated = h.0;
                                    answers = h.1.answers;
                                    suffixes = h.1.suffixes;
                                    child = h.1.child;
                                    saved = ap names h.1.child ∙ pair.1;
                                    tokens = omega (arith, h.1.processed);
                                  };
                                }))

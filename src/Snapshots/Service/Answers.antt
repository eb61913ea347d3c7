-- ===== src/Snapshots/Service/Answers.antt =====
-- What the lease of `decide` answers: one entry for each question id, and the accounts of the worker's results.
use riderless.Prelude.{
  append_assoc, append-nil, both, eqb-true, ℕ, String, ◌≡◌, refl, ap, subst, sym, ◌∙◌, true, ◌&&◌,
  Option, none, some, List, [], ◌∷◌, ◌++◌, all, All, arith, length, eqb, ◌==◌,
}
use riderless.Action.{ok, lift, pure}
use riderless.Action.Triple.{Meets, Triple, Triple-bind, Triple-then, Triple-weaken}
use riderless.Mapping.Arithmetic.{Floats}
use riderless.Snapshots.Errors.{Error}
use riderless.Snapshots.Schema.{Persistence, Message}
use riderless.Snapshots.Compiler.{CompiledSnapshotQuestion}
use riderless.Snapshots.Mapping.{map_answer}
use riderless.Snapshots.Wire.Rows.{WorkerHello, WorkerSnapshotRow}
use riderless.Snapshots.Wire.Branches.{
  WorkerResult, WorkerSnapshotQuestionResult, branch_ok, question_fields_ok, snapshot_question_ok,
  result_ok,
}
use riderless.Mapping.Wire.{question_ok}
use riderless.Snapshots.Wire.{is_nonempty, is_sha256, has_length}
use riderless.Snapshots.Store.Types.{SnapshotRecord}
use riderless.Snapshots.Store.Env.{Env, Sys, call}
use riderless.Snapshots.Store.Persist.{guard}
use riderless.Snapshots.Store.Registry.{register, restore}
use riderless.Snapshots.Store.Registry.Soundness.{Triple-guard}
use riderless.Snapshots.Service.Office.{Backend, Settings}
use riderless.Snapshots.Service.Planning.{BranchPlan, child_of, save_child}
use riderless.Snapshots.Service.Decisions.{
  Running, names, mapped, add_child, answer_one, answer_all, nothing_yet, evaluate,
}
use riderless.Snapshots.Service.Returns.{Returns, Returns-self, Returns-bind, Returns-then}
use riderless.Snapshots.Service.Entries.{
  children, names-append, total-append, children-add, Answered, Any, Triple-Any,
}

module _ (env : Env) (fl : Floats) (backend : Backend env fl) (settings : Settings) where
  -- A child is registered exactly where one was asked for.
  save_child-returns :
      (save : Option String) (row : Option WorkerSnapshotRow) (p : BranchPlan fl)
      (messages : List Message) (prefix owner : String) (persistence : Persistence)
      → Triple Any
          (save_child env fl backend settings save row p messages prefix owner persistence)
          (λ child s. child ≡ save)
          (λ _. Any)
  unfolding save_child
  save_child-returns none none p messages prefix owner persistence = record { holds = λ s h. refl }
  save_child-returns none (some row) p messages prefix owner persistence = record {
    holds = λ s h. tt;
  }
  save_child-returns (some id) none p messages prefix owner persistence = record {
    holds = λ s h. tt;
  }
  save_child-returns (some id) (some row) p messages prefix owner persistence =
      Triple-guard (λ _. Unit {0}) (row.snapshot_id == id) Error.protocol _ (λ s h. tt)
        λ _.
          let a = child_of env fl backend settings row p messages prefix owner persistence in
          Triple-then (λ _. Any) (register env a) (pure (some id)) (Triple-Any (register env a))
            (λ _. record { holds = λ s h. refl })

-- Asked these questions about a snapshot, the backend returns a result in some world.
pub record Evaluated {env : Env} {fl : Floats} (backend : Backend env fl) (parent : String)
    (questions : List (CompiledSnapshotQuestion × Option String)) : Type 0 where
  pub result : WorkerResult fl
  pub world : env.World
  pub found : (backend.evaluate parent questions world).0 ≡ ok result

module _ (repr : ℕ → String) (env : Env) (fl : Floats) (backend : Backend env fl)
    (settings : Settings) (profile : WorkerHello) (p : BranchPlan fl) (owner : String) where
  -- the accounts of the worker's result, which its model checks
  abbrev IsAccounted : WorkerSnapshotQuestionResult fl → Type 0
  IsAccounted raw = raw.snapshot.suffix_tokens ≡ raw.question.processed_tokens

  answer_one-Answered :
      (parent : SnapshotRecord) (q : String) (c : CompiledSnapshotQuestion) (save : Option String)
      (raw : WorkerSnapshotQuestionResult fl) (t : Running fl)
      → IsAccounted raw
      → Triple Any
          (answer_one repr env fl backend settings profile p parent owner q (c, save) raw t)
          (λ u s. Answered fl (q ∷ []) ((c, save) ∷ []) t u)
          (λ _. Any)
  unfolding answer_one
  answer_one-Answered parent q c save raw t same =
      let answer = mapped (map_answer fl c raw.question profile.label_token_ids) in
      Triple-bind (λ _. Any) (lift answer) _ (Triple-Any (lift answer))
        λ a.
          Triple-guard (λ _. Unit {0}) (raw.snapshot.parent == p.effective_parent) Error.protocol _
            (λ s h. tt)
            λ _.
              Triple-bind (λ child s. child ≡ save) _ _
                (save_child-returns env fl backend settings save raw.snapshot.child p c.messages
                  c.answer_prefix owner parent.persistence)
                λ child. record {
                  holds = λ s e. record {
                    answers = names-append t.answers ((q, a) ∷ []);
                    suffixes = names-append t.suffix_tokens ((q, raw.snapshot.suffix_tokens) ∷ []);
                    child =
                        ap (λ x. add_child q x t.child) e
                        ∙ sym (append-nil (add_child q save t.child))
                        ∙ children-add q c save [] [] t.child;
                    processed = omega (
                      arith,
                      same,
                      total-append t.suffix_tokens ((q, raw.snapshot.suffix_tokens) ∷ []),
                    );
                  };
                }

  then-Answered :
      (q : String) (c : CompiledSnapshotQuestion) (save : Option String) (ids : List String)
      (cs : List (CompiledSnapshotQuestion × Option String)) (t u v : Running fl)
      → Answered fl (q ∷ []) ((c, save) ∷ []) t u
      → Answered fl ids cs u v
      → Answered fl (q ∷ ids) ((c, save) ∷ cs) t v
  then-Answered q c save ids cs t u v h k = record {
    answers =
        k.answers ∙ ap (λ x. x ++ ids) h.answers ∙ append_assoc (names t.answers) (q ∷ []) ids;
    suffixes =
        k.suffixes
        ∙ ap (λ x. x ++ ids) h.suffixes
        ∙ append_assoc (names t.suffix_tokens) (q ∷ []) ids;
    child = k.child ∙ ap (λ x. x ++ children ids cs) h.child ∙ joined save;
    processed = omega (arith, h.processed, k.processed);
  }
    where
      joined :
          (save : Option String)
          → (t.child ++ children (q ∷ []) ((c, save) ∷ [])) ++ children ids cs
            ≡ t.child ++ children (q ∷ ids) ((c, save) ∷ cs)
      joined none = ap (λ x. x ++ children ids cs) (append-nil t.child)
      joined (some id) = append_assoc t.child ((q, id) ∷ []) (children ids cs)

  answer_all-Answered :
      (parent : SnapshotRecord) (ids : List String)
      (cs : List (CompiledSnapshotQuestion × Option String))
      (raws : List (WorkerSnapshotQuestionResult fl)) (t : Running fl)
      → All IsAccounted raws
      → Returns
          (λ u. Answered fl ids cs t u)
          (answer_all repr env fl backend settings profile p parent owner ids cs raws t)
  unfolding answer_all
  answer_all-Answered parent [] cs [] t h = record {
    holds = λ s x. record {
      answers = sym (append-nil (names t.answers));
      suffixes = sym (append-nil (names t.suffix_tokens));
      child = sym (append-nil t.child);
      processed = refl;
    };
  }
  answer_all-Answered parent [] cs (raw ∷ raws) t h = record { holds = λ s x. tt }
  answer_all-Answered parent (q ∷ ids) cs [] t h = record { holds = λ s x. tt }
  answer_all-Answered parent (q ∷ ids) [] (raw ∷ raws) t h = record { holds = λ s x. tt }
  answer_all-Answered parent (q ∷ ids) ((c, save) ∷ cs) (raw ∷ raws) t h =
      Returns-bind (λ u. Answered fl (q ∷ []) ((c, save) ∷ []) t u) _ _
        (answer_one-Answered parent q c save raw t h.0)
        λ u k.
          Triple-weaken _ (λ s x. x) (λ v s l. then-Answered q c save ids cs t u v k l)
            (λ e s x. tt) (answer_all-Answered parent ids cs raws u h.1)

  IsAccounted-one :
      (raw : WorkerSnapshotQuestionResult fl) → snapshot_question_ok fl raw ≡ true → IsAccounted raw
  unfolding snapshot_question_ok
  IsAccounted-one raw h =
      let same = eqb raw.snapshot.suffix_tokens raw.question.processed_tokens in
      let branch = branch_ok fl raw.snapshot in
      let aligned = question_ok fl raw.question in
      let e = both (question_fields_ok fl raw.question) (aligned && (branch && same)) h in
      eqb-true raw.snapshot.suffix_tokens raw.question.processed_tokens
        (both branch same (both aligned (branch && same) e.1).1).1

  accounted :
      (raws : List (WorkerSnapshotQuestionResult fl))
      → all (snapshot_question_ok fl) raws ≡ true
      → All IsAccounted raws
  accounted [] h = tt
  accounted (raw ∷ raws) h =
      let hs = both (snapshot_question_ok fl raw) (all (snapshot_question_ok fl) raws) h in
      (IsAccounted-one raw hs.0, accounted raws hs.1)

  accepted :
      (r : WorkerResult fl)
      → result_ok fl r ≡ true
      → all (snapshot_question_ok fl) r.questions ≡ true
  unfolding result_ok
  accepted r h =
      let each = all (snapshot_question_ok fl) r.questions in
      let number = has_length 1 32 r.questions && each in
      let runtime = is_sha256 r.runtime_sha256 && number in
      let model = is_sha256 r.model_sha256 && runtime in
      let e = both (is_nonempty r.id) model h in
      let f = both (is_sha256 r.model_sha256) runtime e.1 in
      let g = both (is_sha256 r.runtime_sha256) number f.1 in
      (both (has_length 1 32 r.questions) each g.1).1

  -- the result of `backend.evaluate`, which its model checks
  pub evaluate-Answered :
      (ids : List String) (questions : List (CompiledSnapshotQuestion × Option String))
      → ((id : String) (qs : List (CompiledSnapshotQuestion × Option String)) (w : env.World)
          → Meets {E = Error}
              (λ r _. result_ok fl r ≡ true)
              (λ _ _. Unit {0})
              (backend.evaluate id qs w))
      → Returns
          (λ found.
            Evaluated backend p.effective_parent questions
            × Answered fl ids questions (nothing_yet repr env fl backend settings) found.1)
          (evaluate repr env fl backend settings profile p owner ids questions)
  unfolding evaluate
  evaluate-Answered ids questions valid =
      Returns-bind (λ _. Unit {0}) (restore env p.effective_parent) _
        (Triple-Any (restore env p.effective_parent))
        λ parent _.
          Returns-bind
            (λ r.
              (s : Sys env) × ((backend.evaluate p.effective_parent questions s.world).0 ≡ ok r))
            (call {env = env} (backend.evaluate p.effective_parent questions)) _
            (Returns-self (call {env = env} (backend.evaluate p.effective_parent questions)))
            λ r (s, e).
              Returns-then (lift (guard (r.model_sha256 == profile.model_sha256) Error.protocol)) _
                (Returns-then
                  (lift (guard (r.runtime_sha256 == profile.runtime_sha256) Error.protocol)) _
                  (Returns-then
                    (lift (guard (eqb (length r.questions) (length ids)) Error.protocol)) _
                    (Returns-bind
                      (λ u. Answered fl ids questions (nothing_yet repr env fl backend settings) u)
                      _ _
                      (answer_all-Answered parent ids questions r.questions
                        (nothing_yet repr env fl backend settings)
                        (accounted r.questions (
                          accepted r (
                            subst
                              (λ o.
                                Meets {E = Error} (λ r _. result_ok fl r ≡ true) (λ _ _. Unit {0})
                                  (o, (backend.evaluate p.effective_parent questions s.world).1))
                              e (valid p.effective_parent questions s.world)))))
                      (λ u k. record {
                        holds = λ t x. (record { result = r; world = s.world; found = e }, k);
                      }))))

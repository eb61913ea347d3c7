-- ===== src/Snapshots/Service/Soundness.antt =====
-- The requests keep the store sound: the rules, and the plan of a branch with its promotion and its child.
pub mod Bodies
pub mod Stores
pub mod Requests
use riderless.Prelude.{
  ℕ, String, ◌≡◌, refl, Bool, true, false, Option, none, some, List, [], ◌∷◌, ◌==◌, leb,
  if◌then◌else◌,
}
use riderless.Action.{Outcome, ok, err, pure, raise, lift, on_error, ◌>>=◌, ◌>>◌}
use riderless.Action.Triple.{
  Meets, Triple, Triple-bind, Triple-then, Triple-pure, Triple-raise, Triple-if, Triple-weaken,
  Triple-on_error,
}
use riderless.Mapping.Arithmetic.{Floats}
use riderless.Snapshots.Errors.{Error}
use riderless.Snapshots.Schema.{Boundary, Persistence, Promotion, Message, is_b18}
use riderless.Snapshots.Wire.Rows.{WorkerSnapshotRow, WorkerPromoted}
use riderless.Snapshots.Wire.Requests.{SnapshotRef, Relationship}
use riderless.Snapshots.Store.Types.{SnapshotRecord, Store}
use riderless.Snapshots.Store.Dict.{find, modify}
use riderless.Snapshots.Store.Dict.Laws.{modify-Unique}
use riderless.Snapshots.Store.Env.{Env, Sys, Do, call, ask}
use riderless.Snapshots.Store.Env.Rules.{
  On, Keeps, Keeps-call, Keeps-ask, Triple-reads, Triple-writes,
}
use riderless.Snapshots.Store.Core.{get, now}
use riderless.Snapshots.Store.Lease.{with_lease}
use riderless.Snapshots.Store.Lease.Pins.{Member, pin-Inv, unpin-Inv, pin-IsPinned}
use riderless.Snapshots.Store.Lease.Scope.{Triple-with_lease}
use riderless.Snapshots.Store.Rule.Safe.{Inv}
use riderless.Snapshots.Store.Rule.Loops.{get-keeps}
use riderless.Snapshots.Store.Accounting.{IsSound}
use riderless.Snapshots.Store.Accounting.Presence.{IsSound-Safe}
use riderless.Snapshots.Store.Registry.{
  Registration, register, memoize_promotion, memoized_promotion, forget_promotion, is_promotion,
  delete, restore,
}
use riderless.Snapshots.Store.Registry.Loading.{IsSound-Lends, modify-IsSound}
use riderless.Snapshots.Store.Registry.Soundness.{Sound, Triple-guard, delete-Sound}
use riderless.Snapshots.Store.Registry.Registering.{register-Registered}
use riderless.Snapshots.Store.Registry.Restoring.{Pinned, restore-Restored}
use riderless.Snapshots.Service.Office.{Backend, Settings}
use riderless.Snapshots.Service.Planning.{
  BranchPlan, new_snapshot_id, given_up, roll_back, promotion_of, promote_as, promote, promote_18,
  ensure_30, plan_from, plan_replacement, plan_followup, plan, child_of, save_child,
}

module _ {env : Env} where
  -- The store is sound before, and after whether the action returns or raises.
  abbrev pub Sounds : {A : Type 0} → Do env A → Type 0
  Sounds m = Keeps Sound m

  pub Sounds-bind :
      {A B : Type 0} (m : Do env A) (f : A → Do env B)
      → Sounds m
      → ((a : A) → Sounds (f a))
      → Sounds (m >>= f)
  Sounds-bind m f k l = Triple-bind (λ _. On Sound) m f k l

  pub Sounds-then :
      {A B : Type 0} (m : Do env A) (n : Do env B) → Sounds m → Sounds n → Sounds (m >> n)
  Sounds-then m n k l = Triple-then (λ _. On Sound) m n k (λ _. l)

  pub Sounds-pure : {A : Type 0} (a : A) → Sounds (pure a)
  Sounds-pure a = Triple-pure a (λ s h. h)

  pub Sounds-raise : {A : Type 0} (e : Error) → Sounds {A = A} (raise e)
  Sounds-raise e = Triple-raise e (λ s h. h)

  pub Sounds-lift : {A : Type 0} (r : Outcome Error A) → Sounds (lift r)
  Sounds-lift (ok a) = record { holds = λ s h. h }
  Sounds-lift (err e) = record { holds = λ s h. h }

  pub Sounds-on_error :
      {A B : Type 0} (m : Do env A) (cleanup : Do env B)
      → Sounds m
      → Sounds cleanup
      → Sounds (on_error m cleanup)
  Sounds-on_error m cleanup k l = Triple-on_error (λ _. On Sound) m cleanup k (λ e. l)

  -- a body that restores the snapshot that it leases
  pub Sounds-restored :
      {A : Type 0} (id : String) (f : SnapshotRecord → Do env A)
      → ((r : SnapshotRecord) → Sounds (f r))
      → Sounds (with_lease env (id ∷ []) (restore env id >>= f))
  Sounds-restored id f k =
      Triple-with_lease env IsSound IsSound-Safe.stable (Pinned id) Sound (λ _. Sound) (id ∷ []) _
        (λ pinned s h ms.
          let p = pin-Inv IsSound IsSound-Lends pinned s h in
          let m : Member pinned s id = ms.0 in
          record {
            unique = p.unique;
            rest = (p.rest, pin-IsPinned id pinned s m.object m.found m.named);
          })
        (Triple-bind (λ _. On Sound) (restore env id) f
          (Triple-weaken (restore env id) (λ s h. h) (λ r s h. h.0) (λ e s h. h)
            (restore-Restored env id))
          k)
        (λ pinned a s h. unpin-Inv IsSound IsSound-Lends pinned s h)
        (unpin-Inv IsSound IsSound-Lends) (λ s h. h)

module _ (env : Env) where
  pub get-Sounds : (id : String) → Sounds {env = env} (get env id)
  get-Sounds id =
      Triple-weaken (get env id) (λ s h. h) (λ r s h. h.0.0) (λ e s h. h)
        (get-keeps env IsSound IsSound-Safe.stable id)

  pub register-Sounds : (a : Registration) → Sounds (register env a)
  register-Sounds a =
      Triple-weaken (register env a) (λ s h. h) (λ r s h. h.0) (λ e s h. h)
        (register-Registered env a)

  pub delete-Sounds : (id : String) → Sounds (delete env id)
  delete-Sounds id =
      Triple-weaken (delete env id) (λ s h. h) (λ r s h. h.0) (λ e s h. h) (delete-Sound env id)

  pub new_snapshot_id-Sounds : Sounds (new_snapshot_id env)
  new_snapshot_id-Sounds = record { holds = λ s h. h }

  -- A write to `promotion_child`.
  promotion_child-Sound :
      (child : Option String) (id : String) (s : Store)
      → Sound s
      → Sound
          (record s { records = modify id (λ p. record p { promotion_child = child }) s.records })
  promotion_child-Sound child id s h =
      let f : SnapshotRecord → SnapshotRecord = λ p. record p { promotion_child = child } in
      record {
        unique = modify-Unique f (λ r. refl) id s.records h.unique;
        rest =
            modify-IsSound f (λ r. refl) (λ r. refl) (λ r. refl) (λ r. refl) (λ r. refl) s id
              h.rest;
      }

  memoize_promotion-Sounds : (parent child : String) → Sounds (memoize_promotion env parent child)
  unfolding memoize_promotion
  memoize_promotion-Sounds parent child = Sounds-bind (get env parent) _ (get-Sounds parent) λ p.
      Sounds-bind (get env child) _ (get-Sounds child) λ c.
        Triple-guard Sound (is_promotion c p) Error.integrity _ (λ s h. h)
          λ _. record { holds = λ s h. promotion_child-Sound (some child) parent s.store h }

  memoized_promotion-Sounds : (parent : String) → Sounds (memoized_promotion env parent)
  unfolding memoized_promotion
  memoized_promotion-Sounds parent = Sounds-bind (get env parent) _ (get-Sounds parent) λ p.
      Triple-reads Sound (λ s. s.records) _
        λ rs. record { holds = λ s h. (go rs p.promotion_child).holds s h.0 }
    where
      gone : Sounds {env = env} (forget_promotion env parent)
      gone = record { holds = λ s h. promotion_child-Sound none parent s.store h }

      held :
          (id : String) (o : Option SnapshotRecord)
          → Sounds {env = env} {A = Option String} (elim o [
            | none ↦ forget_promotion env parent
            | some child ↦ do
              t ← now env
              if leb child.expires_at t then forget_promotion env parent else pure (some id)
          ])
      held id none = gone
      held id (some child) = Sounds-bind (now env) _ (Keeps-ask Sound env.clock) λ t.
          Triple-if (leb child.expires_at t) (forget_promotion env parent) (pure (some id))
            (λ _. gone) (λ _. Sounds-pure (some id))

      go :
          (rs : List SnapshotRecord) (o : Option String)
          → Sounds {env = env} {A = Option String} (elim o [
            | none ↦ forget_promotion env parent
            | some child_id ↦ elim (find child_id rs) [
              | none ↦ forget_promotion env parent
              | some child ↦ do
                t ← now env
                if leb child.expires_at t then forget_promotion env parent else pure (some child_id)
            ]
          ])
      go rs none = gone
      go rs (some id) = held id (find id rs)

  pub roll_back-Sounds : (ids : List String) → Sounds (roll_back env ids)
  unfolding roll_back
  roll_back-Sounds [] = Sounds-pure tt
  roll_back-Sounds (id ∷ ids) =
      Sounds-then _ _
        (record { holds = λ s h. go (delete env id s) ((delete-Sounds id).holds s h) })
        (roll_back-Sounds ids)
    where
      go :
          (r : Outcome Error ℕ × Sys env)
          → Meets (λ _. On Sound) (λ _. On Sound) r
          → Meets (λ _. On Sound) (λ _. On Sound) (given_up env r id)
      go (ok n, s) h = h
      go (err Error.unavailable, s) h = h
      go (err e, s) h = h

module _ (env : Env) (fl : Floats) (backend : Backend env fl) (settings : Settings) where
  promote_as-Sounds :
      (r : SnapshotRecord) (persistence : Persistence) (new_id : String)
      → Sounds (promote_as env fl backend settings r persistence new_id)
  unfolding promote_as
  promote_as-Sounds r persistence new_id =
      Sounds-bind (call (backend.promote r.id new_id)) _
        (Keeps-call Sound (backend.promote r.id new_id))
        λ promoted.
          Triple-guard Sound (promoted.snapshot.snapshot_id == new_id) Error.protocol _ (λ s h. h)
            λ _.
              let a = promotion_of env fl backend settings r persistence promoted in
              Sounds-then (register env a) _ (register-Sounds env a) (Sounds-pure promoted)

  promote-Sounds :
      (r : SnapshotRecord) (persistence : Persistence)
      → Sounds (with_lease env (r.id ∷ []) (promote env fl backend settings r persistence))
  unfolding promote
  promote-Sounds r persistence = Sounds-restored r.id _ λ _.
      Sounds-bind (new_snapshot_id env) _ (new_snapshot_id-Sounds env) λ new_id.
        Sounds-on_error (promote_as env fl backend settings r persistence new_id) _
          (promote_as-Sounds r persistence new_id) (roll_back-Sounds env (new_id ∷ []))

  promote_18-Sounds :
      (r : SnapshotRecord) (persistence : Persistence)
      → Sounds (promote_18 env fl backend settings r persistence)
  unfolding promote_18
  promote_18-Sounds r persistence =
      Sounds-bind (memoized_promotion env r.id) _ (memoized_promotion-Sounds env r.id) go
    where
      go :
          (o : Option String)
          → Sounds {env = env} {A = String × Promotion × fl.Float} (elim o [
            | some id ↦ pure (id, Promotion.reused, fl.of_ℕ 0)
            | none ↦ do
              promoted ← with_lease env (r.id ∷ []) (promote env fl backend settings r persistence)
              memoize_promotion env r.id promoted.snapshot.snapshot_id
              pure (promoted.snapshot.snapshot_id, Promotion.performed, promoted.timing_ms.total)
          ])
      go (some id) = Sounds-pure (id, Promotion.reused, fl.of_ℕ 0)
      go none =
          Sounds-bind (with_lease env (r.id ∷ []) (promote env fl backend settings r persistence)) _
            (promote-Sounds r persistence)
            λ p.
              Sounds-then (memoize_promotion env r.id p.snapshot.snapshot_id) _
                (memoize_promotion-Sounds env r.id p.snapshot.snapshot_id)
                (Sounds-pure (p.snapshot.snapshot_id, Promotion.performed, p.timing_ms.total))

  ensure_30-Sounds :
      (r : SnapshotRecord) (persistence : Persistence)
      → Sounds (ensure_30 env fl backend settings r persistence)
  unfolding ensure_30
  ensure_30-Sounds r persistence =
      Triple-if (is_b18 r.completed_blocks) (promote_18 env fl backend settings r persistence) _
        (λ _. promote_18-Sounds r persistence)
        (λ _. Sounds-pure (r.id, Promotion.none_needed, fl.of_ℕ 0))

  plan_replacement-Sounds :
      (ref : SnapshotRef) (r : SnapshotRecord)
      → Sounds (plan_replacement env fl backend settings ref r)
  unfolding plan_replacement
  plan_replacement-Sounds ref r = go r.boundary r.context_parent
    where
      go :
          (b : Boundary) (o : Option String)
          → Sounds {env = env} {A = BranchPlan fl} (elim b [
            | Boundary.context ↦ raise Error.followup_unsupported
            | Boundary.readout ↦ elim o [
              | none ↦ raise Error.followup_unsupported
              | some id ↦ do
                context ← get env id
                found ← ensure_30 env fl backend settings context context.persistence
                pure (
                    plan_from env fl backend settings ref context Boundary.context
                      (some found.0)
                      found)
            ]
          ])
      go Boundary.context o = Sounds-raise Error.followup_unsupported
      go Boundary.readout none = Sounds-raise Error.followup_unsupported
      go Boundary.readout (some id) = Sounds-bind (get env id) _ (get-Sounds env id) λ context.
          Sounds-bind (ensure_30 env fl backend settings context context.persistence) _
            (ensure_30-Sounds context context.persistence) λ found. record { holds = λ s h. h }

  plan_followup-Sounds :
      (ref : SnapshotRef) (r : SnapshotRecord)
      → Sounds (plan_followup env fl backend settings ref r)
  unfolding plan_followup
  plan_followup-Sounds ref r =
      Sounds-bind (ensure_30 env fl backend settings r r.persistence) _
        (ensure_30-Sounds r r.persistence) (λ found. go found r.boundary)
    where
      go :
          (found : String × Promotion × fl.Float) (b : Boundary)
          → Sounds {env = env} {A = BranchPlan fl} (elim b [
            | Boundary.context ↦
                pure (plan_from env fl backend settings ref r Boundary.context (some found.0) found)
            | Boundary.readout ↦
                pure
                  (plan_from env fl backend settings ref r Boundary.readout r.context_parent found)
          ])
      go found Boundary.context = record { holds = λ s h. h }
      go found Boundary.readout = record { holds = λ s h. h }

  pub plan-Sounds : (ref : SnapshotRef) → Sounds (plan env fl backend settings ref)
  unfolding plan
  plan-Sounds ref =
      Sounds-bind (get env ref.id) _ (get-Sounds env ref.id) (λ r. go r ref.relationship)
    where
      go :
          (r : SnapshotRecord) (x : Relationship)
          → Sounds {env = env} {A = BranchPlan fl} (elim x [
            | Relationship.replace_question ↦ plan_replacement env fl backend settings ref r
            | Relationship.followup ↦ plan_followup env fl backend settings ref r
          ])
      go r Relationship.replace_question = plan_replacement-Sounds ref r
      go r Relationship.followup = plan_followup-Sounds ref r

  pub save_child-Sounds :
      (save : Option String) (row : Option WorkerSnapshotRow) (p : BranchPlan fl)
      (messages : List Message) (prefix owner : String) (persistence : Persistence)
      → Sounds (save_child env fl backend settings save row p messages prefix owner persistence)
  unfolding save_child
  save_child-Sounds none none p messages prefix owner persistence = Sounds-pure none
  save_child-Sounds none (some row) p messages prefix owner persistence =
      Sounds-raise Error.protocol
  save_child-Sounds (some id) none p messages prefix owner persistence = Sounds-raise Error.protocol
  save_child-Sounds (some id) (some row) p messages prefix owner persistence =
      Triple-guard Sound (row.snapshot_id == id) Error.protocol _ (λ s h. h)
        λ _.
          let a = child_of env fl backend settings row p messages prefix owner persistence in
          Sounds-then (register env a) _ (register-Sounds env a) (Sounds-pure (some id))

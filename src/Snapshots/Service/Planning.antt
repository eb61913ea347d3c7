-- ===== src/Snapshots/Service/Planning.antt =====
-- unridden/api/snapshots/service.py: `_ensure_30`, `_plan`, `_register_child` and what the requests share.
use riderless.Prelude.{ℕ, ◌+◌, String, Option, none, some, List, [], ◌∷◌, ◌==◌, if◌then◌else◌}
use riderless.Action.{Outcome, ok, err, pure, raise, lift, on_error, ◌>>=◌, ◌>>◌}
use riderless.Mapping.Arithmetic.{Floats}
use riderless.Snapshots.Errors.{Error}
use riderless.Snapshots.Schema.{Checkpoint, Boundary, Persistence, Promotion, Message, is_b18}
use riderless.Snapshots.Wire.Rows.{WorkerSnapshotRow, WorkerPromoted}
use riderless.Snapshots.Wire.Requests.{SnapshotRef, Relationship}
use riderless.Snapshots.Store.Types.{SnapshotRecord}
use riderless.Snapshots.Store.Env.{Env, Sys, Do, call, ask}
use riderless.Snapshots.Store.Core.{get}
use riderless.Snapshots.Store.Lease.{with_lease}
use riderless.Snapshots.Store.Persist.{◌^^◌, guard}
use riderless.Snapshots.Store.Registry.{
  Registration, register, memoize_promotion, memoized_promotion, delete, restore, promoted_context,
}
use riderless.Snapshots.Service.Office.{Backend, Settings}

-- `_row_bytes`
abbrev pub row_bytes : WorkerSnapshotRow → ℕ
row_bytes r = r.bytes.lower_kv + r.bytes.upper_kv + r.bytes.h18 + r.bytes.h30

pub record BranchPlan (fl : Floats) : Type 0 where
  pub requested_parent : String
  pub effective_parent : String
  pub promotion : Promotion
  pub promotion_ms : fl.Float
  pub mode : Boundary
  pub messages : List Message
  pub answer_prefix : String
  pub child_context_parent : Option String

module _ (env : Env) where
  -- `new_snapshot_id`
  abbrev pub new_snapshot_id : Do env String
  new_snapshot_id = do hex ← ask env.fresh_hex; pure ("snap_" ^^ hex)

  -- what `_rollback` does after the attempt to delete one id
  abbrev pub given_up : Outcome Error ℕ × Sys env → String → Outcome Error (Unit {0}) × Sys env
  given_up (ok n, s) id = (ok tt, s)
  given_up (err Error.unavailable, s) id = (ok tt, s)
  given_up (err e, s) id = (ok tt, record s { world = (env.drop id s.world).1 })

  -- `_rollback` of the ids in the order that its loop has them
  unfoldable pub roll_back : List String → Do env (Unit {0})
  roll_back [] = pure tt
  roll_back (id ∷ ids) = do λ s. given_up (delete env id s) id; roll_back ids

module _ (env : Env) (fl : Floats) (backend : Backend env fl) (settings : Settings) where
  -- the arguments of the `register` of `_ensure_30`
  unfoldable pub promotion_of : SnapshotRecord → Persistence → WorkerPromoted fl → Registration
  promotion_of r persistence p = record {
    snapshot_id = p.snapshot.snapshot_id;
    owner = r.owner;
    completed_blocks = Checkpoint.b30;
    boundary = r.boundary;
    parent = some r.id;
    context_parent = promoted_context r;
    messages = r.messages;
    answer_prefix = r.answer_prefix;
    tokens = p.snapshot.tokens;
    host_bytes = row_bytes p.snapshot;
    persistence = persistence;
    prompt_sha256 = p.snapshot.prompt_sha256;
    ttl_seconds = settings.default_ttl;
    promotion_of = some r.id;
  }

  -- the `try` block of `_ensure_30`
  unfoldable pub promote_as : SnapshotRecord → Persistence → String → Do env (WorkerPromoted fl)
  unfolding promotion_of
  promote_as r persistence new_id = do
    promoted ← call (backend.promote r.id new_id)
    lift (guard (promoted.snapshot.snapshot_id == new_id) Error.protocol)
    register env (promotion_of r persistence promoted)
    pure promoted

  -- the body of the lease in `_ensure_30`
  unfoldable pub promote : SnapshotRecord → Persistence → Do env (WorkerPromoted fl)
  unfolding promote_as roll_back
  promote r persistence = do
    restore env r.id
    new_id ← new_snapshot_id env
    on_error (promote_as r persistence new_id) (roll_back env (new_id ∷ []))

  -- `_ensure_30` of an 18
  unfoldable pub promote_18 : SnapshotRecord → Persistence → Do env (String × Promotion × fl.Float)
  unfolding promote
  promote_18 r persistence = do
    existing ← memoized_promotion env r.id
    elim existing [
      | some id ↦ pure (id, Promotion.reused, fl.of_ℕ 0)
      | none ↦ do
        promoted ← with_lease env (r.id ∷ []) (promote r persistence)
        memoize_promotion env r.id promoted.snapshot.snapshot_id
        pure (promoted.snapshot.snapshot_id, Promotion.performed, promoted.timing_ms.total)
    ]

  -- `_ensure_30`
  unfoldable pub ensure_30 : SnapshotRecord → Persistence → Do env (String × Promotion × fl.Float)
  unfolding promote_18
  ensure_30 r persistence =
      if is_b18 r.completed_blocks
      then promote_18 r persistence
      else pure (r.id, Promotion.none_needed, fl.of_ℕ 0)

  -- the `BranchPlan` of a record and the 30 that stands for it
  abbrev pub plan_from :
      SnapshotRef
      → SnapshotRecord
      → Boundary
      → Option String
      → String × Promotion × fl.Float
      → BranchPlan fl
  plan_from ref r mode context (effective, promotion, ms) = record {
    requested_parent = ref.id;
    effective_parent = effective;
    promotion = promotion;
    promotion_ms = ms;
    mode = mode;
    messages = r.messages;
    answer_prefix = r.answer_prefix;
    child_context_parent = context;
  }

  -- `_plan` of a new question instead of that of a readout
  unfoldable pub plan_replacement : SnapshotRef → SnapshotRecord → Do env (BranchPlan fl)
  unfolding ensure_30
  plan_replacement ref r = elim r.boundary [
    | Boundary.context ↦ raise Error.followup_unsupported
    | Boundary.readout ↦ elim r.context_parent [
      | none ↦ raise Error.followup_unsupported
      | some id ↦ do
        context ← get env id
        found ← ensure_30 context context.persistence
        pure (plan_from ref context Boundary.context (some found.0) found)
    ]
  ]

  -- `_plan` of a follow-up
  unfoldable pub plan_followup : SnapshotRef → SnapshotRecord → Do env (BranchPlan fl)
  unfolding ensure_30
  plan_followup ref r = do
    found ← ensure_30 r r.persistence
    elim r.boundary [
      | Boundary.context ↦ pure (plan_from ref r Boundary.context (some found.0) found)
      | Boundary.readout ↦ pure (plan_from ref r Boundary.readout r.context_parent found)
    ]

  -- `_plan`
  unfoldable pub plan : SnapshotRef → Do env (BranchPlan fl)
  unfolding plan_replacement plan_followup
  plan ref = do
    r ← get env ref.id
    elim ref.relationship [
      | Relationship.replace_question ↦ plan_replacement ref r
      | Relationship.followup ↦ plan_followup ref r
    ]

  -- the arguments of `_register_child`
  unfoldable pub child_of :
      WorkerSnapshotRow
      → BranchPlan fl
      → List Message
      → String
      → String
      → Persistence
      → Registration
  child_of row p messages answer_prefix owner persistence = record {
    snapshot_id = row.snapshot_id;
    owner = owner;
    completed_blocks = Checkpoint.b30;
    boundary = Boundary.readout;
    parent = some p.effective_parent;
    context_parent = p.child_context_parent;
    messages = messages;
    answer_prefix = answer_prefix;
    tokens = row.tokens;
    host_bytes = row_bytes row;
    persistence = persistence;
    prompt_sha256 = row.prompt_sha256;
    ttl_seconds = settings.default_ttl;
    promotion_of = none;
  }

  -- a child is registered where it was asked for, under the id that was chosen, and nowhere else
  unfoldable pub save_child :
      Option String
      → Option WorkerSnapshotRow
      → BranchPlan fl
      → List Message
      → String
      → String
      → Persistence
      → Do env (Option String)
  unfolding child_of
  save_child none none p messages prefix owner persistence = pure none
  save_child none (some row) p messages prefix owner persistence = raise Error.protocol
  save_child (some id) none p messages prefix owner persistence = raise Error.protocol
  save_child (some id) (some row) p messages prefix owner persistence = do
    lift (guard (row.snapshot_id == id) Error.protocol)
    register env (child_of row p messages prefix owner persistence)
    pure (some id)

-- ===== src/Snapshots/Service/Simulation.antt =====
-- The theorems of the service's states and responses, with a simulated worker.
use riderless.Prelude.{
  ◌&&◌, some, ℕ, ◌+◌, String, ◌≡◌, refl, true, false, none, some, is_some, [], ◌∷◌, map, length,
  ltb, leb,
}
use riderless.Snapshots.Store.Core.{first}
use riderless.Snapshots.Service.Planning.{plan}
use riderless.Snapshots.Store.Core.{get}
use riderless.Snapshots.Store.Dict.{find}
use riderless.Snapshots.Compiler.{compile_context_followup}
use riderless.Snapshots.Store.Lease.{with_lease}
use riderless.Snapshots.Store.Lease.{collect}
use riderless.Snapshots.Store.Core.{touch}
use riderless.Snapshots.Store.Dict.{modify}
use riderless.Snapshots.Store.Registry.{restore}
use riderless.Snapshots.Store.Lease.{pin}
use riderless.Snapshots.Store.Lease.{modify_each}
use riderless.Snapshots.Store.Lease.{union}
use riderless.Snapshots.Compiler.{compile_context_prompt}
use riderless.Snapshots.Store.Lease.{ancestors}
use riderless.Snapshots.Store.Lease.{unvisited}
use riderless.Snapshots.Mapping.{map_answer}
use riderless.Mapping.{set_items}
use riderless.Action.{Outcome, ok, err}
use riderless.Json.{Json}
use riderless.Mapping.Arithmetic.{Floats}
use riderless.Snapshots.Errors.{Error}
use riderless.Snapshots.Schema.{Checkpoint, Boundary, Persistence}
use riderless.Snapshots.Compiler.{SnapshotInput}
use riderless.Snapshots.Wire.Rows.{WorkerHello, WorkerSnapshotRow}
use riderless.Snapshots.Wire.Requests.{SnapshotCreateRequest}
use riderless.Snapshots.Store.Env.{Env}
use riderless.Snapshots.Store.Index.{open_store}
use riderless.Snapshots.Store.Core.{expire, expire_loop}
use riderless.Snapshots.Service.{Service, start, serialized}
use riderless.Snapshots.Service.Lifecycle.{is_free, IsReleased}
use riderless.Snapshots.Service.Office.{Backend, Settings, parts, new_store, store_config, within}
use riderless.Snapshots.Service.Creation.{create}
use riderless.Snapshots.Service.Soundness.Stores.{AllSound}
use riderless.Compiler.{Question}
use riderless.Mapping.{EvaluationMode, Answer, choice_answer}
use riderless.Snapshots.Schema.{Promotion}
use riderless.Snapshots.Wire.Branches.{
  WorkerResult, WorkerSnapshotQuestionResult, WorkerRide, RideMode, Restore, result_ok, ride_ok,
}
use riderless.Snapshots.Wire.Requests.{SnapshotRef, Relationship, V2DecisionRequest, RiderRequest}
use riderless.Snapshots.Service.Decisions.{V2DecisionResponse, decide}
use riderless.Snapshots.Service.Evaluations.{RiderResponse, ride}
use riderless.Snapshots.Service.Riding.{Rode, ride-Rode}
use riderless.Snapshots.Service.Replies.{Replies, decide-Replies}
use riderless.Snapshots.Service.Steps.{
  Reaches, here, later, started, created, new_service, reached-AllSound, reached-IsReleased,
}

abbrev whole : Floats
whole = record {
  Float = ℕ;
  of_ℕ = λ n. n;
  add = λ a b. a + b;
  sub = λ a b. a;
  mul = λ a b. a;
  div = λ a b. a;
  exp = λ x. x;
  sum = λ xs. 1;
  less = ltb;
  at_most = leb;
  is_finite = λ x. true;
  is_one = λ x. true;
  of_f32 = λ n. n;
}

abbrev hex : String
hex = "0123456789abcdef0123456789abcdef"

-- The world is a clock.
abbrev machine : Env
machine = record {
  World = ℕ;
  clock = λ n. (n, n + 1);
  fresh_hex = λ n. (hex, n);
  save = λ id dir n. (err Error.execution, n);
  load = λ id dir files n. (ok tt, n);
  drop = λ id n. (ok 30, n);
  make_dirs = λ dir n. (ok tt, n);
  make_dir = λ dir n. (ok tt, n);
  list_dirs = λ path n. (ok [], n);
  write_manifest = λ path j n. (ok tt, n);
  read_manifest = λ path n. (err Error.integrity, n);
  sync_tree = λ dir n. (ok tt, n);
  sync_dir = λ dir n. (ok tt, n);
  replace = λ from to n. (ok tt, n);
  remove_tree = λ dir n. (ok tt, n);
}

abbrev digest : String
digest = "0123456789abcdef0123456789abcdef0123456789abcdef0123456789abcdef"

abbrev hello : WorkerHello
hello = record {
  model_id = "local-gemma-unridden-v1";
  model_name = "gemma";
  model_sha256 = digest;
  runtime_sha256 = digest;
  profile = "split18-30-v1";
  labels = "A" ∷ "B" ∷ [];
  label_token_ids = 11 ∷ 12 ∷ [];
  context_size = 100;
  batch_size = 10;
  ubatch_size = 10;
  threads = 4;
  n_embd = 8;
  reference_context = false;
  rider_mode = true;
}

abbrev row : Checkpoint × String → WorkerSnapshotRow
row (blocks, id) = record {
  snapshot_id = id;
  completed_blocks = blocks;
  parent = none;
  tokens = 30;
  bytes = record { lower_kv = 20; upper_kv = 10; h18 = 0; h30 = 0 };
  kind = Boundary.context;
  prompt_sha256 = "q";
}

-- the answer to a question, which saves nothing
abbrev reply : String → WorkerSnapshotQuestionResult whole
reply id = record {
  question = record {
    id = id;
    label_logits = 0 ∷ 1 ∷ [];
    label_token_ids = 11 ∷ 12 ∷ [];
    allowed_label_mass = 1;
    argmax_token = 12;
    argmax_logit = 1;
    prompt_sha256 = digest;
    prompt_tokens = 40;
    processed_tokens = 10;
    reused_tokens = 30;
    cache_cleared = false;
    evaluation_mode = EvaluationMode.sequential;
    batch_sequences = 1;
    timing_ms = 7;
  };
  snapshot = record {
    parent = "snap_0123456789abcdef0123456789abcdef";
    suffix_tokens = 10;
    block_tokens = record { lower = 0; upper = 10 };
    restore = Restore.resident;
    restored_bytes = 0;
    restore_ms = 0;
    inference_ms = 5;
    child = none;
  };
}

abbrev result : WorkerResult whole
result = record {
  id = "2";
  model_sha256 = digest;
  runtime_sha256 = digest;
  questions = reply "route" ∷ reply "priority" ∷ [];
}

-- a ride of two tokens on the context
abbrev ridden : WorkerRide whole
ridden = record {
  id = "3";
  mode = RideMode.snapshot_mode;
  is_stock = false;
  text = "so";
  token_ids = 5 ∷ 6 ∷ [];
  stop_reason = "eog";
  prompt_sha256 = digest;
  prompt_tokens = 40;
  reused_tokens = 30;
  prefilled_tokens = 10;
  generated_tokens = 2;
  block_tokens = ("lower", 12) ∷ ("upper", 12) ∷ [];
  restore = some Restore.resident;
  restored_bytes = 0;
  timing_ms = record { restore = 0; time_to_first_token = 1; decode = 2; total = 3 };
  decode_tokens_per_second = 9;
  steps = [];
}

abbrev worker : Backend machine whole
worker = record {
  ready = λ n. true;
  monotonic = λ n. (n, n);
  start = λ n. (ok hello, n + 1);
  close = λ n. (ok tt, n);
  create = λ c checkpoints labels n. (
    ok (record {
      id = "1";
      prompt_sha256 = "q";
      tokens = 7;
      snapshots = map row checkpoints;
      readout = none;
      block_tokens = record { lower = 7; upper = 7 };
      timing_ms = record { lower = 1; upper = 1; total = 2 };
    }),
    n + 1,
  );
  promote = λ id new_id n. (err Error.execution, n);
  evaluate = λ id questions n. (ok result, n);
  state_eval = λ id branch export top save n. (err Error.execution, n);
  ride = λ id branch max_tokens top n. (ok ridden, n);
  vectors = λ id which row_begin row_end n. (err Error.execution, n);
}

abbrev settings : Settings
settings = record { store_root = "/snapshots"; host_bytes = 100; default_ttl = 60 }

abbrev request : SnapshotCreateRequest
request = record {
  input = SnapshotInput.context_input (Json.str "state");
  checkpoints = Checkpoint.b30 ∷ [];
  persistence = Persistence.memory;
  ttl_seconds = 60;
}

abbrev begun : Service (parts machine whole worker settings)
begun = new_service (λ n. "") machine whole worker settings 5

abbrev running : Service (parts machine whole worker settings)
running = (start (parts machine whole worker settings) begun).1

abbrev filled : Service (parts machine whole worker settings)
filled = (create (λ n. "") machine whole worker settings request "me" running).1

abbrev run : Reaches (λ n. "") machine whole worker settings begun filled
run =
    later begun running filled (later begun begun running (here begun) (started begun))
      (created request "me" running)

reached-AllSound_example : AllSound filled.world
reached-AllSound_example = reached-AllSound (λ n. "") machine whole worker settings 5 filled run

reached-IsReleased_example :
    IsReleased (parts machine whole worker settings) filled
    × (is_free (parts machine whole worker settings) filled
        ≡ (is_some filled.profile && is_some filled.store))
reached-IsReleased_example = reached-IsReleased (λ n. "") machine whole worker settings 5 filled run

-- A started service has its first store, which is empty.
first_store : (running.store ≡ some 0) × (length running.world.stores ≡ 1)
unfolding start new_service open_store new_store within expire expire_loop
first_store = (refl, refl)

result-is_ok : result_ok whole result ≡ true
unfolding result_ok
result-is_ok = refl

abbrev route : Question
route = Question.choice (Json.str "Choose") (("billing", Json.null) ∷ ("technical", Json.null) ∷ [])

abbrev snapshot : SnapshotRef
snapshot = record {
  id = "snap_0123456789abcdef0123456789abcdef";
  relationship = Relationship.followup;
}

-- a service with one snapshot, whose context is in the worker's memory
abbrev holding : Service (parts machine whole worker settings)
holding = record {
  profile = some hello;
  store = some 0;
  busy = false;
  pending_ids = [];
  recovery_failed_at = none;
  world = record {
    world = 5;
    stores =
        record {
          config = store_config settings hello;
          records =
              record {
                id = "snap_0123456789abcdef0123456789abcdef";
                owner = "me";
                completed_blocks = Checkpoint.b30;
                boundary = Boundary.context;
                parent = none;
                context_parent = none;
                messages = record { role = "user"; content = "state" } ∷ [];
                answer_prefix = "";
                tokens = 30;
                host_bytes = 30;
                persistence = Persistence.memory;
                prompt_sha256 = "q";
                created_at = 1;
                expires_at = 90;
                resident = true;
                disk_dir = none;
                durable_files = none;
                promotion_child = none;
                promotion_of = none;
                leases = 0;
                refcount = 0;
                last_used = 1;
                persisted_host_bytes = 30;
              }
              ∷ [];
          resident_bytes = 30;
          tick = 1;
        }
        ∷ [];
  };
}

abbrev asking : V2DecisionRequest
asking = record {
  snapshot = snapshot;
  questions = ("route", route) ∷ ("priority", route) ∷ [];
  readout = Checkpoint.b30;
  save_result_snapshot = false;
}

abbrev ran :
    Outcome Error (V2DecisionResponse whole) × Service (parts machine whole worker settings)
ran = decide (λ n. "") machine whole worker settings asking "me" holding

abbrev technical : Answer whole
technical = choice_answer "technical" (("billing", 0) ∷ ("technical", 1) ∷ []) 1

abbrev answered : V2DecisionResponse whole
answered = record {
  answers = ("route", technical) ∷ ("priority", technical) ∷ [];
  input_tokens = 20;
  snapshot_usage = record {
    requested_parent = "snap_0123456789abcdef0123456789abcdef";
    effective_parent = "snap_0123456789abcdef0123456789abcdef";
    promotion = Promotion.none_needed;
    suffix_tokens = ("route", 10) ∷ ("priority", 10) ∷ [];
    block_tokens = record { lower = 0; upper = 20 };
    reused_prefix_tokens = 30;
    restored_bytes = 0;
    restore_ms = 0;
    promotion_ms = 0;
    inference_ms = 10;
    child = [];
  };
}

ran_ok : ran ≡ (ok answered, ran.1)
unfolding decide serialized within expire expire_loop first plan get find compile_context_followup
    with_lease collect touch modify restore pin modify_each union ancestors unvisited map_answer
    set_items
ran_ok = refl

decide-Replies_example : Replies (λ n. "") machine whole worker settings asking answered
decide-Replies_example =
    decide-Replies (λ n. "") machine whole worker settings asking "me" holding ran.1 answered
      (λ id qs w. result-is_ok) ran_ok

ridden-is_ok : ride_ok whole ridden ≡ true
unfolding ride_ok
ridden-is_ok = refl

abbrev riding : RiderRequest
riding = record { snapshot = snapshot; prompt = "Continue"; max_tokens = 4; top_logits = 0 }

abbrev rode : Outcome Error (RiderResponse whole) × Service (parts machine whole worker settings)
rode = ride machine whole worker settings riding holding

abbrev continued : RiderResponse whole
continued = record {
  text = "so";
  token_ids = 5 ∷ 6 ∷ [];
  stop_reason = "eog";
  suffix_tokens = 10;
  block_tokens = record { lower = 12; upper = 12 };
  reused_prefix_tokens = 30;
  restored_bytes = 0;
  restore_ms = 0;
  promotion_ms = 0;
  time_to_first_token_ms = 1;
  decode_ms = 2;
  decode_tokens_per_second = 9;
  steps = [];
  output_tokens = 2;
}

rode_ok : rode ≡ (ok continued, rode.1)
unfolding ride serialized within expire expire_loop first plan get find compile_context_prompt
    with_lease collect touch modify restore pin modify_each union ancestors unvisited
rode_ok = refl

ride-Rode_example : Rode machine whole worker settings riding continued
ride-Rode_example =
    ride-Rode machine whole worker settings riding holding rode.1 continued
      (λ id branch max top w. ridden-is_ok) rode_ok

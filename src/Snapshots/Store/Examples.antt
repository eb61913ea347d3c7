-- ===== src/Snapshots/Store/Examples.antt =====
-- The theorems of the store at a concrete store in a small world, whose clock ticks at every reading.
use riderless.Prelude.{
  ◌⊎◌, ℕ, ◌+◌, String, ◌≡◌, refl, subst, ◌↔◌, Bool, true, false, none, some, [], ◌∷◌, All, arith,
  eq_iff, ◌≤◌,
}
use riderless.Action.{ok, err}
use riderless.Action.Triple.{Meets}
use riderless.Json.{Json}
use riderless.Snapshots.Errors.{Error}
use riderless.Snapshots.Schema.{Checkpoint, Boundary, Persistence}
use riderless.Snapshots.Store.Types.{SnapshotRecord, Config}
use riderless.Snapshots.Store.Dict.{find}
use riderless.Snapshots.Store.Dict.Laws.{total}
use riderless.Snapshots.Store.Env.{Env, Sys, Files}
use riderless.Snapshots.Store.Env.Rules.{On}
use riderless.Snapshots.Store.Dict.Laws.{Unique}
use riderless.Snapshots.Store.Catalogue.{catalogue, without, Shows, delete-Shows-without}
use riderless.Snapshots.Store.Rule.Fuel.{expire-terminates}
use riderless.Snapshots.Store.Core.{expire_loop, first, is_expired_leaf, expire}
use riderless.Snapshots.Store.Lease.{contains, ancestors}
use riderless.Snapshots.Store.Lease.Ancestors.{IsAncestor}
use riderless.Snapshots.Store.Manifest.{valid_id, manifest, manifest_ok, safe_name}
use riderless.Snapshots.Store.Budget.{
  fits, enforce_budget, candidates, is_candidate, select, insert_by_use, sort_by_use,
  has_resident_shared_child,
}
use riderless.Snapshots.Store.Rule.Safe.{Inv}
use riderless.Snapshots.Store.Accounting.{uses, IsPinned}
use riderless.Snapshots.Store.Order.{candidates-oldest}
use riderless.Snapshots.Store.RoundTrip.{manifest_ok-manifest}
use riderless.Snapshots.Store.Registry.{Registration, register, delete, restore}
use riderless.Snapshots.Store.Registry.Soundness.{Sound}
use riderless.Snapshots.Store.Registry.Admission.{Registered}
use riderless.Snapshots.Store.Registry.Restoring.{Pinned, Restored}
use riderless.Snapshots.Store.Promises.{
  register-Sound, restore_resident, delete_removes, expire_complete, enforce_budget_room,
  lease_pins, ancestors_exact,
}

abbrev old_id : String
old_id = "snap_00000000000000000000000000000000"

abbrev new_id : String
new_id = "snap_11111111111111111111111111111111"

abbrev checksum : String
checksum = "00000000000000000000000000000000000000000000000000000000000000ff"

abbrev blobs : Files
blobs = ("lower.bin", record { bytes = 30; sha256 = checksum }) ∷ []

abbrev config : Config
config = record {
  root = "/snapshots";
  model_sha256 = "m";
  runtime_sha256 = "r";
  profile = "p";
  n_embd = 8;
  context_size = 100;
  host_bytes = 100;
}

-- A context snapshot on the disk.
abbrev shelved : ℕ → Bool → SnapshotRecord
shelved leases live = record {
  id = old_id;
  owner = "me";
  completed_blocks = Checkpoint.b30;
  boundary = Boundary.context;
  parent = none;
  context_parent = none;
  messages = record { role = "user"; content = "hello" } ∷ [];
  answer_prefix = "";
  tokens = 7;
  host_bytes = 30;
  persistence = Persistence.disk;
  prompt_sha256 = "q";
  created_at = 0;
  expires_at = 1000;
  resident = live;
  disk_dir = some "/snapshots/snap_00000000000000000000000000000000";
  durable_files = some blobs;
  promotion_child = none;
  promotion_of = none;
  leases = leases;
  refcount = 0;
  last_used = 1;
  persisted_host_bytes = 30;
}

abbrev world : Env
world = record {
  World = ℕ;
  clock = λ n. (n, n + 1);
  fresh_hex = λ n. ("ab", n);
  save = λ id dir n. (ok blobs, n);
  load = λ id dir files n. (ok tt, n);
  drop = λ id n. (ok 30, n);
  make_dirs = λ dir n. (ok tt, n);
  make_dir = λ dir n. (ok tt, n);
  list_dirs = λ path n. (ok (old_id ∷ []), n);
  write_manifest = λ path j n. (ok tt, n);
  read_manifest = λ path n. (ok (Json.obj (manifest config (shelved 1 false) blobs)), n);
  sync_tree = λ dir n. (ok tt, n);
  sync_dir = λ dir n. (ok tt, n);
  replace = λ from to n. (ok tt, n);
  remove_tree = λ dir n. (ok tt, n);
}

-- The store with one snapshot, leased or not, resident or not.
abbrev holding : ℕ → Bool → ℕ → Sys world
holding leases live bytes = record {
  store = record {
    config = config;
    records = shelved leases live ∷ [];
    resident_bytes = bytes;
    tick = 1;
  };
  world = 5;
}

old_valid : valid_id old_id ≡ true
unfolding valid_id
old_valid = refl

holding-Sound : (leases : ℕ) → Sound (holding leases true 30).store
unfolding find total uses
holding-Sound leases = record {
  unique = (refl, tt);
  rest = (
    refl,
    (
      record { at = λ k. ground (arith, eq_iff old_id k) },
      (
        omega arith,
        record { at = λ k r h. subst (λ z. valid_id z ≡ true) (named k r h) old_valid },
      ),
    ),
  );
}
  where
    named :
        (k : String) (r : SnapshotRecord) → find k (shelved leases true ∷ []) ≡ some r → old_id ≡ k
    named k r h = ground (arith, eq_iff old_id k, h)

shelved-Pinned : Inv (Pinned old_id) (holding 1 false 0).store
unfolding find total uses
shelved-Pinned = record {
  unique = (refl, tt);
  rest = (
    (
      refl,
      (
        record { at = λ k. ground (arith, eq_iff old_id k) },
        (
          omega arith,
          record { at = λ k r h. subst (λ z. valid_id z ≡ true) (named k r h) old_valid },
        ),
      ),
    ),
    record { pinned = shelved 1 false; found = refl; is_leased = omega arith },
  );
}
  where
    named : (k : String) (r : SnapshotRecord) → find k (shelved 1 false ∷ []) ≡ some r → old_id ≡ k
    named k r h = ground (arith, eq_iff old_id k, h)

-- A readout that continues the context.
abbrev followup : Registration
followup = record {
  snapshot_id = new_id;
  owner = "me";
  completed_blocks = Checkpoint.b30;
  boundary = Boundary.readout;
  parent = some old_id;
  context_parent = some old_id;
  messages = [];
  answer_prefix = "Answer:\n";
  tokens = 9;
  host_bytes = 40;
  persistence = Persistence.memory;
  prompt_sha256 = "q";
  ttl_seconds = 60;
  promotion_of = none;
}

register-Sound_example :
    Meets
      (λ r. On (Registered followup r))
      (λ _. On Sound)
      (register world followup (holding 0 true 30))
register-Sound_example = register-Sound world followup (holding 0 true 30) (holding-Sound 0)

restore_resident_example :
    Meets (λ _. On (Restored old_id)) (λ _. On Sound) (restore world old_id (holding 1 false 0))
restore_resident_example = restore_resident world old_id (holding 1 false 0) shelved-Pinned

delete_removes_example :
    Meets
      (λ _. On (λ t. Sound t × (find old_id t.records ≡ none)))
      (λ _. On Sound)
      (delete world old_id (holding 0 true 30))
delete_removes_example = delete_removes world old_id (holding 0 true 30) (holding-Sound 0)

expire_complete_example :
    Meets
      (λ _. On (λ t. Sound t × (first (is_expired_leaf 5) t.records ≡ none)))
      (λ _. On Sound)
      (expire world (holding 0 true 30))
expire_complete_example = expire_complete world (holding 0 true 30) (holding-Sound 0)

enforce_budget_room_example :
    Meets
      (λ _. On (λ t. Sound t × (fits 90 t ≡ true)))
      (λ _. On Sound)
      (enforce_budget world 90 (holding 0 true 30))
enforce_budget_room_example = enforce_budget_room world 90 (holding 0 true 30) (holding-Sound 0)

lease_pins_example :
    Meets
      (λ _. On (λ t. Inv (IsPinned old_id) t × (fits 20 t ≡ true)))
      (λ _. On (Inv (IsPinned old_id)))
      (enforce_budget world 20 (holding 1 false 0))
unfolding find
lease_pins_example = lease_pins world old_id 20 (holding 1 false 0) (record {
  unique = (refl, tt);
  rest = record { pinned = shelved 1 false; found = refl; is_leased = omega arith };
})

ancestors_exact_example :
    (contains old_id (ancestors (shelved 0 true ∷ []) old_id) ≡ true)
    ↔ IsAncestor (shelved 0 true ∷ []) old_id old_id
unfolding find
ancestors_exact_example = ancestors_exact (shelved 0 true ∷ []) old_id old_id (shelved 0 true) refl

candidates-oldest_example :
    All (λ x. is_candidate (shelved 0 true ∷ []) x ≡ true → 1 ≤ x.last_used) (shelved 0 true ∷ [])
unfolding candidates sort_by_use insert_by_use select is_candidate has_resident_shared_child
candidates-oldest_example = candidates-oldest (shelved 0 true ∷ []) [] (shelved 0 true) refl

manifest_ok-manifest_example :
    manifest_ok config (manifest config (shelved 0 true) blobs) (shelved 0 true) ≡ true
unfolding safe_name
manifest_ok-manifest_example = manifest_ok-manifest config (shelved 0 true) blobs

expire-terminates_example :
    expire world (holding 0 true 30)
    ≡ expire_loop world 9 5 (record (holding 0 true 30) { world = (world.clock 5).1 })
expire-terminates_example =
    expire-terminates world 9 (holding 0 true 30) (holding-Sound 0) (omega arith)

old-Unique : Unique (holding 0 true 30).store.records
unfolding find
old-Unique = (refl, tt)

delete-Shows-without_example :
    Meets
      (λ _. On (Shows (without old_id (catalogue (holding 0 true 30).store))))
      (λ _. On (Shows (catalogue (holding 0 true 30).store)))
      (delete world old_id (holding 0 true 30))
    × ((catalogue (holding 0 true 30).store old_id ≡ true)
        ⊎ (delete world old_id (holding 0 true 30) ≡ (err Error.not_found, holding 0 true 30)))
delete-Shows-without_example = delete-Shows-without world old_id (holding 0 true 30) old-Unique

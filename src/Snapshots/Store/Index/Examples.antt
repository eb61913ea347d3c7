-- ===== src/Snapshots/Store/Index/Examples.antt =====
-- A store that is built from a disk with one published snapshot, and from an empty one.
use riderless.Prelude.{ℕ, ◌+◌, String, ◌≡◌, refl, false, none, some, List, [], ◌∷◌}
use riderless.Action.{ok, err}
use riderless.Json.{Json, get, lookup, json_eq}
use riderless.Snapshots.Errors.{Error}
use riderless.Snapshots.Schema.{Checkpoint, Boundary, Persistence}
use riderless.Snapshots.Store.Types.{SnapshotRecord, Store, Config}
use riderless.Snapshots.Store.Env.{Env, Files}
use riderless.Snapshots.Store.Dict.{find, modify, put}
use riderless.Snapshots.Store.Manifest.{
  manifest, valid_id, manifest_ok, agrees, identity_fields, profile_fields, safe_name,
}
use riderless.Snapshots.Store.Persist.{read_manifest, validate_manifest}
use riderless.Snapshots.Store.Registry.Soundness.{Sound}
use riderless.Snapshots.Store.Published.{indexed}
use riderless.Snapshots.Store.Index.{open_store}
use riderless.Snapshots.Store.Index.Rebuilt.{open_store-Sound}

abbrev old_id : String
old_id = "snap_00000000000000000000000000000000"

abbrev blobs : Files
blobs =
    (
      "lower.bin",
      record {
        bytes = 30;
        sha256 = "0000000000000000000000000000000000000000000000000000000000000000";
      },
    )
    ∷ []

abbrev config : Config
config = record {
  root = "/snapshots";
  model_sha256 = "m";
  runtime_sha256 = "r";
  profile = "p";
  n_embd = 8;
  context_size = 100;
  host_bytes = 100;
}

abbrev published : SnapshotRecord
published = record {
  id = old_id;
  owner = "me";
  completed_blocks = Checkpoint.b30;
  boundary = Boundary.context;
  parent = none;
  context_parent = none;
  messages = record { role = "user"; content = "hello" } ∷ [];
  answer_prefix = "";
  tokens = 7;
  host_bytes = 30;
  persistence = Persistence.disk;
  prompt_sha256 = "q";
  created_at = 3;
  expires_at = 1000;
  resident = false;
  disk_dir = some "/snapshots/snap_00000000000000000000000000000000";
  durable_files = some blobs;
  promotion_child = none;
  promotion_of = none;
  leases = 0;
  refcount = 0;
  last_used = 1;
  persisted_host_bytes = 30;
}

-- A disk with these directories, of which each has the manifest of one record.
abbrev disk : List String → SnapshotRecord → Env
disk names r = record {
  World = ℕ;
  clock = λ n. (n, n + 1);
  fresh_hex = λ n. ("ab", n);
  save = λ id dir n. (ok blobs, n);
  load = λ id dir files n. (ok tt, n);
  drop = λ id n. (ok 30, n);
  make_dirs = λ dir n. (ok tt, n);
  make_dir = λ dir n. (ok tt, n);
  list_dirs = λ path n. (ok names, n);
  write_manifest = λ path j n. (ok tt, n);
  read_manifest = λ path n. (ok (Json.obj (manifest config r blobs)), n);
  sync_tree = λ dir n. (ok tt, n);
  sync_dir = λ dir n. (ok tt, n);
  replace = λ from to n. (ok tt, n);
  remove_tree = λ dir n. (ok tt, n);
}

abbrev rebuilt : Store
rebuilt = record { config = config; records = published ∷ []; resident_bytes = 0; tick = 1 }

-- A directory with another name is left alone.
one_found : open_store (disk ("lost+found" ∷ old_id ∷ []) published) config 5 ≡ (ok rebuilt, 5)
unfolding open_store valid_id find modify put manifest get lookup json_eq read_manifest
    validate_manifest manifest_ok agrees identity_fields profile_fields safe_name indexed
one_found = refl

-- A reference to a snapshot that is not on the disk is refused.
parent_missing :
    open_store (disk (old_id ∷ []) (record published { parent = some "snap_1" })) config 5
    ≡ (err Error.integrity, 5)
unfolding open_store valid_id find modify put manifest get lookup json_eq read_manifest
    validate_manifest manifest_ok agrees identity_fields profile_fields safe_name indexed
parent_missing = refl

open_store-Sound_example : Sound rebuilt
open_store-Sound_example =
    open_store-Sound (disk ("lost+found" ∷ old_id ∷ []) published) config 5 5 rebuilt one_found

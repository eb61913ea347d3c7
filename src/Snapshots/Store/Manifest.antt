-- ===== src/Snapshots/Store/Manifest.antt =====
-- The manifest of a persisted snapshot: `_manifest`, `_validate_manifest` and their tests on names.
use Prim.Native.Char.{code}
use riderless.Prelude.{
  ℕ, String, Bool, true, false, not, ◌&&◌, ◌||◌, Option, none, some, List, [], ◌∷◌, all, any, map,
  length, leb, eqb, ◌==◌, if◌then◌else◌,
}
use riderless.Json.{ℤ, Json, Items, Fields, as_int, as_str, as_obj, get, json_eq}
use riderless.Snapshots.Schema.{Checkpoint, Boundary, Persistence, Message}
use riderless.Snapshots.Store.Types.{SnapshotRecord, Config}
use riderless.Snapshots.Store.Env.{Files}

-- the code points of a text
abbrev pub codes : String → List ℕ
codes String.[] = []
codes (String.◌∷◌ c s) = code c ∷ codes s

abbrev pub is_hex : ℕ → Bool
is_hex c = (leb b'0' c && leb c b'9') || (leb b'a' c && leb c b'f')

-- `re.fullmatch("[0-9a-f]{n}", text)`
abbrev pub is_hex_of : ℕ → List ℕ → Bool
is_hex_of n cs = eqb (length cs) n && all is_hex cs

-- what follows the prefix `prefix` of a text
abbrev pub after_prefix : List ℕ → List ℕ → Option (List ℕ)
after_prefix [] cs = some cs
after_prefix (p ∷ ps) [] = none
after_prefix (p ∷ ps) (c ∷ cs) = let rest = after_prefix ps cs in if eqb p c then rest else none

-- `_valid_id`: `^snap_[0-9a-f]{32}$`
unfoldable pub valid_id : String → Bool
valid_id id = elim (after_prefix (codes "snap_") (codes id)) [
  | none ↦ false
  | some cs ↦ is_hex_of 32 cs
]

abbrev pub has_code : ℕ → String → Bool
has_code c s = any (eqb c) (codes s)

-- `_safe_name`
unfoldable pub safe_name : String → Bool
safe_name name =
    not (name == "")
    && (not (has_code b'/' name)
        && (not (has_code 92 name) && (not (name == ".") && not (name == ".."))))

-- `_check_file_names`, as a test
unfoldable pub file_names_ok : Files → Bool
file_names_ok [] = true
file_names_ok ((name, entry) ∷ files) = safe_name name && file_names_ok files

abbrev pub nat : ℕ → Json
nat n = Json.int (ℤ.pos n)

abbrev pub optional_str : Option String → Json
optional_str none = Json.null
optional_str (some s) = Json.str s

abbrev pub object : List (String × Json) → Fields
object [] = Fields.end
object ((k, v) ∷ kvs) = Fields.field k v (object kvs)

abbrev pub array : List Json → Items
array [] = Items.nil
array (j ∷ js) = Items.cons j (array js)

abbrev pub blocks : Checkpoint → ℕ
blocks Checkpoint.b18 = 18
blocks Checkpoint.b30 = 30

abbrev pub boundary_name : Boundary → String
boundary_name Boundary.context = "context"
boundary_name Boundary.readout = "readout"

abbrev pub persistence_name : Persistence → String
persistence_name Persistence.memory = "memory"
persistence_name Persistence.disk = "disk"

abbrev pub message_json : Message → Json
message_json m =
    Json.obj (object (("role", Json.str m.role) ∷ ("content", Json.str m.content) ∷ []))

abbrev pub messages_json : List Message → Json
messages_json ms = Json.arr (array (map message_json ms))

abbrev pub files_json : Files → List (String × Json)
files_json [] = []
files_json ((name, entry) ∷ files) =
    (name, Json.obj (object (("bytes", nat entry.bytes) ∷ ("sha256", Json.str entry.sha256) ∷ [])))
    ∷ files_json files

-- `MANIFEST_SCHEMA_VERSION`
abbrev pub schema_version : Json
schema_version = nat 2

-- `LAYER_MAP`
abbrev pub layer_map : Json
layer_map = Json.obj (
    object (
      ("lower", Json.arr (array (nat 0 ∷ nat 18 ∷ [])))
      ∷ ("upper", Json.arr (array (nat 18 ∷ nat 30 ∷ [])))
      ∷ []))

-- What `_validate_manifest` compares with the record first, key by key.
unfoldable pub identity_fields : SnapshotRecord → List (String × Json)
identity_fields r =
    ("snapshot_id", Json.str r.id)
    ∷ ("owner", Json.str r.owner)
    ∷ ("boundary", Json.str (boundary_name r.boundary))
    ∷ ("parent", optional_str r.parent)
    ∷ ("context_parent", optional_str r.context_parent)
    ∷ ("promotion_of", optional_str r.promotion_of)
    ∷ ("messages", messages_json r.messages)
    ∷ ("answer_prefix", Json.str r.answer_prefix)
    ∷ ("host_bytes", nat r.persisted_host_bytes)
    ∷ ("persistence", Json.str (persistence_name r.persistence))
    ∷ ("created_at", Json.float r.created_at)
    ∷ ("expires_at", Json.float r.expires_at)
    ∷ ("prompt_sha256", Json.str r.prompt_sha256)
    ∷ ("tokens", nat r.tokens)
    ∷ []

-- `_manifest`
unfoldable pub manifest : Config → SnapshotRecord → Files → Fields
manifest c r files = object (
    ("schema_version", schema_version)
    ∷ ("snapshot_id", Json.str r.id)
    ∷ ("owner", Json.str r.owner)
    ∷ ("created_at", Json.float r.created_at)
    ∷ ("messages", messages_json r.messages)
    ∷ ("answer_prefix", Json.str r.answer_prefix)
    ∷ ("host_bytes", nat r.persisted_host_bytes)
    ∷ ("persistence", Json.str (persistence_name r.persistence))
    ∷ ("model_sha256", Json.str c.model_sha256)
    ∷ ("runtime_sha256", Json.str c.runtime_sha256)
    ∷ ("profile", Json.str c.profile)
    ∷ ("completed_blocks", nat (blocks r.completed_blocks))
    ∷ ("boundary", Json.str (boundary_name r.boundary))
    ∷ ("layer_map", layer_map)
    ∷ ("dtype", Json.str "f32")
    ∷ ("n_embd", nat c.n_embd)
    ∷ ("tokens", nat r.tokens)
    ∷ ("prompt_version", Json.str "unridden-gemma-context-v1")
    ∷ ("prompt_sha256", Json.str r.prompt_sha256)
    ∷ ("parent", optional_str r.parent)
    ∷ ("context_parent", optional_str r.context_parent)
    ∷ ("promotion_of", optional_str r.promotion_of)
    ∷ ("expires_at", Json.float r.expires_at)
    ∷ ("files", Json.obj (object (files_json files)))
    ∷ [])

-- `manifest.get(key) == expected` for each pair
unfoldable pub agrees : Fields → List (String × Json) → Bool
agrees m [] = true
agrees m ((k, v) ∷ kvs) = json_eq (get k m) v && agrees m kvs

abbrev pub in_range : ℕ → ℕ → Option ℤ → Bool
in_range lo hi (some (ℤ.pos n)) = leb lo n && leb n hi
in_range lo hi _ = false

abbrev pub is_natural : Option ℤ → Bool
is_natural (some (ℤ.pos n)) = true
is_natural _ = false

abbrev pub is_checksum : Option String → Bool
is_checksum none = false
is_checksum (some s) = is_hex_of 64 (codes s)

abbrev pub file_entry_ok : Option Fields → Bool
file_entry_ok none = false
file_entry_ok (some e) =
    is_natural (as_int (get "bytes" e)) && is_checksum (as_str (get "sha256" e))

abbrev pub files_ok : Fields → Bool
files_ok Fields.end = true
files_ok (Fields.field name entry fs) =
    safe_name name && (file_entry_ok (as_obj entry) && files_ok fs)

abbrev pub nonempty : Fields → Bool
nonempty Fields.end = false
nonempty (Fields.field k v fs) = true

abbrev pub some_files_ok : Option Fields → Bool
some_files_ok none = false
some_files_ok (some fs) = nonempty fs && files_ok fs

-- What `_validate_manifest` compares with the configuration and the depth.
unfoldable pub profile_fields : Config → SnapshotRecord → List (String × Json)
profile_fields c r =
    ("model_sha256", Json.str c.model_sha256)
    ∷ ("runtime_sha256", Json.str c.runtime_sha256)
    ∷ ("profile", Json.str c.profile)
    ∷ ("n_embd", nat c.n_embd)
    ∷ ("layer_map", layer_map)
    ∷ ("completed_blocks", nat (blocks r.completed_blocks))
    ∷ []

-- `_validate_manifest`: every test that fails raises `IntegrityError`
unfoldable pub manifest_ok : Config → Fields → SnapshotRecord → Bool
manifest_ok c m r =
    json_eq (get "schema_version" m) schema_version
    && (agrees m (identity_fields r)
        && (agrees m (profile_fields c r)
            && (in_range 1 c.context_size (as_int (get "tokens" m))
                && some_files_ok (as_obj (get "files" m)))))

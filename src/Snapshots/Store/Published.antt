-- ===== src/Snapshots/Store/Published.antt =====
-- `_load_disk_index`: what it takes from the manifest of a published snapshot. A manifest may hold a value
-- that no field of `SnapshotRecord` has by its declared type, such as a depth of 19. The source would keep
-- it; here it raises a `TypeError`.
use riderless.Prelude.{
  ℕ, String, Bool, true, false, not, ◌&&◌, ◌||◌, Option, none, some, is_some, List, [], ◌∷◌, eqb,
  ◌==◌, if◌then◌else◌,
}
use riderless.Json.{
  ℤ, Json, Items, Fields, as_int, as_number, as_str, as_obj, get, lookup, json_eq, size,
}
use riderless.Snapshots.Errors.{Error}
use riderless.Snapshots.Schema.{Checkpoint, Boundary, Persistence, Message, WorkerFileEntry}
use riderless.Snapshots.Store.Types.{SnapshotRecord}
use riderless.Snapshots.Store.Env.{Files}
use riderless.Snapshots.Store.Manifest.{valid_id, schema_version, is_checksum}

infixl 4 ◌>>=?◌
abbrev pub ◌>>=?◌ : {A B : Type 0} → Option A → (A → Option B) → Option B
none >>=? f = none
some a >>=? f = f a

-- one element of `messages`: exactly the keys `role` and `content`, with their values
abbrev pub message_of : Json → Option Message
message_of j = as_obj j >>=? λ fs. as_str (get "role" fs) >>=? λ role.
    as_str (get "content" fs) >>=? λ content.
    if eqb (size fs) 2 && (role == "user" || role == "assistant")
    then some (record { role = role; content = content })
    else none

pub items_of : Items → Option (List Message)
items_of Items.nil = some []
items_of (Items.cons j js) = message_of j >>=? λ m. items_of js >>=? λ ms. some (m ∷ ms)

-- `messages` of a manifest, `none` where it is malformed
unfoldable pub messages_of : Json → Option (List Message)
unfolding items_of
messages_of (Json.arr (Items.cons j js)) = items_of (Items.cons j js)
messages_of _ = none

abbrev pub natural : Option ℤ → Option ℕ
natural (some (ℤ.pos n)) = some n
natural _ = none

-- `WorkerFileEntry.model_validate(entry)`, which takes no `bool` for an `int`
abbrev pub entry_of : Json → Option WorkerFileEntry
entry_of j = as_obj j >>=? λ fs.
    natural (elim (get "bytes" fs) [ Json.int z ↦ some z | _ ↦ none ]) >>=? λ bytes.
    as_str (get "sha256" fs) >>=? λ sha256.
    if eqb (size fs) 2 && is_checksum (some sha256)
    then some (record { bytes = bytes; sha256 = sha256 })
    else none

pub files_of : Fields → Option Files
files_of Fields.end = some []
files_of (Fields.field name entry fs) =
    entry_of entry >>=? λ e. files_of fs >>=? λ files. some ((name, e) ∷ files)

-- `str | None`
abbrev pub optional_of : Json → Option (Option String)
optional_of Json.null = some none
optional_of (Json.str s) = some (some s)
optional_of _ = none

abbrev pub depth_of : Option ℕ → Option Checkpoint
depth_of (some n) =
    if eqb n 18 then some Checkpoint.b18 else if eqb n 30 then some Checkpoint.b30 else none
depth_of none = none

abbrev pub boundary_of : Option String → Option Boundary
boundary_of (some s) =
    if s == "context"
    then some Boundary.context
    else if s == "readout"
    then some Boundary.readout
    else none
boundary_of none = none

-- what the loop takes from a manifest after its tests
pub record Entry : Type 0 where
  pub messages : List Message
  pub owner : String
  pub answer_prefix : String
  pub host_bytes : ℕ
  pub created_at : ℕ
  pub expires_at : ℕ
  pub promotion_of : Option String

abbrev pub promotion_ok : Option String → Bool
promotion_ok none = true
promotion_ok (some id) = valid_id id

-- The tests of the loop: `IntegrityError` where one fails. The times are whole seconds from 0: the source
-- keeps any int or float, and one that is negative or has a fraction fails here.
unfoldable pub entry_tests : Fields → Option Entry
unfolding messages_of
entry_tests m = messages_of (get "messages" m) >>=? λ messages. as_str (get "owner" m) >>=? λ owner.
    as_str (get "answer_prefix" m) >>=? λ answer_prefix.
    natural (as_int (get "host_bytes" m)) >>=? λ host_bytes.
    natural (as_number (get "created_at" m)) >>=? λ created_at.
    natural (as_number (get "expires_at" m)) >>=? λ expires_at.
    optional_of (get "promotion_of" m) >>=? λ promotion_of.
    if json_eq (get "schema_version" m) schema_version
      && (not (owner == "") && (not (eqb host_bytes 0) && promotion_ok promotion_of))
    then some (record {
      messages = messages;
      owner = owner;
      answer_prefix = answer_prefix;
      host_bytes = host_bytes;
      created_at = created_at;
      expires_at = expires_at;
      promotion_of = promotion_of;
    })
    else none

-- the values that the loop reads by `manifest[key]`
pub record Shape : Type 0 where
  pub completed_blocks : Checkpoint
  pub boundary : Boundary
  pub parent : Option String
  pub context_parent : Option String
  pub tokens : ℕ
  pub prompt_sha256 : String

-- The fields that the loop keeps as they are. A record of the model has typed fields, so a value of another
-- type, which the source keeps until it is used, fails here.
abbrev pub shape_of : Fields → Option Shape
shape_of m = depth_of (natural (as_int (get "completed_blocks" m))) >>=? λ blocks.
    boundary_of (as_str (get "boundary" m)) >>=? λ boundary.
    optional_of (get "parent" m) >>=? λ parent.
    optional_of (get "context_parent" m) >>=? λ context_parent.
    natural (as_int (get "tokens" m)) >>=? λ tokens.
    as_str (get "prompt_sha256" m) >>=? λ prompt_sha256. some (record {
      completed_blocks = blocks;
      boundary = boundary;
      parent = parent;
      context_parent = context_parent;
      tokens = tokens;
      prompt_sha256 = prompt_sha256;
    })

-- What is raised where a value has another type than its field. A token count is tested by
-- `_validate_manifest`; the others are not, and the source would keep them.
abbrev pub shape_error : Fields → Error
shape_error m = elim (natural (as_int (get "tokens" m))) [
  | none ↦ Error.integrity
  | some tokens ↦ Error.foreign "TypeError"
]

-- `manifest[key]` raises where a key is missing
abbrev pub has_keys : Fields → List String → Bool
has_keys m [] = true
has_keys m (k ∷ ks) = is_some (lookup k m) && has_keys m ks

abbrev pub record_keys : List String
record_keys =
    "files" ∷ "completed_blocks" ∷ "boundary" ∷ "parent" ∷ "context_parent" ∷ "tokens"
    ∷ "prompt_sha256" ∷ []

-- the tests, and the files that the loop builds from a manifest
unfoldable pub parse_manifest : Fields → Option (Entry × Files)
unfolding entry_tests files_of
parse_manifest m = entry_tests m >>=? λ e.
    if has_keys m record_keys
    then (as_obj (get "files" m) >>=? λ fs. files_of fs >>=? λ files. some (e, files))
    else none

-- the record of a published snapshot; it is on the disk only
unfoldable pub indexed : String → String → Entry → Shape → Files → ℕ → SnapshotRecord
indexed id directory e s files tick = record {
  id = id;
  owner = e.owner;
  completed_blocks = s.completed_blocks;
  boundary = s.boundary;
  parent = s.parent;
  context_parent = s.context_parent;
  messages = e.messages;
  answer_prefix = e.answer_prefix;
  tokens = s.tokens;
  host_bytes = e.host_bytes;
  persistence = Persistence.disk;
  prompt_sha256 = s.prompt_sha256;
  created_at = e.created_at;
  expires_at = e.expires_at;
  resident = false;
  disk_dir = some directory;
  durable_files = some files;
  promotion_child = none;
  promotion_of = e.promotion_of;
  leases = 0;
  refcount = 0;
  last_used = tick;
  persisted_host_bytes = e.host_bytes;
}

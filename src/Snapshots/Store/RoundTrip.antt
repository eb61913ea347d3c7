-- ===== src/Snapshots/Store/RoundTrip.antt =====
-- The manifest of `_manifest` before the tests of `_validate_manifest`.
use riderless.Prelude.{
  ℕ, String, ◌≡◌, refl, ap, Bool, true, false, ◌&&◌, Option, none, some, List, [], ◌∷◌, map, arith,
  leb, eq_refl,
}
use riderless.Json.{Json, json_eq, items_eq, fields_eq, get, lookup}
use riderless.Snapshots.Schema.{Message}
use riderless.Snapshots.Store.Types.{SnapshotRecord, Config}
use riderless.Snapshots.Store.Env.{Files}
use riderless.Snapshots.Store.Manifest.{
  codes, is_hex_of, safe_name, nat, optional_str, object, array, message_json, messages_json,
  files_json, layer_map, identity_fields, manifest, agrees, files_ok, some_files_ok, profile_fields,
  manifest_ok,
}

json_eq-str : (s : String) → json_eq (Json.str s) (Json.str s) ≡ true
unfolding json_eq
json_eq-str s = eq_refl s

json_eq-nat : (n : ℕ) → json_eq (nat n) (nat n) ≡ true
unfolding json_eq
json_eq-nat n = ground arith

json_eq-float : (n : ℕ) → json_eq (Json.float n) (Json.float n) ≡ true
unfolding json_eq
json_eq-float n = ground arith

json_eq-optional : (o : Option String) → json_eq (optional_str o) (optional_str o) ≡ true
unfolding json_eq
json_eq-optional none = refl
json_eq-optional (some s) = eq_refl s

json_eq-message : (m : Message) → json_eq (message_json m) (message_json m) ≡ true
unfolding json_eq fields_eq lookup
json_eq-message m = ground (arith, eq_refl m.role, eq_refl m.content)

items_eq-messages :
    (ms : List Message)
    → items_eq (array (map message_json ms)) (array (map message_json ms)) ≡ true
unfolding items_eq
items_eq-messages [] = refl
items_eq-messages (m ∷ ms) = ground (arith, json_eq-message m, items_eq-messages ms)

json_eq-messages : (ms : List Message) → json_eq (messages_json ms) (messages_json ms) ≡ true
unfolding json_eq
json_eq-messages ms = items_eq-messages ms

ruleset same_json = (json_eq-str, json_eq-nat, json_eq-float, json_eq-optional, json_eq-messages)

identity_agrees :
    (c : Config) (r : SnapshotRecord) (files : Files)
    → agrees (manifest c r files) (identity_fields r) ≡ true
unfolding manifest agrees identity_fields get
identity_agrees c r files = simp same_json

layer_map_agrees : json_eq layer_map layer_map ≡ true
unfolding json_eq fields_eq items_eq lookup
layer_map_agrees = refl

profile_agrees :
    (c : Config) (r : SnapshotRecord) (files : Files)
    → agrees (manifest c r files) (profile_fields c r) ≡ true
unfolding manifest agrees profile_fields get
profile_agrees c r files = simp (same_json, layer_map_agrees)

-- What is left of the tests for files that the worker wrote.
abbrev pub files_valid : Files → Bool
files_valid [] = true
files_valid ((name, entry) ∷ files) =
    safe_name name && (is_hex_of 64 (codes entry.sha256) && files_valid files)

abbrev pub has_files : Files → Bool
has_files [] = false
has_files (f ∷ files) = true

files_ok-json : (files : Files) → files_ok (object (files_json files)) ≡ files_valid files
unfolding get
files_ok-json [] = refl
files_ok-json ((name, entry) ∷ files) =
    ap (λ b. safe_name name && (is_hex_of 64 (codes entry.sha256) && b)) (files_ok-json files)

some_files_ok-json :
    (files : Files)
    → some_files_ok (some (object (files_json files))) ≡ (has_files files && files_valid files)
some_files_ok-json [] = refl
some_files_ok-json (f ∷ files) = files_ok-json (f ∷ files)

-- A manifest is read back as valid for the record that it was built from exactly where the token
-- count lies in the context, there is a file, and each file has a safe name and a SHA-256 checksum.
pub manifest_ok-manifest :
    (c : Config) (r : SnapshotRecord) (files : Files)
    → manifest_ok c (manifest c r files) r
      ≡ ((leb 1 r.tokens && leb r.tokens c.context_size) && (has_files files && files_valid files))
unfolding manifest_ok
manifest_ok-manifest c r files =
    rw (identity_agrees c r files, profile_agrees c r files, ← some_files_ok-json files)
      (unfold manifest get in simp json_eq-nat)

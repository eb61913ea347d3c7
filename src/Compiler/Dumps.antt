-- ===== src/Compiler/Dumps.antt =====
-- `json.dumps(value, ensure_ascii=False, sort_keys=True, separators=(",", ":"))`. How a float is
-- printed is a parameter.
use Prim.Native.Nat.{◌/◌, ◌%◌, Ordering}
use Prim.Native.Char.{Char, code}
use Prim.Native.String.{compare}
use riderless.Prelude.{ℕ, suc, String, Bool, true, false, List, [], ◌∷◌, eqb, ltb, if◌then◌else◌}
use riderless.Json.{ℤ, Json, Items, Fields}
use riderless.Compiler.Text.{◌^^◌, show}

abbrev hex_digit : ℕ → String
hex_digit n =
    if ltb n 10
    then show n
    else if eqb n 10
    then "a"
    else if eqb n 11
    then "b"
    else if eqb n 12
    then "c"
    else if eqb n 13
    then "d"
    else if eqb n 14
    then "e"
    else "f"

-- One character of a JSON string: the quote, the backslash and the control characters are escaped.
escape_char : Char → String
escape_char c =
    let n = code c in
    if eqb n 34
    then "\\\""
    else if eqb n 92
    then "\\\\"
    else if eqb n 10
    then "\\n"
    else if eqb n 13
    then "\\r"
    else if eqb n 9
    then "\\t"
    else if eqb n 8
    then "\\b"
    else if eqb n 12
    then "\\f"
    else if ltb n 32
    then "\\u00" ^^ (hex_digit (n / 16) ^^ hex_digit (n % 16))
    else String.◌∷◌ c String.[]

unfoldable pub escape : String → String
unfolding escape_char
escape String.[] = ""
escape (String.◌∷◌ c s) = escape_char c ^^ escape s

abbrev quote : String → String
quote s = "\"" ^^ (escape s ^^ "\"")

abbrev show_ℤ : ℤ → String
show_ℤ (ℤ.pos n) = show n
show_ℤ (ℤ.negsuc n) = "-" ^^ show (suc n)

abbrev before : String → String → Bool
before s t = elim (compare s t) [ Ordering.gt ↦ false | _ ↦ true ]

-- `sort_keys=True`: fields are kept in the order of their keys
insert_field : String → String → List (String × String) → List (String × String)
insert_field k v [] = (k, v) ∷ []
insert_field k v ((j, w) ∷ kvs) =
    let rest = insert_field k v kvs in if before k j then (k, v) ∷ ((j, w) ∷ kvs) else (j, w) ∷ rest

print_fields : List (String × String) → String
print_fields [] = ""
print_fields ((k, v) ∷ []) = quote k ^^ (":" ^^ v)
print_fields ((k, v) ∷ (kv ∷ kvs)) = quote k ^^ (":" ^^ (v ^^ ("," ^^ print_fields (kv ∷ kvs))))

print_items : List String → String
print_items [] = ""
print_items (x ∷ []) = x
print_items (x ∷ (y ∷ ys)) = x ^^ ("," ^^ print_items (y ∷ ys))

module _ (repr : ℕ → String) where
  unfoldable mutual
    unfolding escape show insert_field print_fields print_items

    pub dumps : Json → String
    dumps Json.null = "null"
    dumps (Json.boolean b) = if b then "true" else "false"
    dumps (Json.int z) = show_ℤ z
    dumps (Json.float n) = repr n
    dumps (Json.str s) = quote s
    dumps (Json.arr xs) = "[" ^^ (print_items (dump_items xs) ^^ "]")
    dumps (Json.obj fs) = "{" ^^ (print_fields (dump_fields fs) ^^ "}")

    pub dump_items : Items → List String
    dump_items Items.nil = []
    dump_items (Items.cons x xs) = dumps x ∷ dump_items xs

    pub dump_fields : Fields → List (String × String)
    dump_fields Fields.end = []
    dump_fields (Fields.field k v fs) = insert_field k (dumps v) (dump_fields fs)

-- ===== src/Json.antt =====
-- JSON values as `json.loads` returns them, and Python's `==` on them. A float is kept to whole
-- numbers, as the clock readings are, which are the only floats that the store writes.
use riderless.Prelude.{
  ℕ, suc, String, Bool, true, false, ◌&&◌, Option, none, some, eqb, ◌==◌, if◌then◌else◌,
}

pub data ℤ : Type 0 where
  pos : ℕ → ℤ
  negsuc : ℕ → ℤ

mutual
  pub data Json : Type 0 where
    null : Json
    boolean : Bool → Json
    int : ℤ → Json
    float : ℕ → Json
    str : String → Json
    arr : Items → Json
    obj : Fields → Json

  pub data Items : Type 0 where
    nil : Items
    cons : Json → Items → Items

  pub data Fields : Type 0 where
    end : Fields
    field : String → Json → Fields → Fields

abbrev pub eq_ℤ : ℤ → ℤ → Bool
eq_ℤ (ℤ.pos m) (ℤ.pos n) = eqb m n
eq_ℤ (ℤ.negsuc m) (ℤ.negsuc n) = eqb m n
eq_ℤ _ _ = false

-- `isinstance(value, int)`, with the value: Python's `bool` is a subclass of `int`.
abbrev pub as_int : Json → Option ℤ
as_int (Json.boolean b) = some (if b then ℤ.pos 1 else ℤ.pos 0)
as_int (Json.int z) = some z
as_int _ = none

-- `isinstance(value, (int, float))`, with the value
abbrev pub as_number : Json → Option ℤ
as_number (Json.float n) = some (ℤ.pos n)
as_number j = as_int j

abbrev pub as_str : Json → Option String
as_str (Json.str s) = some s
as_str _ = none

abbrev pub as_obj : Json → Option Fields
as_obj (Json.obj fs) = some fs
as_obj _ = none

-- `d.get(key)`, where a missing key and `null` are both `None`
unfoldable pub get : String → Fields → Json
get k Fields.end = Json.null
get k (Fields.field j v fs) = if j == k then v else get k fs

-- `d[key]`, `none` where it raises `KeyError`
unfoldable pub lookup : String → Fields → Option Json
lookup k Fields.end = none
lookup k (Fields.field j v fs) = if j == k then some v else lookup k fs

abbrev pub size : Fields → ℕ
size Fields.end = 0
size (Fields.field k v fs) = suc (size fs)

abbrev eq_number : Option ℤ → Option ℤ → Bool
eq_number (some a) (some b) = eq_ℤ a b
eq_number _ _ = false

unfoldable mutual
  -- `a == b`
  pub json_eq : Json → Json → Bool
  json_eq Json.null Json.null = true
  json_eq (Json.str s) (Json.str t) = s == t
  json_eq (Json.arr xs) (Json.arr ys) = items_eq xs ys
  json_eq (Json.obj fs) (Json.obj gs) = eqb (size fs) (size gs) && fields_eq fs gs
  json_eq a b = eq_number (as_number a) (as_number b)

  pub items_eq : Items → Items → Bool
  items_eq Items.nil Items.nil = true
  items_eq (Items.cons x xs) (Items.cons y ys) = json_eq x y && items_eq xs ys
  items_eq _ _ = false

  pub fields_eq : Fields → Fields → Bool
  fields_eq Fields.end gs = true
  fields_eq (Fields.field k v fs) gs =
      elim (lookup k gs) [ none ↦ false | some w ↦ json_eq v w ] && fields_eq fs gs

-- ===== src/Compiler/Text.antt =====
-- Texts: joins, decimal numbers and their laws.
use Prim.Native.String.{◌++◌ as append}
use Prim.Native.Nat.{◌/◌, ◌%◌}
use riderless.Prelude.{
  ℕ, zero, suc, String, ◌≡◌, refl, ap, sym, ◌∙◌, List, [], ◌∷◌, ◌++◌, eqb, ltb, if◌then◌else◌,
}
use text.Mathlib.TextLemmas.{append_assoc}

infixr 65 ◌^^◌
abbrev pub ◌^^◌ : String → String → String
a ^^ b = append a b

-- `"\n".join(lines)`
unfoldable pub join : List String → String
join [] = ""
join (x ∷ []) = x
join (x ∷ (y ∷ ys)) = x ^^ ("\n" ^^ join (y ∷ ys))

pub join-append :
    (xs : List String) (x y : String) (ys : List String)
    → join ((x ∷ xs) ++ (y ∷ ys)) ≡ join (x ∷ xs) ^^ ("\n" ^^ join (y ∷ ys))
unfolding join
join-append [] x y ys = refl
join-append (z ∷ zs) x y ys =
    ap (λ t. x ^^ ("\n" ^^ t)) (join-append zs z y ys)
    ∙ ap (λ t. x ^^ t) (sym (append_assoc "\n" (join (z ∷ zs)) ("\n" ^^ join (y ∷ ys))))
    ∙ sym (append_assoc x ("\n" ^^ join (z ∷ zs)) ("\n" ^^ join (y ∷ ys)))

abbrev digit : ℕ → String
digit n =
    if eqb n 0
    then "0"
    else if eqb n 1
    then "1"
    else if eqb n 2
    then "2"
    else if eqb n 3
    then "3"
    else if eqb n 4
    then "4"
    else if eqb n 5
    then "5"
    else if eqb n 6
    then "6"
    else if eqb n 7
    then "7"
    else if eqb n 8
    then "8"
    else "9"

-- The decimal digits of `n`, with fuel: a number is larger than its number of further digits.
show_fuel : ℕ → ℕ → String
show_fuel zero n = ""
show_fuel (suc fuel) n =
    let rest = show_fuel fuel (n / 10) ^^ digit (n % 10) in if ltb n 10 then digit n else rest

-- `str(n)`
unfoldable pub show : ℕ → String
unfolding show_fuel
show n = show_fuel (suc n) n

-- ===== src/Snapshots/Wire/Base64.antt =====
-- `base64.b64decode(text, validate=True)`: groups of four characters of the standard alphabet, where the
-- last group may end in one or two `=`. `none` is where it raises.
use Prim.Native.Nat.{◌/◌, ◌%◌}
use riderless.Prelude.{
  ℕ, ◌+◌, ◌-◌, ◌*◌, ◌≡◌, refl, String, ◌&&◌, Option, none, some, List, [], ◌∷◌, ◌++◌, eqb, leb,
  if◌then◌else◌,
}
use riderless.Snapshots.Store.Manifest.{codes}

-- the six bits of a character
unfoldable pub sextet : ℕ → Option ℕ
sextet c =
    if leb b'A' c && leb c b'Z'
    then some (c - b'A')
    else if leb b'a' c && leb c b'z'
    then some (c - b'a' + 26)
    else if leb b'0' c && leb c b'9'
    then some (c - b'0' + 52)
    else if eqb c b'+'
    then some 62
    else if eqb c b'/'
    then some 63
    else none

infixl 5 ◌>>=◌
abbrev ◌>>=◌ : {A B : Type 0} → Option A → (A → Option B) → Option B
none >>= f = none
some a >>= f = f a

-- the bytes of a group of two, three or four characters
unfoldable pub two : ℕ → ℕ → Option (List ℕ)
unfolding sextet
two a b = do x ← sextet a; y ← sextet b; some ((x * 4 + y / 16) ∷ [])

unfoldable pub three : ℕ → ℕ → ℕ → Option (List ℕ)
unfolding sextet
three a b c = do
  x ← sextet a
  y ← sextet b
  z ← sextet c
  some ((x * 4 + y / 16) ∷ (y % 16 * 16 + z / 4) ∷ [])

unfoldable pub four : ℕ → ℕ → ℕ → ℕ → Option (List ℕ)
unfolding sextet
four a b c d = do
  x ← sextet a
  y ← sextet b
  z ← sextet c
  w ← sextet d
  some ((x * 4 + y / 16) ∷ (y % 16 * 16 + z / 4) ∷ (z % 4 * 64 + w) ∷ [])

-- the last group
abbrev last : ℕ → ℕ → ℕ → ℕ → Option (List ℕ)
last a b c d =
    if eqb c b'=' && eqb d b'=' then two a b else if eqb d b'=' then three a b c else four a b c d

unfoldable pub groups : List ℕ → Option (List ℕ)
unfolding two three four
groups [] = some []
groups (a ∷ b ∷ c ∷ d ∷ []) = last a b c d
groups (a ∷ b ∷ c ∷ d ∷ (e ∷ cs)) = do xs ← four a b c d; ys ← groups (e ∷ cs); some (xs ++ ys)
groups _ = none

unfoldable pub decode : String → Option (List ℕ)
unfolding groups
decode text = groups (codes text)

hello :
    decode "SGVsbG8sIHdvcmxkIQ=="
    ≡ some (72 ∷ 101 ∷ 108 ∷ 108 ∷ 111 ∷ 44 ∷ 32 ∷ 119 ∷ 111 ∷ 114 ∷ 108 ∷ 100 ∷ 33 ∷ [])
unfolding decode
hello = refl

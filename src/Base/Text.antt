-- ===== src/Base/Text.antt =====
-- Go strings: equality, the order of `strings.Compare`, and `strings.TrimSpace`.
use Prim.Native.Nat.{ℕ, ◌+◌}
use Prim.Native.Char.{code}
use Prim.Native.String.{String}
use text.Mathlib.Text.{◌==◌ as str_eq, starts_with}
use text.Mathlib.TextEquality.{eq_iff}
use mathlib.Core.Path.{◌≡◌, refl}
use mathlib.Core.Logic.{inl, inr, ◌≢◌}
use mathlib.Core.Bool.{Bool, true, false, ◌&&◌, ◌||◌}
use mlx_swarm.Base.Tests.{ltb, leb, ◌==◌, if◌then◌else◌, Bool-cases, is_yes}
use mathlib.Core.List.{List, [], ◌∷◌}
use native.Mathlib.Omega.{arith}
use mlx_swarm.Base.GoMap.{Key}

-- A decision on the equality of two strings; it computes at literals.
unfoldable pub string_discrete : Discrete String
unfolding Bool-cases
string_discrete s t = elim (Bool-cases (str_eq s t)) [
  | inl e ↦ yes ((eq_iff s t).0 e)
  | inr e ↦ no (λ p. cc ((eq_iff s t).1 p))
]

instance abbrev pub string_key : Key String
string_key = record { same? = string_discrete }

-- `strings.Compare(s, t) < 0`: the order of the bytes is the order of the code points.
unfoldable pub str_lt : String → String → Bool
str_lt s String.[] = false
str_lt String.[] (String.◌∷◌ d t) = true
str_lt (String.◌∷◌ c s) (String.◌∷◌ d t) =
    let rest = str_lt s t in ltb (code c) (code d) || (code c == code d && rest)

-- Unicode's White_Space, as `unicode.IsSpace` has it.
unfoldable pub is_space : ℕ → Bool
is_space c =
    (leb 9 c && leb c 13)
    || c == 32
    || c == 0x85
    || c == 0xa0
    || c == 0x1680
    || (leb 0x2000 c && leb c 0x200a)
    || c == 0x2028
    || c == 0x2029
    || c == 0x202f
    || c == 0x205f
    || c == 0x3000

unfoldable pub trim_left : String → String
unfolding is_space
trim_left String.[] = String.[]
trim_left (String.◌∷◌ c s) =
    let rest = trim_left s in if is_space (code c) then rest else String.◌∷◌ c s

unfoldable pub is_empty : String → Bool
is_empty String.[] = true
is_empty (String.◌∷◌ c s) = false

-- A space is dropped where nothing but spaces stands behind it.
unfoldable pub trim_right : String → String
unfolding is_space is_empty
trim_right String.[] = String.[]
trim_right (String.◌∷◌ c s) =
    let rest = trim_right s in
    if is_space (code c) && is_empty rest then String.[] else String.◌∷◌ c rest

unfoldable pub trim_space : String → String
unfolding trim_left trim_right
trim_space s = trim_right (trim_left s)

-- `len` of a string: the bytes of its code points in UTF-8.
abbrev char_bytes : ℕ → ℕ
char_bytes c = if ltb c 0x80 then 1 else if ltb c 0x800 then 2 else if ltb c 0x10000 then 3 else 4

unfoldable pub byte_length : String → ℕ
byte_length String.[] = 0
byte_length (String.◌∷◌ c s) = let rest = byte_length s in char_bytes (code c) + rest

trim_space_test : trim_space "  a b " ≡ "a b"
unfolding trim_space
trim_space_test = refl

str_lt_test : str_lt "stage-1" "stage-10" ≡ true
unfolding str_lt
str_lt_test = refl

-- A comparison with the empty string, and with each string of a set.
abbrev pub is_empty_string : String → Bool
is_empty_string s = is_yes (string_discrete s "")

unfoldable pub seen_in : String → List String → Bool
seen_in id [] = false
seen_in id (s ∷ seen) =
    let rest = seen_in id seen in if is_yes (string_discrete s id) then true else rest

-- `strings.Contains`.
unfoldable pub contains : String → String → Bool
contains String.[] part = starts_with String.[] part
contains (String.◌∷◌ c s) part =
    let rest = contains s part in starts_with (String.◌∷◌ c s) part || rest

contains_test : contains "worker request 7: shard s is not loaded" "is not loaded" ≡ true
unfolding contains
contains_test = refl

pub differing_strings : (s t : String) → is_yes (string_discrete s t) ≡ false → s ≢ t
differing_strings s t h = elim (string_discrete s t) [ yes p ↦ ground arith | no n ↦ n ]

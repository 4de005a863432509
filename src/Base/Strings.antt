-- ===== src/Base/Strings.antt =====
-- Package strings, as far as the program uses it. Letters outside ASCII have no lower case here.
use Prim.Native.Nat.{ℕ, zero, suc, ◌+◌, ◌-◌, ◌<◌}
use Prim.Native.Char.{Char, code}
use Prim.Native.String
use Prim.Native.String.{String}
use mathlib.Core.Path.{◌≡◌, refl}
use mathlib.Core.Logic.{inl, inr}
use mathlib.Core.Bool.{Bool, true, false, ◌&&◌, ◌||◌}
use mathlib.Core.List.{List, [], ◌∷◌}
use native.Mathlib.Omega.{arith}
use undertow.Base.Tests.{leb, nat_eq, if◌then◌else◌, Bool-cases}
use undertow.Base.Lists.{length, get_or}

-- `strings.HasPrefix(s, p)`
unfoldable pub has_prefix : String → String → Bool
has_prefix s String.[] = true
has_prefix String.[] (String.◌∷◌ d p) = false
has_prefix (String.◌∷◌ c s) (String.◌∷◌ d p) = nat_eq (code c) (code d) && has_prefix s p

-- `strings.TrimPrefix`, by the number of characters of the prefix
unfoldable pub drop_chars : ℕ → String → String
drop_chars zero s = s
drop_chars (suc n) String.[] = String.[]
drop_chars (suc n) (String.◌∷◌ c s) = drop_chars n s

unfoldable pub trim_prefix : String → String → String
unfolding has_prefix drop_chars
trim_prefix s p = if has_prefix s p then drop_chars (String.count p) s else s

-- `strings.TrimSuffix(s, c)` for a suffix of one character
unfoldable pub trim_suffix : ℕ → String → String
trim_suffix c String.[] = String.[]
trim_suffix c (String.◌∷◌ d String.[]) =
    if nat_eq (code d) c then String.[] else String.◌∷◌ d String.[]
trim_suffix c (String.◌∷◌ d (String.◌∷◌ e s)) = String.◌∷◌ d (trim_suffix c (String.◌∷◌ e s))

-- The first field of a split grows by the character before it.
abbrev pub grow : Char → List String → List String
grow c [] = String.◌∷◌ c String.[] ∷ []
grow c (s ∷ ss) = String.◌∷◌ c s ∷ ss

-- `strings.Split(s, c)` for a separator of one character
unfoldable pub split : ℕ → String → List String
split c String.[] = "" ∷ []
split c (String.◌∷◌ d s) =
    let rest = split c s in if nat_eq (code d) c then "" ∷ rest else grow d rest

unfoldable pub is_space : ℕ → Bool
is_space c = (leb 9 c && leb c 13) || (nat_eq c 32 || (nat_eq c 0x85 || nat_eq c 0xa0))

unfoldable pub trim_left : String → String
unfolding is_space
trim_left String.[] = String.[]
trim_left (String.◌∷◌ c s) =
    let rest = trim_left s in if is_space (code c) then rest else String.◌∷◌ c s

abbrev pub is_empty : String → Bool
is_empty String.[] = true
is_empty (String.◌∷◌ c s) = false

unfoldable pub trim_right : String → String
unfolding is_space
trim_right String.[] = String.[]
trim_right (String.◌∷◌ c s) =
    let rest = trim_right s in
    if is_space (code c) && is_empty rest then String.[] else String.◌∷◌ c rest

-- `strings.TrimSpace`
unfoldable pub trim_space : String → String
unfolding trim_left trim_right
trim_space s = trim_right (trim_left s)

-- `strings.Fields`, with the word that is being read
fields_from : String → String → List String
unfolding is_space
fields_from String.[] word = if is_empty word then [] else word ∷ []
fields_from (String.◌∷◌ c s) word =
    let inside = fields_from s (String.◌++◌ word (String.◌∷◌ c String.[])) in
    let after = fields_from s String.[] in
    if is_space (code c) then (if is_empty word then after else word ∷ after) else inside

unfoldable pub fields : String → List String
unfolding fields_from
fields s = fields_from s ""

abbrev alphabet : List Char
alphabet =
    "a" ∷ "b" ∷ "c" ∷ "d" ∷ "e" ∷ "f" ∷ "g" ∷ "h" ∷ "i" ∷ "j" ∷ "k" ∷ "l" ∷ "m" ∷ "n" ∷ "o" ∷ "p"
    ∷ "q" ∷ "r" ∷ "s" ∷ "t" ∷ "u" ∷ "v" ∷ "w" ∷ "x" ∷ "y" ∷ "z" ∷ []

abbrev lower_char : Char → Char
lower_char c = if leb 65 (code c) && leb (code c) 90 then get_or alphabet (code c - 65) c else c

-- `strings.ToLower`
unfoldable pub to_lower : String → String
to_lower String.[] = String.[]
to_lower (String.◌∷◌ c s) = String.◌∷◌ (lower_char c) (to_lower s)

-- `strings.Contains(s, t)`
unfoldable pub contains : String → String → Bool
unfolding has_prefix
contains String.[] t = has_prefix String.[] t
contains (String.◌∷◌ c s) t = has_prefix (String.◌∷◌ c s) t || contains s t

-- The number of characters `c` in the text.
unfoldable pub count_char : ℕ → String → ℕ
count_char c String.[] = 0
count_char c (String.◌∷◌ d s) = if nat_eq (code d) c then 1 + count_char c s else count_char c s

length-grow : (c : Char) (ss : List String) → 0 < length ss → length (grow c ss) ≡ length ss
length-grow c [] h = elim h [ ]
length-grow c (s ∷ ss) h = refl

-- A split has one field more than there are separators.
pub length-split : (c : ℕ) (s : String) → length (split c s) ≡ 1 + count_char c s
unfolding split count_char
length-split c String.[] = refl
length-split c (String.◌∷◌ d s) = elim (Bool-cases (nat_eq (code d) c)) [
  | inl e ↦ rw e (omega (arith, length-split c s))
  | inr e ↦ rw e (omega (arith, length-split c s, length-grow d (split c s)))
]

lower_test : to_lower "C2 Beacon" ≡ "c2 beacon"
unfolding to_lower
lower_test = refl

fields_test : fields "  a bc d " ≡ "a" ∷ "bc" ∷ "d" ∷ []
unfolding fields
fields_test = refl

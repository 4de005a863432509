-- ===== src/Base/Text.antt =====
-- Text as `fmt` and `strings` make it: concatenation, joins, decimal and hexadecimal numerals.
use Prim.Native.Nat.{ℕ, zero, suc, ◌-◌, ◌/◌, ◌%◌}
use Prim.Native.String
use Prim.Native.String.{String}
use mathlib.Core.List.{List, [], ◌∷◌}
use undertow.Base.Tests.{ltb, if◌then◌else◌}
use undertow.Base.Lists.{get_or, replicate}

-- The parts one after another: what `fmt.Sprintf` makes of a format and its arguments.
unfoldable pub concat : List String → String
concat [] = ""
concat (s ∷ ss) = String.◌++◌ s (concat ss)

-- `strings.Join`
unfoldable pub join : String → List String → String
unfolding concat
join sep [] = ""
join sep (s ∷ []) = s
join sep (s ∷ t ∷ ss) = concat (s ∷ sep ∷ join sep (t ∷ ss) ∷ [])

abbrev pub digit_texts : List String
digit_texts =
    "0" ∷ "1" ∷ "2" ∷ "3" ∷ "4" ∷ "5" ∷ "6" ∷ "7" ∷ "8" ∷ "9" ∷ "a" ∷ "b" ∷ "c" ∷ "d" ∷ "e" ∷ "f"
    ∷ []

unfoldable pub digit : ℕ → String
digit d = get_or digit_texts d ""

unfoldable pub dec_from : ℕ → ℕ → String
unfolding digit concat
dec_from zero n = ""
dec_from (suc fuel) n =
    let rest = concat (dec_from fuel (n / 10) ∷ digit (n % 10) ∷ []) in
    if ltb n 10 then digit n else rest

-- `%d`. The number itself is fuel enough: each round divides it by ten.
unfoldable pub dec : ℕ → String
unfolding dec_from
dec n = dec_from (suc n) n

-- `%04x` of a `uint16`
unfoldable pub hex4 : ℕ → String
unfolding digit concat
hex4 n =
    concat
      (digit (n / 4096 % 16) ∷ digit (n / 256 % 16) ∷ digit (n / 16 % 16) ∷ digit (n % 16) ∷ [])

-- `%02d`
unfoldable pub dec2 : ℕ → String
unfolding dec concat
dec2 n = if ltb n 10 then concat ("0" ∷ dec n ∷ []) else dec n

-- `%-ws`: padded with spaces on the right to `w` characters
unfoldable pub pad_right : ℕ → String → String
unfolding concat
pad_right w s = concat (s ∷ replicate (w - String.count s) " ")

-- `%ws`: padded on the left
unfoldable pub pad_left : ℕ → String → String
unfolding concat
pad_left w s = concat (concat (replicate (w - String.count s) " ") ∷ s ∷ [])

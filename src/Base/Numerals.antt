-- ===== src/Base/Numerals.antt =====
-- Package strconv, as far as the program uses it: `Atoi`, and `ParseUint` in base 16 for 16 bits.
use Prim.Native.Nat.{ℕ, zero, suc, ◌+◌, ◌-◌, ◌*◌, ◌^◌, ◌<◌}
use Prim.Native.Char.{code}
use Prim.Native.String.{String}
use mathlib.Core.Path.{◌≡◌, refl}
use mathlib.Core.Bool.{◌&&◌}
use mathlib.Core.Option.{Option, none, some}
use mathlib.Core.List.{[], ◌∷◌}
use native.Mathlib.Omega.{arith}
use undertow.Base.Tests.{ltb, leb, nat_eq, if◌then◌else◌}
use undertow.Base.Text.{concat, dec}
use undertow.Base.Int.{ℤ, pos, negsuc}

-- The value of a digit or a letter, by its code; 99 for any other character.
unfoldable pub digit_value : ℕ → ℕ
digit_value c =
    if leb 48 c && leb c 57
    then c - 48
    else if leb 97 c && leb c 122
    then c - 87
    else if leb 65 c && leb c 90
    then c - 55
    else 99

unfoldable pub digits_from : ℕ → ℕ → String → Option ℕ
unfolding digit_value
digits_from base acc String.[] = some acc
digits_from base acc (String.◌∷◌ c s) =
    let rest = digits_from base (acc * base + digit_value (code c)) s in
    if ltb (digit_value (code c)) base then rest else none

unfoldable pub digits : ℕ → String → Option ℕ
unfolding digits_from
digits base String.[] = none
digits base (String.◌∷◌ c s) = digits_from base 0 (String.◌∷◌ c s)

pub below : ℕ → Option ℕ → Option ℕ
below bound none = none
below bound (some n) = if ltb n bound then some n else none

-- `strconv.ParseUint(s, 16, 16)`, `none` where it gives an error
unfoldable pub parse_hex16 : String → Option ℕ
unfolding digits below
parse_hex16 s = below 65536 (digits 16 s)

abbrev negated : ℕ → ℤ
negated zero = pos zero
negated (suc n) = negsuc n

abbrev signed : (ℕ → ℤ) → Option ℕ → Option ℤ
signed f none = none
signed f (some n) = some (f n)

-- `strconv.Atoi` on a 64-bit machine
unfoldable pub atoi : String → Option ℤ
unfolding digits below
atoi String.[] = none
atoi (String.◌∷◌ c s) =
    if nat_eq (code c) 45
    then signed negated (below (2 ^ 63 + 1) (digits 10 s))
    else if nat_eq (code c) 43
    then signed pos (below (2 ^ 63) (digits 10 s))
    else signed pos (below (2 ^ 63) (digits 10 (String.◌∷◌ c s)))

-- `%d` of an `int`
unfoldable pub int_text : ℤ → String
int_text (pos n) = dec n
int_text (negsuc n) = concat ("-" ∷ dec (suc n) ∷ [])

below-lt : (bound : ℕ) (o : Option ℕ) (n : ℕ) → below bound o ≡ some n → n < bound
unfolding below
below-lt bound none n e = absurd (ground (arith, e))
below-lt bound (some m) n e = ground (arith, e)

-- What `ParseUint` returns fits 16 bits.
pub parse_hex16-lt : (s : String) (n : ℕ) → parse_hex16 s ≡ some n → n < 65536
unfolding parse_hex16
parse_hex16-lt s n e = below-lt 65536 (digits 16 s) n e

hex_test : parse_hex16 "1F90" ≡ some 8080
unfolding parse_hex16
hex_test = refl

atoi_test : atoi "-12" ≡ some (negsuc 11)
unfolding atoi
atoi_test = refl

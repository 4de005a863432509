-- ===== src/Base/Bytes.antt =====
-- Go's byte slices: a slice sees the bytes from its start to its length, and can be resliced up to
-- its capacity. A byte is a number below 256.
use Prim.Native.Nat.{ℕ, zero, suc, ◌+◌, ◌*◌, ◌-◌, ◌≤◌, ◌<◌, compare, Ordering}
use Prim.Native.Char.{Char, char, nul}
use Prim.Native.String.{String}
use mathlib.Core.Path.{◌≡◌, refl}
use mathlib.Core.Bool.{true, ◌&&◌}
use mathlib.Core.Option.{Option, none, some}
use mathlib.Core.List.{List, [], ◌∷◌}
use native.Mathlib.Omega.{arith}
use undertow.Base.Tests.{ltb, leb, if◌then◌else◌, is_some, le→leb, lt→ltb, if_both}
use undertow.Base.Lists.{length, get_or, drop}

-- `cells` go from the start of the slice to its capacity.
pub record Slice : Type 0 where
  pub cells : List ℕ
  pub len : ℕ

-- The cell, the two cells as a number and the part of the buffer that a read gets if it does not panic.
abbrev pub byte : Slice → ℕ → ℕ
byte s i = get_or s.cells i 0

abbrev pub word : Slice → ℕ → ℕ
word s i = byte s i * 256 + byte s (i + 1)

abbrev pub part_of : Slice → ℕ → ℕ → Slice
part_of s i j = record { cells = drop i s.cells; len = j - i }

-- What goes on with the byte `s[i]`: an index that is not below the length panics.
unfoldable pub with_byte {ℓ} : {R : Type ℓ} → Slice → ℕ → (ℕ → Option R) → Option R
with_byte s i k = if ltb i s.len then k (byte s i) else none

-- What goes on with `binary.BigEndian.Uint16(s[i : i+2])`: the slice expression panics beyond the
-- capacity, and only there.
unfoldable pub with_word {ℓ} : {R : Type ℓ} → Slice → ℕ → (ℕ → Option R) → Option R
with_word s i k = if leb (i + 2) (length s.cells) then k (word s i) else none

-- What goes on with `s[i:j]`: it panics where `j` is beyond the capacity or `i` beyond `j`.
unfoldable pub with_part {ℓ} : {R : Type ℓ} → Slice → ℕ → ℕ → (Slice → Option R) → Option R
with_part s i j k = if leb i j && leb j (length s.cells) then k (part_of s i j) else none

unfoldable pub word? : Slice → ℕ → Option ℕ
unfolding with_word
word? s i = with_word s i some

abbrev pub prepend : Option ℕ → Option (List ℕ) → Option (List ℕ)
prepend none ws = none
prepend (some w) none = none
prepend (some w) (some ws) = some (w ∷ ws)

-- `for i := 0; i < n; i += 2 { … Uint16(s[at+i : at+i+2]) … }`: the numbers read. An odd `n` reads
-- one byte more than `n`.
unfoldable pub words : Slice → ℕ → ℕ → Option (List ℕ)
unfolding word?
words s at zero = some []
words s at (suc zero) = prepend (word? s at) (some [])
words s at (suc (suc n)) = prepend (word? s at) (words s (at + 2) n)

-- `for i := 0; i < n; i++ { … s[at+i] … }`: the bytes read.
unfoldable pub bytes : Slice → ℕ → ℕ → Option (List ℕ)
unfolding with_byte
bytes s at zero = some []
bytes s at (suc n) = prepend (with_byte s at some) (bytes s (at + 1) n)

byte_char : (n : ℕ) (o : Ordering) → compare n 55296 ≡ o → Char
byte_char n Ordering.lt e = char n (rw e tt)
byte_char n Ordering.eq e = nul
byte_char n Ordering.gt e = nul

-- `string(b)` of a byte: the character with this number
unfoldable pub byte_text : ℕ → String
unfolding byte_char
byte_text n = String.◌∷◌ (byte_char n (compare n 55296) refl) String.[]

-- With a byte to spare behind what is read, the loop does not panic.
pub words-is_some :
    (s : Slice) (at n : ℕ) → at + n + 1 ≤ length s.cells → is_some (words s at n) ≡ true
unfolding words word? with_word
words-is_some s at zero h = refl
words-is_some s at (suc zero) h = rw (le→leb (at + 2) (length s.cells) (omega arith))
words-is_some s at (suc (suc n)) h =
    rw (le→leb (at + 2) (length s.cells) (omega arith))
      (ground (arith, words-is_some s (at + 2) n (omega arith)))

-- Reads in range go on with what they read.
pub with_byte-in {ℓ} :
    {R : Type ℓ} (s : Slice) (i : ℕ) (k : ℕ → Option R) → i < s.len → with_byte s i k ≡ k (byte s i)
unfolding with_byte
with_byte-in s i k h = rw (lt→ltb i s.len h)

pub with_word-in {ℓ} :
    {R : Type ℓ} (s : Slice) (i : ℕ) (k : ℕ → Option R)
    → i + 2 ≤ length s.cells
    → with_word s i k ≡ k (word s i)
unfolding with_word
with_word-in s i k h = rw (le→leb (i + 2) (length s.cells) h)

pub with_part-in {ℓ} :
    {R : Type ℓ} (s : Slice) (i j : ℕ) (k : Slice → Option R)
    → i ≤ j
    → j ≤ length s.cells
    → with_part s i j k ≡ k (part_of s i j)
unfolding with_part
with_part-in s i j k h h' = rw (le→leb i j h, le→leb j (length s.cells) h')

-- A read before something that panics panics as well.
pub with_word-none {ℓ} :
    {R : Type ℓ} (s : Slice) (i : ℕ) (k : ℕ → Option R)
    → k (word s i) ≡ none
    → with_word s i k ≡ none
unfolding with_word
with_word-none s i k h = if_both (λ o. o ≡ none) (leb (i + 2) (length s.cells)) h refl

pub bytes-is_some : (s : Slice) (at n : ℕ) → at + n ≤ s.len → is_some (bytes s at n) ≡ true
unfolding bytes with_byte
bytes-is_some s at zero h = refl
bytes-is_some s at (suc n) h =
    rw (lt→ltb at s.len (omega arith)) (ground (arith, bytes-is_some s (at + 1) n (omega arith)))

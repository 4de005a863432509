-- ===== src/Base/Decimal.antt =====
-- Decimal numerals read back: `%d` of a number is read as this number, so no two have one text.
use Prim.Native.Nat.{ℕ, zero, suc, ◌+◌, ◌*◌, ◌/◌, ◌%◌, ◌<◌}
use Prim.Native.Char.{code}
use Prim.Native.String
use Prim.Native.String.{String}
use mathlib.Core.Path.{◌≡◌, refl, sym, ap, ◌∙◌}
use mathlib.Core.Logic.{inl, inr}
use mathlib.Core.Option.{Option, none, some, some-injective}
use native.Mathlib.Omega.{arith}
use text.Mathlib.TextLemmas.{nil-append, cons-append, append-nil}
use undertow.Base.Tests.{ltb, ltb-false, ltb→lt, Bool-cases}
use undertow.Base.Text.{concat, digit, dec, dec_from}
use undertow.Base.Numerals.{digit_value, digits_from}

abbrev and_then : Option ℕ → (ℕ → Option ℕ) → Option ℕ
and_then none k = none
and_then (some a) k = k a

digits_from-append :
    (base acc : ℕ) (s t : String)
    → digits_from base acc (String.◌++◌ s t)
      ≡ and_then (digits_from base acc s) (λ a. digits_from base a t)
unfolding digits_from
digits_from-append base acc String.[] t = rw (nil-append t)
digits_from-append base acc (String.◌∷◌ c s) t =
    rw (cons-append c s t) (elim (Bool-cases (ltb (digit_value (code c)) base)) [
      | inl e ↦ rw e (digits_from-append base (acc * base + digit_value (code c)) s t)
      | inr e ↦ rw e
    ])

-- One digit.
digits_from-digit : (acc d : ℕ) → d < 10 → digits_from 10 acc (digit d) ≡ some (acc * 10 + d)
unfolding digits_from digit
digits_from-digit acc zero h = refl
digits_from-digit acc (suc zero) h = refl
digits_from-digit acc (suc (suc zero)) h = refl
digits_from-digit acc (suc (suc (suc zero))) h = refl
digits_from-digit acc (suc (suc (suc (suc zero)))) h = refl
digits_from-digit acc (suc (suc (suc (suc (suc zero))))) h = refl
digits_from-digit acc (suc (suc (suc (suc (suc (suc zero)))))) h = refl
digits_from-digit acc (suc (suc (suc (suc (suc (suc (suc zero))))))) h = refl
digits_from-digit acc (suc (suc (suc (suc (suc (suc (suc (suc zero)))))))) h = refl
digits_from-digit acc (suc (suc (suc (suc (suc (suc (suc (suc (suc zero))))))))) h = refl
digits_from-digit acc (suc (suc (suc (suc (suc (suc (suc (suc (suc (suc n)))))))))) h =
    absurd (omega arith)

-- With fuel enough the text of a number is read as the number.
digits_from-dec_from : (fuel n : ℕ) → n < fuel → digits_from 10 0 (dec_from fuel n) ≡ some n
unfolding dec_from concat
digits_from-dec_from zero n h = elim h [ ]
digits_from-dec_from (suc fuel) n h = elim (Bool-cases (ltb n 10)) [
  | inl small ↦ rw small (digits_from-digit 0 n (ltb→lt n 10 small) ∙ ap some (omega arith))
  | inr large ↦
      rw
        (
          large,
          append-nil (digit (n % 10)),
          digits_from-append 10 0 (dec_from fuel (n / 10)) (digit (n % 10)),
          digits_from-dec_from fuel (n / 10) (omega (arith, ltb-false n 10 large)),
          digits_from-digit (n / 10) (n % 10) (omega arith),
        )
        (ap some (omega arith))
]

-- A numeral is read back as the number.
pub digits-dec : (n : ℕ) → digits_from 10 0 (dec n) ≡ some n
unfolding dec
digits-dec n = digits_from-dec_from (suc n) n (omega arith)

-- No two numbers have the same numeral.
pub dec_injective : (m n : ℕ) → dec m ≡ dec n → m ≡ n
dec_injective m n e =
    some-injective m n (sym (digits-dec m) ∙ ap (digits_from 10 0) e ∙ digits-dec n)

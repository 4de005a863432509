-- ===== src/Base/Int.antt =====
-- Signed numbers over the native ℕ, under the library's names: what Go's `int` and `int64` hold, the
-- product that wraps, and a time with a signed duration added.
use Prim.Native.Nat.{ℕ, zero, suc, ◌+◌, ◌*◌, ◌-◌, ◌%◌, ◌^◌, ◌<◌}
use mathlib.Core.Path.{◌≡◌, ap}
use mathlib.Core.Bool.{Bool}
use native.Mathlib.Omega.{arith}
use undertow.Base.Tests.{ltb, if◌then◌else◌}

-- `negsuc n` is -(n + 1).
pub data ℤ : Type 0 where
  pos : ℕ → ℤ
  negsuc : ℕ → ℤ

-- The `int64` of a bit pattern.
unfoldable pub int64 : ℕ → ℤ
int64 n = let r = n % 2 ^ 64 in if ltb r (2 ^ 63) then pos r else negsuc (2 ^ 64 - 1 - r)

-- `a * k` on `int64`
unfoldable pub times64 : ℤ → ℕ → ℤ
unfolding int64
times64 (pos n) k = int64 (n * k)
times64 (negsuc n) k = int64 (2 ^ 64 - suc n * k % 2 ^ 64)

-- `-a` for an `a` that is not negative
abbrev pub negated : ℕ → ℤ
negated zero = pos 0
negated (suc n) = negsuc n

-- `t.Before(base.Add(d))` and `t.After(base.Add(d))`
unfoldable pub is_before : ℕ → ℕ → ℤ → Bool
is_before t base (pos k) = ltb t (base + k)
is_before t base (negsuc k) = ltb (t + suc k) base

unfoldable pub is_after : ℕ → ℕ → ℤ → Bool
is_after t base (pos k) = ltb (base + k) t
is_after t base (negsuc k) = ltb base (t + suc k)

int64-neg : (x : ℕ) → 0 < x → x < 2 ^ 63 → int64 (2 ^ 64 - x % 2 ^ 64) ≡ negsuc (x - 1)
unfolding int64
int64-neg x a b = ground arith

-- A product that fits does not wrap.
pub times64-negated :
    (n k : ℕ) → 0 < n * k → n * k < 2 ^ 63 → times64 (negated n) k ≡ negsuc (n * k - 1)
unfolding times64
times64-negated zero k a b = absurd (omega arith)
times64-negated (suc n) k a b = int64-neg (suc n * k) a b

-- A time is after `now - n * k`, where this does not wrap, if `now` is before the time plus `n * k`.
pub is_after-negated :
    (t now n k : ℕ)
    → 0 < k
    → n * k < 2 ^ 63
    → is_after t now (times64 (negated n) k) ≡ ltb now (t + n * k)
unfolding is_after times64 int64
is_after-negated t now zero k a b = ground arith
is_after-negated t now (suc n) k a b =
    rw (times64-negated (suc n) k (omega arith) b) (ap (λ m. ltb now (t + m)) (omega arith))

-- ===== src/Base/Eq.antt =====
-- Keys that can be compared: Go's comparable types.
use Prim.Native.Nat.{ℕ}
use Prim.Native.String.{String}
use mathlib.Core.Path.{◌≡◌}
use mathlib.Core.Logic.{◌↔◌}
use mathlib.Core.Bool.{Bool, true}
use text.Mathlib.Text
use text.Mathlib.TextEquality
use undertow.Base.Tests.{nat_eq, nat_eq_iff}

-- A Boolean test that decides equality.
pub record Eq {ℓ} (K : Type ℓ) : Type ℓ where
  pub same : K → K → Bool
  pub same_iff : (j k : K) → (same j k ≡ true) ↔ (j ≡ k)

instance abbrev pub number_eq : Eq ℕ
number_eq = record { same = nat_eq; same_iff = nat_eq_iff }

instance abbrev pub string_eq : Eq String
string_eq = record { same = Text.◌==◌; same_iff = TextEquality.eq_iff }

infix 50 ◌==◌
abbrev pub ◌==◌ {ℓ} : {K : Type ℓ} ⦃e : Eq K⦄ → K → K → Bool
◌==◌ ⦃e⦄ j k = e.same j k

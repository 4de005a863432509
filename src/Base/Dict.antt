-- ===== src/Base/Dict.antt =====
-- Go's maps. The order of entries stands for Go's unspecified order of iteration; the program never
-- deletes a key.
use Prim.Native.Nat.{ℕ, ◌+◌}
use mathlib.Core.Path.{◌≡◌, refl}
use mathlib.Core.Logic.{inl, inr}
use mathlib.Core.Option.{Option, none, some}
use mathlib.Core.List.{List, [], ◌∷◌}
use native.Mathlib.Omega.{arith}
use undertow.Base.Tests.{if◌then◌else◌, Bool-cases}
use undertow.Base.Lists.{All}
use undertow.Base.Eq.{Eq, ◌==◌}

abbrev pub Dict {ℓ κ} : Type ℓ → Type κ → Type (ℓ ⊔ κ)
Dict K V = List (K × V)

abbrev pub or_else {ℓ} : {A : Type ℓ} → Option A → A → A
or_else none d = d
or_else (some a) d = a

abbrev pub part {ℓ} : {A : Type ℓ} → (A → ℕ) → Option A → ℕ
part f none = 0
part f (some v) = f v

module _ {ℓ κ} {K : Type ℓ} {V : Type κ} ⦃e : Eq K⦄ where
  -- v, found := m[k]
  unfoldable pub get : Dict K V → K → Option V
  get [] k = none
  get ((j, v) ∷ m) k = if j == k then some v else get m k

  -- m[k] = v
  unfoldable pub put : Dict K V → K → V → Dict K V
  put [] k v = (k, v) ∷ []
  put ((j, w) ∷ m) k v = if j == k then (k, v) ∷ m else (j, w) ∷ put m k v

  -- `for _, v := range m`
  unfoldable pub values : Dict K V → List V
  values [] = []
  values ((j, v) ∷ m) = v ∷ values m

  pub get-put :
      (m : Dict K V) (k j : K) (v : V) → get (put m k v) j ≡ (if k == j then some v else get m j)
  unfolding get put
  get-put [] k j v = refl
  get-put ((i, w) ∷ m) k j v =
      ground (arith, e.same_iff k j, e.same_iff i k, e.same_iff i j, get-put m k j v)

  pub get-put_self : (m : Dict K V) (k : K) (v : V) → get (put m k v) k ≡ some v
  get-put_self m k v = rw (get-put, (e.same_iff k k).1 refl)

  -- A total over the values: writing a key replaces its old part by the new one.
  abbrev pub total : (V → ℕ) → Dict K V → ℕ
  total f [] = 0
  total f ((j, v) ∷ m) = f v + total f m

  pub total-put :
      (f : V → ℕ) (m : Dict K V) (k : K) (v : V)
      → total f (put m k v) + part f (get m k) ≡ total f m + f v
  unfolding get put
  total-put f [] k v = omega arith
  total-put f ((j, w) ∷ m) k v = elim (Bool-cases (j == k)) [
    | inl h ↦ rw h (omega arith)
    | inr h ↦ rw h (omega (arith, total-put f m k v))
  ]

  -- A property of every entry survives a write that has it.
  pub All-put {μ} :
      (P : K × V → Type μ) (m : Dict K V) (k : K) (v : V) → P (k, v) → All P m → All P (put m k v)
  unfolding put
  All-put P [] k v h a = (h, a)
  All-put P ((j, w) ∷ m) k v h a = elim (Bool-cases (j == k)) [
    | inl e ↦ rw e (h, a.1)
    | inr e ↦ rw e (a.0, All-put P m k v h a.1)
  ]

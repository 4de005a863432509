-- ===== src/Base/Rename.antt =====
-- A map whose keys and values are renamed, the keys one to one.
use mathlib.Core.Path.{◌≡◌, refl, ap, sym, ◌∙◌}
use mathlib.Core.Logic.{inl, inr}
use mathlib.Core.Option
use mathlib.Core.List.{[], ◌∷◌, map}
use Prim.Native.Nat.{suc}
use undertow.Base.Tests.{Bool-cases}
use undertow.Base.Lists.{length}
use undertow.Base.Eq.{Eq, ◌==◌}
use undertow.Base.Dict.{Dict, get, put, values}

module _ {ℓ κ μ ν} {J : Type ℓ} {K : Type κ} {V : Type μ} {W : Type ν} ⦃d : Eq J⦄ ⦃e : Eq K⦄
    (f : J → K) (g : V → W) where
  -- A map with its keys and its values renamed.
  abbrev pub renamed : Dict J V → Dict K W
  renamed [] = []
  renamed ((j, v) ∷ m) = (f j, g v) ∷ renamed m

  module _ (distinct : (i j : J) → f i ≡ f j → i ≡ j) where
    same-renamed : (i j : J) → (f i == f j) ≡ (i == j)
    same-renamed i j = elim (Bool-cases (i == j)) [
      | inl h ↦ rw h ((e.same_iff (f i) (f j)).1 (ap f ((d.same_iff i j).0 h)))
      | inr h ↦ elim (Bool-cases (f i == f j)) [
        | inl k ↦ k ∙ sym ((d.same_iff i j).1 (distinct i j ((e.same_iff (f i) (f j)).0 k)))
        | inr k ↦ k ∙ sym h
      ]
    ]

    pub put-renamed :
        (m : Dict J V) (k : J) (v : V) → put (renamed m) (f k) (g v) ≡ renamed (put m k v)
    unfolding put
    put-renamed [] k v = refl
    put-renamed ((j, w) ∷ m) k v = elim (Bool-cases (j == k)) [
      | inl h ↦ rw (same-renamed j k, h)
      | inr h ↦ rw (same-renamed j k, h) (ap (λ r. (f j, g w) ∷ r) (put-renamed m k v))
    ]

    pub get-renamed : (m : Dict J V) (k : J) → get (renamed m) (f k) ≡ Option.map g (get m k)
    unfolding get
    get-renamed [] k = refl
    get-renamed ((j, w) ∷ m) k = elim (Bool-cases (j == k)) [
      | inl h ↦ rw (same-renamed j k, h)
      | inr h ↦ rw (same-renamed j k, h) (get-renamed m k)
    ]

  pub values-renamed : (m : Dict J V) → values (renamed m) ≡ map g (values m)
  unfolding values
  values-renamed [] = refl
  values-renamed ((j, w) ∷ m) = ap (λ r. g w ∷ r) (values-renamed m)

  pub length-renamed : (m : Dict J V) → length (renamed m) ≡ length m
  length-renamed [] = refl
  length-renamed ((j, w) ∷ m) = ap suc (length-renamed m)

-- ===== src/Base/Sort.antt =====
-- `sort.Slice`: the package promises a sorted permutation and no order of equal elements; here it
-- is the insertion sort.
use Prim.Native.Nat.{ℕ, suc}
use mathlib.Core.Path.{◌≡◌, refl, ap, ◌∙◌}
use mathlib.Core.Logic.{inl, inr}
use mathlib.Core.Bool.{Bool, true, false}
use mathlib.Core.List.{List, [], ◌∷◌, Perm}
use mathlib.Core.List.Perm
use native.Mathlib.Omega.{arith}
use undertow.Base.Tests.{ltb, if◌then◌else◌, Bool-cases}
use undertow.Base.Lists.{All, length}

module _ {ℓ} {A : Type ℓ} (less : A → A → Bool) where
  unfoldable pub insert : A → List A → List A
  insert x [] = x ∷ []
  insert x (y ∷ ys) = let rest = insert x ys in if less y x then y ∷ rest else x ∷ y ∷ ys

  unfoldable pub sort : List A → List A
  unfolding insert
  sort [] = []
  sort (x ∷ xs) = insert x (sort xs)

  -- No later element is less than an earlier one.
  abbrev pub IsSorted : List A → Type 0
  IsSorted [] = Unit
  IsSorted (x ∷ xs) = All (λ y. less y x ≡ false) xs × IsSorted xs

  insert-perm : (x : A) (xs : List A) → Perm (insert x xs) (x ∷ xs)
  unfolding insert
  insert-perm x [] = Perm.refl _
  insert-perm x (y ∷ ys) = elim (Bool-cases (less y x)) [
    | inl h ↦ rw h (Perm.trans (Perm.cons y (insert-perm x ys)) (Perm.swap x y ys))
    | inr h ↦ rw h (Perm.refl _)
  ]

  pub sort-perm : (xs : List A) → Perm (sort xs) xs
  unfolding sort
  sort-perm [] = Perm.refl _
  sort-perm (x ∷ xs) = Perm.trans (insert-perm x (sort xs)) (Perm.cons x (sort-perm xs))

  All-insert : (P : A → Type 0) (x : A) (xs : List A) → P x → All P xs → All P (insert x xs)
  unfolding insert
  All-insert P x [] h a = (h, a)
  All-insert P x (y ∷ ys) h a = elim (Bool-cases (less y x)) [
    | inl e ↦ rw e (a.0, All-insert P x ys h a.1)
    | inr e ↦ rw e (h, a)
  ]

  pub All-sort : (P : A → Type 0) (xs : List A) → All P xs → All P (sort xs)
  unfolding sort
  All-sort P [] a = tt
  All-sort P (x ∷ xs) a = All-insert P x (sort xs) a.0 (All-sort P xs a.1)

  length-insert : (x : A) (xs : List A) → length (insert x xs) ≡ suc (length xs)
  unfolding insert
  length-insert x [] = refl
  length-insert x (y ∷ ys) = elim (Bool-cases (less y x)) [
    | inl h ↦ rw h (ap suc (length-insert x ys))
    | inr h ↦ rw h
  ]

  pub length-sort : (xs : List A) → length (sort xs) ≡ length xs
  unfolding sort
  length-sort [] = refl
  length-sort (x ∷ xs) = length-insert x (sort xs) ∙ ap suc (length-sort xs)

  module _ (asym : (x y : A) → less x y ≡ true → less y x ≡ false)
      (trans : (x y z : A) → less y x ≡ false → less z y ≡ false → less z x ≡ false) where
    All-trans :
        (x y : A) (ys : List A)
        → less y x ≡ false
        → All (λ z. less z y ≡ false) ys
        → All (λ z. less z x ≡ false) ys
    All-trans x y [] h a = tt
    All-trans x y (z ∷ ys) h a = (trans x y z h a.0, All-trans x y ys h a.1)

    insert-IsSorted : (x : A) (xs : List A) → IsSorted xs → IsSorted (insert x xs)
    unfolding insert
    insert-IsSorted x [] s = (tt, tt)
    insert-IsSorted x (y ∷ ys) s = elim (Bool-cases (less y x)) [
      | inl e ↦
          rw e (All-insert (λ z. less z y ≡ false) x ys (asym y x e) s.0, insert-IsSorted x ys s.1)
      | inr e ↦ rw e ((e, All-trans x y ys e s.0), s)
    ]

    pub sort-IsSorted : (xs : List A) → IsSorted (sort xs)
    unfolding sort
    sort-IsSorted [] = tt
    sort-IsSorted (x ∷ xs) = insert-IsSorted x (sort xs) (sort-IsSorted xs)

-- `key(i) > key(j)`: the largest key first.
module _ {ℓ} {A : Type ℓ} (key : A → ℕ) where
  abbrev pub desc : A → A → Bool
  desc x y = ltb (key y) (key x)

  pub sort-desc-IsSorted : (xs : List A) → IsSorted desc (sort desc xs)
  sort-desc-IsSorted = sort-IsSorted desc (λ x y h. ground arith) (λ x y z h k. ground arith)

  -- `key(i) < key(j)`: the smallest key first.
  abbrev pub asc : A → A → Bool
  asc x y = ltb (key x) (key y)

  pub sort-asc-IsSorted : (xs : List A) → IsSorted asc (sort asc xs)
  sort-asc-IsSorted = sort-IsSorted asc (λ x y h. ground arith) (λ x y z h k. ground arith)

-- ===== src/Base/Windows.antt =====
-- The last elements of a list, Go's `copy`, and a write next to what is taken or dropped.
use Prim.Native.Nat.{ℕ, zero, suc, ◌+◌, ◌-◌, ◌≤◌, ◌<◌, ◌%◌}
use mathlib.Core.Path.{◌≡◌, refl, ap, sym, ◌∙◌}
use mathlib.Core.Logic.{◌⊎◌, inl, inr}
use mathlib.Core.List.{List, [], ◌∷◌, ◌++◌}
use native.Mathlib.Omega.{arith}
use native.Mathlib.Decide.{dec_lt, dec_le}
use native.Mathlib.Nat.{mod-eq_of_lt, mod_self}
use native.Mathlib.Numerals.{add-one}
use undertow.Base.Lists.{length, set, take, drop, length-append, length-drop, drop_all, drop-append}

-- The last `n` elements.
abbrev pub last {ℓ} : {A : Type ℓ} → ℕ → List A → List A
last n xs = drop (length xs - n) xs

-- Go's `copy`: the destination after it, whose length stays.
abbrev pub copy {ℓ} : {A : Type ℓ} → List A → List A → List A
copy dst src = take (length dst) src ++ drop (length src) dst

module _ {ℓ} {A : Type ℓ} where
  pub take_all : (n : ℕ) (xs : List A) → length xs ≤ n → take n xs ≡ xs
  take_all zero [] h = refl
  take_all zero (x ∷ xs) h = elim h [ ]
  take_all (suc n) [] h = refl
  take_all (suc n) (x ∷ xs) h = ap (λ l. x ∷ l) (take_all n xs (omega arith))

  pub take-append : (n : ℕ) (xs ys : List A) → n ≡ length xs → take n (xs ++ ys) ≡ xs
  take-append zero [] ys h = refl
  take-append zero (x ∷ xs) ys h = absurd (omega arith)
  take-append (suc n) [] ys h = absurd (omega arith)
  take-append (suc n) (x ∷ xs) ys h = ap (λ l. x ∷ l) (take-append n xs ys (omega arith))

  pub drop-append_len : (n : ℕ) (xs ys : List A) → n ≡ length xs → drop n (xs ++ ys) ≡ ys
  drop-append_len zero [] ys h = refl
  drop-append_len zero (x ∷ xs) ys h = absurd (omega arith)
  drop-append_len (suc n) [] ys h = absurd (omega arith)
  drop-append_len (suc n) (x ∷ xs) ys h = drop-append_len n xs ys (omega arith)

  pub take-set :
      (i : ℕ) (xs : List A) (v : A)
      → i < length xs
      → take (suc i) (set xs i v) ≡ take i xs ++ v ∷ []
  take-set i [] v h = elim h [ ]
  take-set zero (x ∷ xs) v h = refl
  take-set (suc i) (x ∷ xs) v h = ap (λ l. x ∷ l) (take-set i xs v (omega arith))

  pub drop-set : (i : ℕ) (xs : List A) (v : A) → drop (suc i) (set xs i v) ≡ drop (suc i) xs
  drop-set i [] v = refl
  drop-set zero (x ∷ xs) v = refl
  drop-set (suc i) (x ∷ xs) v = drop-set i xs v

  pub drop-tail :
      (i : ℕ) (xs ys : List A) → i < length xs → drop 1 (drop i xs ++ ys) ≡ drop (suc i) xs ++ ys
  drop-tail i [] ys h = elim h [ ]
  drop-tail zero (x ∷ xs) ys h = refl
  drop-tail (suc i) (x ∷ xs) ys h = drop-tail i xs ys (omega arith)

-- One step round a ring of `c` places.
pub next_index :
    (h c : ℕ) → h < c → ((h + 1 ≡ c) × ((h + 1) % c ≡ 0)) ⊎ ((h + 1 < c) × ((h + 1) % c ≡ h + 1))
next_index h c lt = elim (dec_lt (h + 1) c) [
  | yes p ↦ inr (p, mod-eq_of_lt p)
  | no p ↦ inl (omega arith, wrap (omega arith))
]
  where
    wrap : h + 1 ≡ c → (h + 1) % c ≡ 0
    wrap e = rw e (mod_self c)

module _ {ℓ} {A : Type ℓ} where
  pub last_fits : (n : ℕ) (xs : List A) → length xs ≤ n → last n xs ≡ xs
  last_fits n xs h = ap (λ k. drop k xs) {x = length xs - n} {y = 0} (omega arith)

  -- One item more than fits: the first one goes.
  pub last_over : (n : ℕ) (xs : List A) → length xs ≡ n + 1 → last n xs ≡ drop 1 xs
  last_over n xs h = ap (λ k. drop k xs) {x = length xs - n} {y = 1} (omega arith)

  pub take-set_add :
      (i : ℕ) (xs : List A) (v : A)
      → i < length xs
      → take (i + 1) (set xs i v) ≡ take i xs ++ v ∷ []
  take-set_add i xs v h = rw add-one (take-set i xs v h)

  pub drop-set_add : (i : ℕ) (xs : List A) (v : A) → drop (i + 1) (set xs i v) ≡ drop (suc i) xs
  drop-set_add i xs v = rw add-one (drop-set i xs v)

  pub drop_add : (k j : ℕ) (xs : List A) → drop (k + j) xs ≡ drop j (drop k xs)
  drop_add zero j xs = ap (λ i. drop i xs) {x = zero + j} {y = j} (omega arith)
  drop_add (suc k) j [] = drop_all (suc k + j) [] (omega arith) ∙ sym (drop_all j [] (omega arith))
  drop_add (suc k) j (x ∷ xs) =
      ap (λ i. drop i (x ∷ xs)) {x = suc k + j} {y = suc (k + j)} (omega arith) ∙ drop_add k j xs

  -- Dropping early what will be dropped anyway.
  pub last-last : (n : ℕ) (xs ys : List A) → last n (last n xs ++ ys) ≡ last n (xs ++ ys)
  last-last n xs ys = elim (dec_le (length xs) n) [
    | yes p ↦ ap (λ l. last n (l ++ ys)) (last_fits n xs p)
    | no p ↦ sym (
        ap (λ i. drop i (xs ++ ys)) (split (omega arith))
        ∙ drop_add (length xs - n) (length (last n xs ++ ys) - n) (xs ++ ys)
        ∙ ap (drop (length (last n xs ++ ys) - n))
            (drop-append (length xs - n) xs ys (omega arith)))
  ]
    where
      split :
          n ≤ length xs → length (xs ++ ys) - n ≡ (length xs - n) + (length (last n xs ++ ys) - n)
      split h =
          omega (
            arith,
            length-append xs ys,
            length-append (last n xs) ys,
            length-drop (length xs - n) xs,
          )

  pub length-last : (n : ℕ) (xs : List A) → length (last n xs) ≤ n
  length-last n xs = omega (arith, length-drop (length xs - n) xs)

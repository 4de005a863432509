-- ===== src/Tls/Rounds.antt =====
-- The loop over the extensions and its fuel.
use undertow.Base.{
  ℕ, zero, suc, ◌+◌, ◌≤◌, ◌<◌, ◌≡◌, refl, sym, ap, false, Option, none, some, arith, ltb, leb, ◌&&◌,
  if◌then◌else◌, length,
}
use undertow.Base.Bytes.{Slice, word, part_of, with_word, with_part}
use undertow.Tls.{and_then, extension_loop}

-- Two ways to go on that agree agree after a read.
with_word-ext {ℓ} :
    {R : Type ℓ} (s : Slice) (i : ℕ) (j k : ℕ → Option R)
    → ((n : ℕ) → j n ≡ k n)
    → with_word s i j ≡ with_word s i k
unfolding with_word
with_word-ext s i j k e = ap (λ o. if leb (i + 2) (length s.cells) then o else none) (e (word s i))

with_part-ext {ℓ} :
    {R : Type ℓ} (s : Slice) (a b : ℕ) (j k : Slice → Option R)
    → ((p : Slice) → j p ≡ k p)
    → with_part s a b j ≡ with_part s a b k
unfolding with_part
with_part-ext s a b j k e =
    ap (λ o. if leb a b && leb b (length s.cells) then o else none) (e (part_of s a b))

module _ {ℓ} {A : Type ℓ} (note : A → ℕ → A) (handle : A → ℕ → Slice → Option A) where
  loop_over :
      (h : Slice) (end_ext fuel offset : ℕ) (acc : A)
      → end_ext ≤ offset
      → extension_loop note handle h end_ext fuel offset acc ≡ some acc
  unfolding extension_loop
  loop_over h end_ext zero offset acc le = refl
  loop_over h end_ext (suc fuel) offset acc le = rw (past (omega arith))
    where
      past : end_ext < offset + 4 → leb (offset + 4) end_ext ≡ false
      past lt = ground arith

  and_then-ext :
      (o : Option A) (j k : A → Option A)
      → ((a : A) → j a ≡ k a)
      → and_then note handle o j ≡ and_then note handle o k
  and_then-ext none j k e = refl
  and_then-ext (some a) j k e = e a

  -- The fuel of the loop over the extensions does not matter once there is one round for every byte
  -- that is left, as there is where the program starts it.
  extension_loop_fuel :
      (h : Slice) (end_ext fuel more offset : ℕ) (acc : A)
      → end_ext ≤ offset + fuel
      → end_ext ≤ offset + more
      → extension_loop note handle h end_ext fuel offset acc
        ≡ extension_loop note handle h end_ext more offset acc
  unfolding extension_loop
  extension_loop_fuel h end_ext zero more offset acc le le' =
      sym (loop_over h end_ext more offset acc (omega arith))
  extension_loop_fuel h end_ext (suc fuel) zero offset acc le le' =
      loop_over h end_ext (suc fuel) offset acc (omega arith)
  extension_loop_fuel h end_ext (suc fuel) (suc more) offset acc le le' =
      ap (λ o. if leb (offset + 4) end_ext then o else some acc)
        (with_word-ext h offset _ _ (λ type. with_word-ext h (offset + 2) _ _ (λ n.
          ap (λ o. if ltb end_ext (offset + 4 + n) then some (note acc type) else o)
            (with_part-ext h (offset + 4) (offset + 4 + n) _ _ (λ data_.
              and_then-ext (handle (note acc type) type data_) _ _ (λ a.
                extension_loop_fuel h end_ext fuel more (offset + 4 + n) a (omega arith)
                  (omega arith)))))))

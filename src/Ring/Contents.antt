-- ===== src/Ring/Contents.antt =====
-- The items that a ring holds, and that Slice reads them.
use mathlib.Core.List.{append-nil}
use undertow.Base.{
  ℕ, zero, suc, ◌+◌, ◌≤◌, min, ◌≡◌, refl, inl, inr, List, [], ◌∷◌, ◌++◌, if◌then◌else◌, arith, ltb,
  nat_eq, Bool-cases, ltb→lt, ltb-false, length, take, drop, replicate, copy, nat_eq-false,
  length-take, length-drop, length-replicate, drop_all, take_all, take-append, drop-append_len,
}
use undertow.Ring.{Ring, slice}
use undertow.Ring.Inv.{IsValid}

module _ {ℓ} {T : Type ℓ} where
  -- The items, oldest first.
  abbrev pub contents : Ring T → List T
  contents r =
      if ltb r.size r.capacity
      then take r.head r.items
      else drop r.head r.items ++ take r.head r.items

  copy_same : (dst src : List T) → length dst ≡ length src → copy dst src ≡ src
  copy_same dst src e = rw (
    take_all (length dst) src (omega arith),
    drop_all (length src) dst (omega arith),
    append-nil src,
  )

  -- The two copies of `Slice` put the older part in front.
  copy_two :
      (dst a b : List T)
      → length dst ≡ length a + length b
      → take (length a) (copy dst a) ++ copy (drop (length a) (copy dst a)) b ≡ a ++ b
  copy_two dst a b e = rw (
    take_all (length dst) a (omega arith),
    take-append (length a) a (drop (length a) dst) refl,
    drop-append_len (length a) a (drop (length a) dst) refl,
    copy_same (drop (length a) dst) b (omega (arith, length-drop (length a) dst)),
  )

  slice_partial :
      (blank : T) (items : List T) (n h : ℕ)
      → n ≤ length items
      → h ≡ n
      → (if nat_eq n 0 then [] else copy (replicate n blank) (take n items)) ≡ take h items
  slice_partial blank items zero h le e = rw e
  slice_partial blank items (suc n) h le e =
      rw (e, nat_eq-false (suc n) 0 (omega arith))
        (copy_same (replicate (suc n) blank) (take (suc n) items)
          (omega (arith, length-replicate (suc n) blank, length-take (suc n) items)))

  slice_full :
      (blank : T) (items : List T) (n h : ℕ)
      → length items ≡ n
      → h ≤ n
      → (if nat_eq n 0
          then []
          else take (min n (length (drop h items))) (copy (replicate n blank) (drop h items))
            ++ copy
                (drop (min n (length (drop h items))) (copy (replicate n blank) (drop h items)))
                (take h items))
        ≡ drop h items ++ take h items
  slice_full blank [] zero zero e le = refl
  slice_full blank [] zero (suc h) e le = elim le [ ]
  slice_full blank [] (suc n) h e le = absurd (omega arith)
  slice_full blank (x ∷ items) zero h e le = absurd (omega arith)
  slice_full blank (x ∷ items) (suc n) h e le =
      rw (fits, nat_eq-false (suc n) 0 (omega arith))
        (copy_two (replicate (suc n) blank) (drop h (x ∷ items)) (take h (x ∷ items)) (
          omega (
            arith,
            length-replicate (suc n) blank,
            length-take h (x ∷ items),
            length-drop h (x ∷ items),
          )))
    where
      fits : min (suc n) (length (drop h (x ∷ items))) ≡ length (drop h (x ∷ items))
      fits = omega (arith, length-drop h (x ∷ items))

  -- `Slice` reads the contents.
  pub slice-eq-contents : (blank : T) (r : Ring T) → IsValid r → slice blank r ≡ contents r
  unfolding slice
  slice-eq-contents blank r v = elim (Bool-cases (ltb r.size r.capacity)) [
    | inl e ↦ rw e (
        slice_partial blank r.items r.size r.head (omega arith)
          (omega (arith, ltb→lt r.size r.capacity e)))
    | inr e ↦ rw e (
        slice_full blank r.items r.size r.head (omega (arith, ltb-false r.size r.capacity e))
          (omega arith))
  ]

-- ===== src/Ring/Refine.antt =====
-- The ring against its specification: the last `capacity` items of all that were pushed.
use mathlib.Core.List.{append-nil, append_assoc}
use undertow.Base.{
  ℕ, suc, ◌+◌, ◌-◌, ◌<◌, ◌≡◌, refl, sym, ◌∙◌, inl, inr, List, [], ◌∷◌, ◌++◌, arith, ltb, lt→ltb,
  Bool-cases, ltb→lt, ltb-false, ℕ_discrete, next_index, length, set, take, drop, last, last_fits,
  last-last, last_over, take-set_add, drop-set_add, ltb_ge, length-set, length-append, length-take,
  length-drop, drop_all, take_all, drop-tail,
}
use undertow.Ring.{Ring, new, slice, push, push_all}
use undertow.Ring.Inv.{IsValid, push_some, push_none, new-IsValid, push-IsValid, capacity-push}
use undertow.Ring.Contents.{contents, slice-eq-contents}

module _ {ℓ} {T : Type ℓ} where
  -- A write at the last index leaves the items before it, and the new one.
  set_last : (i : ℕ) (xs : List T) (v : T) → i + 1 ≡ length xs → take i xs ++ v ∷ [] ≡ set xs i v
  set_last i xs v e =
      sym (take-set_add i xs v (omega arith))
      ∙ take_all (i + 1) (set xs i v) (omega (arith, length-set xs i v))

  -- What the write leaves, for a ring that fills and for one that is full.
  module _ (r : Ring T) (x : T) (v : IsValid r) (room : r.head < r.capacity) where
    after_partial :
        r.size < r.capacity → contents (push r x) ≡ last r.capacity (contents r ++ x ∷ [])
    after_partial h = elim (next_index r.head r.capacity room) [
      | inl w ↦
          rw
            (
              push_some r x (omega arith),
              lt→ltb r.size r.capacity h,
              ltb_ge (r.size + 1) r.capacity (omega arith),
              w.1,
              append-nil,
            )
            (sym (set_last r.head r.items x (omega arith)) ∙ sym fits)
      | inr n ↦
          rw
            (
              push_some r x (omega arith),
              lt→ltb r.size r.capacity h,
              lt→ltb (r.size + 1) r.capacity (omega arith),
              n.1,
            )
            (take-set_add r.head r.items x (omega arith) ∙ sym fits)
    ]
      where
        fits : last r.capacity (take r.head r.items ++ x ∷ []) ≡ take r.head r.items ++ x ∷ []
        fits = last_fits r.capacity (take r.head r.items ++ x ∷ []) (
            omega (arith, length-append (take r.head r.items) (x ∷ []), length-take r.head r.items))

    after_full : r.size ≡ r.capacity → contents (push r x) ≡ last r.capacity (contents r ++ x ∷ [])
    after_full h = elim (next_index r.head r.capacity room) [
      | inl w ↦
          rw
            (
              push_some r x (omega arith),
              ltb_ge r.size r.capacity (omega arith),
              ltb_ge r.size r.capacity (omega arith),
              w.1,
              append-nil,
            )
            (sym (set_last r.head r.items x (omega arith))
              ∙ rw (over, drop_all (suc r.head) r.items (omega arith)))
      | inr n ↦
          rw
            (
              push_some r x (omega arith),
              ltb_ge r.size r.capacity (omega arith),
              ltb_ge r.size r.capacity (omega arith),
              n.1,
            )
            (rw (over, drop-set_add, take-set_add r.head r.items x (omega arith)))
    ]
      where
        over :
            last r.capacity ((drop r.head r.items ++ take r.head r.items) ++ x ∷ [])
            ≡ drop (suc r.head) r.items ++ (take r.head r.items ++ x ∷ [])
        over =
            last_over r.capacity ((drop r.head r.items ++ take r.head r.items) ++ x ∷ []) (
              omega (
                arith,
                length-append (drop r.head r.items ++ take r.head r.items) (x ∷ []),
                length-append (drop r.head r.items) (take r.head r.items),
                length-take r.head r.items,
                length-drop r.head r.items,
              ))
            ∙ rw append_assoc
                (drop-tail r.head r.items (take r.head r.items ++ x ∷ []) (omega arith))

  no_room :
      (r : Ring T) (x : T)
      → IsValid r
      → r.capacity ≡ 0
      → contents r ≡ last r.capacity (contents r ++ x ∷ [])
  no_room r x v e = rw (ltb_ge r.size r.capacity (omega arith)) (
      nil_at (drop r.head r.items ++ take r.head r.items) (
        omega (
          arith,
          length-append (drop r.head r.items) (take r.head r.items),
          length-take r.head r.items,
          length-drop r.head r.items,
        )))
    where
      nil_at : (l : List T) → length l ≡ 0 → l ≡ last r.capacity (l ++ x ∷ [])
      nil_at [] h = sym (drop_all (1 - r.capacity) (x ∷ []) (omega arith))
      nil_at (y ∷ l) h = absurd (omega arith)

  -- A push appends, and drops the oldest item of a full ring.
  contents-push :
      (r : Ring T) (x : T)
      → IsValid r
      → contents (push r x) ≡ last r.capacity (contents r ++ x ∷ [])
  contents-push r x v = elim (ℕ_discrete r.capacity 0) [
    | yes e ↦ rw (push_none r x e) (no_room r x v e)
    | no e ↦ elim (Bool-cases (ltb r.size r.capacity)) [
      | inl h ↦ after_partial r x v (omega arith) (ltb→lt r.size r.capacity h)
      | inr h ↦ after_full r x v (omega arith) (omega (arith, ltb-false r.size r.capacity h))
    ]
  ]

-- Pushing `xs` onto a new ring and reading it gives the last `capacity` of `xs`, oldest first.
module _ {ℓ} {T : Type ℓ} where
  length-contents : (r : Ring T) → IsValid r → length (contents r) ≡ r.size
  length-contents r v = elim (Bool-cases (ltb r.size r.capacity)) [
    | inl e ↦ rw e (omega (arith, length-take r.head r.items, ltb→lt r.size r.capacity e))
    | inr e ↦ rw e (
        omega (
          arith,
          length-append (drop r.head r.items) (take r.head r.items),
          length-take r.head r.items,
          length-drop r.head r.items,
          ltb-false r.size r.capacity e,
        ))
  ]

  -- Reading after pushing `xs` gives the last `capacity` of the old contents and `xs`, in order.
  slice-push_all :
      (blank : T) (r : Ring T) (xs : List T)
      → IsValid r
      → slice blank (push_all r xs) ≡ last r.capacity (slice blank r ++ xs)
  unfolding push_all
  slice-push_all blank r [] v = sym (
      rw append-nil (
        last_fits r.capacity (slice blank r)
          (rw (slice-eq-contents blank r v) (omega (arith, length-contents r v)))))
  slice-push_all blank r (x ∷ xs) v =
      slice-push_all blank (push r x) xs (push-IsValid r x v)
      ∙ rw (
        capacity-push,
        slice-eq-contents blank (push r x) (push-IsValid r x v),
        contents-push r x v,
        last-last r.capacity (contents r ++ x ∷ []) xs,
        append_assoc,
        slice-eq-contents blank r v,
      )

  -- Pushing `xs` onto a new ring and reading it gives the last `n` of `xs`, oldest first.
  pub slice-push_all-new :
      (blank : T) (n : ℕ) (xs : List T) → slice blank (push_all (new blank n) xs) ≡ last n xs
  slice-push_all-new blank n xs =
      slice-push_all blank (new blank n) xs (new-IsValid blank n) ∙ unfold new slice in refl

  -- One push.
  pub slice-push :
      (blank : T) (r : Ring T) (x : T)
      → IsValid r
      → slice blank (push r x) ≡ last r.capacity (slice blank r ++ x ∷ [])
  slice-push blank r x v =
      rw (slice-eq-contents blank (push r x) (push-IsValid r x v), slice-eq-contents blank r v)
        (contents-push r x v)

-- ===== src/Ring/Inv.antt =====
-- The representation invariant of `RingBuffer`: no index leaves the slice.
use undertow.Base.{
  ℕ, ◌+◌, ◌≤◌, ◌<◌, ◌≡◌, ◌⊎◌, inl, inr, List, [], ◌∷◌, arith, length, set, length-set, ltb,
  next_index, ltb→lt, ltb-false, nat_eq-false, nat_eq_iff, if◌then◌else◌, ◌%◌, ◌≢◌, Bool-cases,
  ℕ_discrete, length-replicate,
}
use undertow.Ring.{Ring, new, push, push_all}

pub record IsValid {ℓ} {T : Type ℓ} (r : Ring T) : Type 0 where
  pub storage : length r.items ≡ r.capacity
  pub small : r.size ≤ r.capacity
  -- the next write is in range, unless there is no room at all
  pub head_in : (r.head ≡ 0) ⊎ (r.head < r.capacity)
  -- until the ring is full, it fills from index 0
  pub filling : (r.size ≡ r.capacity) ⊎ (r.head ≡ r.size)

module _ {ℓ} {T : Type ℓ} where
  pub new-IsValid : (blank : T) (n : ℕ) → IsValid (new blank n)
  unfolding new
  new-IsValid blank n = record {
    storage = length-replicate n blank;
    small = omega arith;
    head_in = omega arith;
    filling = inr (omega arith);
  }

  -- The write of a ring with room, by its old size.
  pub push_some :
      (r : Ring T) (x : T)
      → r.capacity ≢ 0
      → push r x ≡ record r {
        items = set r.items r.head x;
        head = (r.head + 1) % r.capacity;
        size = if ltb r.size r.capacity then r.size + 1 else r.size;
      }
  unfolding push
  push_some r x h = rw (nat_eq-false r.capacity 0 h)

  pub push_none : (r : Ring T) (x : T) → r.capacity ≡ 0 → push r x ≡ r
  unfolding push
  push_none r x h = rw ((nat_eq_iff r.capacity 0).1 h)

  push_some-IsValid : (r : Ring T) (x : T) → r.head < r.capacity → IsValid r → IsValid (push r x)
  push_some-IsValid r x h v = elim (Bool-cases (ltb r.size r.capacity)) [
    | inl e ↦
        rw (push_some r x (omega arith), e)
          (omega (
            arith,
            length-set r.items r.head x,
            ltb→lt r.size r.capacity e,
            next_index r.head r.capacity h,
          ))
    | inr e ↦
        rw (push_some r x (omega arith), e)
          (omega (
            arith,
            length-set r.items r.head x,
            ltb-false r.size r.capacity e,
            next_index r.head r.capacity h,
          ))
  ]

  pub push-IsValid : (r : Ring T) (x : T) → IsValid r → IsValid (push r x)
  push-IsValid r x v = elim (ℕ_discrete r.capacity 0) [
    | yes e ↦ rw (push_none r x e) v
    | no e ↦ push_some-IsValid r x (omega arith) v
  ]

  push_all-IsValid : (r : Ring T) (xs : List T) → IsValid r → IsValid (push_all r xs)
  unfolding push_all
  push_all-IsValid r [] v = v
  push_all-IsValid r (x ∷ xs) v = push_all-IsValid (push r x) xs (push-IsValid r x v)

  pub capacity-push : (r : Ring T) (x : T) → (push r x).capacity ≡ r.capacity
  unfolding push
  capacity-push r x = ground arith

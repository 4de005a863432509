-- ===== src/Ring.antt =====
-- `RingBuffer` of internal/aggregator/stats.go. An index out of range would panic; a `set` out of
-- range changes nothing here, and `Inv.push-IsValid` keeps the index in range.
pub mod Inv
pub mod Contents
pub mod Refine
use undertow.Base.{
  ℕ, ◌+◌, ◌%◌, min, List, [], ◌∷◌, ◌++◌, if◌then◌else◌, ltb, nat_eq, set, take, drop, replicate,
  length, copy,
}

pub record Ring {ℓ} (T : Type ℓ) : Type ℓ where
  pub items : List T
  pub capacity : ℕ
  pub head : ℕ
  pub size : ℕ

-- `blank` is the zero value of `T`, which `make` fills a slice with.
module _ {ℓ} {T : Type ℓ} (blank : T) where
  -- `NewRingBuffer`
  unfoldable pub new : ℕ → Ring T
  new capacity = record {
    items = replicate capacity blank;
    capacity = capacity;
    head = 0;
    size = 0;
  }

  -- `Slice`: the second `copy` writes behind what the first one copied.
  unfoldable pub slice : Ring T → List T
  slice r =
      let res = replicate r.size blank in
      let n = min r.size (length (drop r.head r.items)) in
      let first = copy res (drop r.head r.items) in
      if nat_eq r.size 0
      then []
      else if ltb r.size r.capacity
      then copy res (take r.size r.items)
      else take n first ++ copy (drop n first) (take r.head r.items)

-- `Push`
unfoldable pub push {ℓ} : {T : Type ℓ} → Ring T → T → Ring T
push r item = if nat_eq r.capacity 0 then r else record r {
  items = set r.items r.head item;
  head = (r.head + 1) % r.capacity;
  size = if ltb r.size r.capacity then r.size + 1 else r.size;
}

-- Several pushes, the first one first.
unfoldable pub push_all {ℓ} : {T : Type ℓ} → Ring T → List T → Ring T
unfolding push
push_all r [] = r
push_all r (x ∷ xs) = push_all (push r x) xs

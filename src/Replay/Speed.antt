-- ===== src/Replay/Speed.antt =====
-- The five speeds of the playback.
use undertow.Base.{ℕ, zero, suc, ◌≡◌, false, nat_eq, if_both}
use undertow.Base.Float.{FloatOps}
use undertow.Replay.{ReplayEngine, half, next_speed, cycle_speed}

module _ (F : FloatOps) where
  abbrev times : ℕ → (F.Float → F.Float) → F.Float → F.Float
  times zero f x = x
  times (suc n) f x = times n f (f x)

  -- What holds of the five speeds holds of every speed that `CycleSpeed` sets.
  next_speed-cases :
      (P : F.Float → Type 0) (s : F.Float)
      → P (F.of_nat 1)
      → P (F.of_nat 2)
      → P (F.of_nat 4)
      → P (F.of_nat 8)
      → P (half F)
      → P (next_speed F s)
  unfolding next_speed
  next_speed-cases P s one two four eight h = if_both P (F.eq s (F.of_nat 1)) two (
      if_both P (F.eq s (F.of_nat 2)) four
        (if_both P (F.eq s (F.of_nat 4)) eight (if_both P (F.eq s (F.of_nat 8)) h one)))

  -- Where the comparison of floats tells the five speeds apart, `CycleSpeed` comes back to a speed
  -- it has set after five presses, from whatever speed it started.
  cycle_speed_period :
      ((a b : ℕ) → F.eq (F.of_nat a) (F.of_nat b) ≡ nat_eq a b)
      → ((a : ℕ) → F.eq (half F) (F.of_nat a) ≡ false)
      → (re : ReplayEngine F) → times 5 (next_speed F) (cycle_speed F re).0 ≡ (cycle_speed F re).0
  unfolding cycle_speed
  cycle_speed_period ints halves re =
      next_speed-cases (λ x. times 5 (next_speed F) x ≡ x) re.speed
        (rw (from_one, from_two, from_four, from_eight, from_half))
        (rw (from_two, from_four, from_eight, from_half, from_one))
        (rw (from_four, from_eight, from_half, from_one, from_two))
        (rw (from_eight, from_half, from_one, from_two, from_four))
        (rw (from_half, from_one, from_two, from_four, from_eight))
    where
      from_one : next_speed F (F.of_nat 1) ≡ F.of_nat 2
      from_one = unfold next_speed in rw (ints 1 1)

      from_two : next_speed F (F.of_nat 2) ≡ F.of_nat 4
      from_two = unfold next_speed in rw (ints 2 1, ints 2 2)

      from_four : next_speed F (F.of_nat 4) ≡ F.of_nat 8
      from_four = unfold next_speed in rw (ints 4 1, ints 4 2, ints 4 4)

      from_eight : next_speed F (F.of_nat 8) ≡ half F
      from_eight = unfold next_speed in rw (ints 8 1, ints 8 2, ints 8 4, ints 8 8)

      from_half : next_speed F (half F) ≡ F.of_nat 1
      from_half = unfold next_speed in rw (halves 1, halves 2, halves 4, halves 8)

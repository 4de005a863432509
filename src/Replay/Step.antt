-- ===== src/Replay/Step.antt =====
-- `StepSec`: where it stops, and when it panics.
use undertow.Base.{
  ℕ, zero, suc, ◌+◌, ◌-◌, ◌≤◌, ◌<◌, ◌≡◌, ◌↔◌, ◌⊎◌, inl, inr, refl, true, false, ◌&&◌, none, some,
  List, [], ◌∷◌, ltb, arith, length, get_elem?, get_or, Bool-cases, nat_eq-false, ℕ_discrete,
  dec_lt, subst, sym, ◌∙◌, ◌≢◌, ltb_ge,
}
use undertow.Base.Int.{ℤ, pos, negsuc, int64, times64, is_before, is_after}
use undertow.Base.Float.{FloatOps}
use undertow.Packet.{Time, second, PacketInfo}
use undertow.Stats.{blank_packet}
use undertow.Replay.{ReplayEngine, time_at, forward_loop, back_loop, stepped, step_sec}

-- The first index from `i` on whose packet is not before `now.Add(d)`, or the last index.
pub record IsForward (packets : List PacketInfo) (now : Time) (d : ℤ) (i r : ℕ) : Type 0 where
  pub from : i ≤ r
  pub in_range : r < length packets
  pub skipped : (k : ℕ) → i ≤ k → k < r → is_before (time_at packets k) now d ≡ true
  pub stops : (is_before (time_at packets r) now d ≡ false) ⊎ (r + 1 ≡ length packets)

forward_loop-IsForward :
    (packets : List PacketInfo) (now : Time) (d : ℤ) (fuel i : ℕ)
    → i < length packets
    → length packets ≤ fuel + i + 1
    → IsForward packets now d i (forward_loop packets now d fuel i)
unfolding forward_loop
forward_loop-IsForward packets now d zero i h f = record {
  from = omega arith;
  in_range = h;
  skipped = λ k a b. absurd (omega arith);
  stops = inr (omega arith);
}
forward_loop-IsForward packets now d (suc fuel) i h f =
    elim (Bool-cases (ltb i (length packets - 1) && is_before (time_at packets i) now d)) [
      | inl e ↦ rw e (
          let rest =
            forward_loop-IsForward packets now d fuel (i + 1) (ground (arith, e)) (omega arith) in
          record {
            from = omega (arith, rest.from);
            in_range = rest.in_range;
            skipped = λ k a b. elim (ℕ_discrete i k) [
              | yes c ↦
                  subst (λ j. is_before (time_at packets j) now d ≡ true) c (ground (arith, e))
              | no c ↦ rest.skipped k (omega arith) b
            ];
            stops = rest.stops;
          })
      | inr e ↦ rw e (record {
        from = omega arith;
        in_range = h;
        skipped = λ k a b. absurd (omega arith);
        stops = ground (arith, e);
      })
    ]

-- The first index from `i` downward whose packet is not after `now.Add(d)`, or index 0.
pub record IsBack (packets : List PacketInfo) (now : Time) (d : ℤ) (i r : ℕ) : Type 0 where
  pub from : r ≤ i
  pub skipped : (k : ℕ) → r < k → k ≤ i → is_after (time_at packets k) now d ≡ true
  pub stops : (is_after (time_at packets r) now d ≡ false) ⊎ (r ≡ 0)

back_loop-IsBack :
    (packets : List PacketInfo) (now : Time) (d : ℤ) (i : ℕ)
    → IsBack packets now d i (back_loop packets now d i)
unfolding back_loop
back_loop-IsBack packets now d zero = record {
  from = omega arith;
  skipped = λ k a b. absurd (omega arith);
  stops = inr refl;
}
back_loop-IsBack packets now d (suc i) =
    elim (Bool-cases (is_after (time_at packets (suc i)) now d)) [
      | inl e ↦ rw e (
          let rest = back_loop-IsBack packets now d i in
          record {
            from = omega (arith, rest.from);
            skipped = λ k a b. elim (ℕ_discrete (suc i) k) [
              | yes c ↦ subst (λ j. is_after (time_at packets j) now d ≡ true) c e
              | no c ↦ rest.skipped k a (omega arith)
            ];
            stops = rest.stops;
          })
      | inr e ↦
          rw e
            (record { from = omega arith; skipped = λ k a b. absurd (omega arith); stops = inl e })
    ]

-- Where a step of `seconds` from index `i` has to end: the target is the time of the packet there
-- and the nanoseconds of `seconds` as an `int64`, which wraps.
abbrev pub IsStepped : List PacketInfo → ℕ → ℤ → ℕ → Type 0
IsStepped packets i (pos zero) r = r ≡ i
IsStepped packets i (pos (suc n)) r =
    IsForward packets (time_at packets i) (times64 (pos (suc n)) second) i r
IsStepped packets i (negsuc n) r =
    IsBack packets (time_at packets i) (times64 (negsuc n) second) i r

pub get_elem?-in :
    (l : List PacketInfo) (i : ℕ) → i < length l → get_elem? l i ≡ some (get_or l i blank_packet)
get_elem?-in [] i h = elim h [ ]
get_elem?-in (x ∷ l) zero h = refl
get_elem?-in (x ∷ l) (suc i) h = get_elem?-in l i (omega arith)

pub get_elem?-out : (l : List PacketInfo) (i : ℕ) → length l ≤ i → get_elem? l i ≡ none
get_elem?-out [] i h = refl
get_elem?-out (x ∷ l) zero h = elim h [ ]
get_elem?-out (x ∷ l) (suc i) h = get_elem?-out l i (omega arith)

back_loop_here :
    (packets : List PacketInfo) (i : ℕ)
    → back_loop packets (time_at packets i) (times64 (pos zero) second) i ≡ i
unfolding back_loop times64 int64 is_after
back_loop_here packets zero = refl
back_loop_here packets (suc i) =
    rw (ltb_ge (time_at packets (suc i) + 0) (time_at packets (suc i)) (omega arith))

module _ (F : FloatOps) where
  stepped-IsStepped :
      (re : ReplayEngine F) (seconds : ℤ)
      → re.current_index < length re.packets
      → IsStepped re.packets re.current_index seconds
          (stepped F re (get_or re.packets re.current_index blank_packet) seconds).current_index
  unfolding stepped
  stepped-IsStepped re (pos zero) h = back_loop_here re.packets re.current_index
  stepped-IsStepped re (pos (suc n)) h =
      forward_loop-IsForward re.packets _ (times64 (pos (suc n)) second) (length re.packets)
        re.current_index h (omega arith)
  stepped-IsStepped re (negsuc n) h =
      back_loop-IsBack re.packets _ (times64 (negsuc n) second) re.current_index

  step_sec-in :
      (re : ReplayEngine F) (seconds : ℤ)
      → re.current_index < length re.packets
      → step_sec F re seconds
        ≡ some (stepped F re (get_or re.packets re.current_index blank_packet) seconds)
  unfolding step_sec
  step_sec-in re seconds h = rw (
    nat_eq-false (length re.packets) 0 (λ e. omega arith),
    get_elem?-in re.packets re.current_index h,
  )

  -- `StepSec` with the index in range does not panic and keeps the packets. Stepping forward it stops
  -- at the first packet that is not before the target time, or at the last packet; stepping back, at
  -- the nearest earlier packet that is not after the target, or at the first; a step of 0 seconds
  -- stays. The target is the time of the packet and the nanoseconds of the step as an int64, which
  -- wraps.
  pub step_sec_exact :
      (re : ReplayEngine F) (seconds : ℤ)
      → re.current_index < length re.packets
      → (re' : ReplayEngine F) × (step_sec F re seconds ≡ some re')
        × (re'.packets ≡ re.packets)
        × IsStepped re.packets re.current_index seconds re'.current_index
  step_sec_exact re seconds h = (
    stepped F re (get_or re.packets re.current_index blank_packet) seconds,
    step_sec-in re seconds h,
    packets-stepped (get_or re.packets re.current_index blank_packet) seconds,
    stepped-IsStepped re seconds h,
  )
    where
      packets-stepped : (p : PacketInfo) (n : ℤ) → (stepped F re p n).packets ≡ re.packets
      packets-stepped p (pos zero) = unfold stepped in refl
      packets-stepped p (pos (suc n)) = unfold stepped in refl
      packets-stepped p (negsuc n) = unfold stepped in refl

  -- Once the playback has sent the last packet, `StepSec` panics, in either direction.
  pub step_sec_panics :
      (re : ReplayEngine F) (seconds : ℤ)
      → 0 < length re.packets
      → (step_sec F re seconds ≡ none) ↔ (length re.packets ≤ re.current_index)
  step_sec_panics re seconds h = elim (dec_lt re.current_index (length re.packets)) [
    | yes p ↦
        (λ e. absurd (none_ne (sym (step_sec-in re seconds p) ∙ e)), λ le. absurd (omega arith))
    | no p ↦ (λ e. omega arith, λ le. out (get_elem?-out re.packets re.current_index le))
  ]
    where
      none_ne : {a : ReplayEngine F} → some a ≢ none
      none_ne e = ground (arith, e)

      out : get_elem? re.packets re.current_index ≡ none → step_sec F re seconds ≡ none
      out e = unfold step_sec in rw (nat_eq-false (length re.packets) 0 (λ z. omega arith), e)

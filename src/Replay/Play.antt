-- ===== src/Replay/Play.antt =====
-- The playback under any sequence of the controls.
use undertow.Base.{
  ℕ, zero, suc, ◌+◌, ◌≤◌, ◌<◌, ◌≡◌, ◌⊎◌, inl, inr, refl, ap, true, false, Option, none, some, List,
  [], ◌∷◌, ◌++◌, ltb, if_both, arith, length, take, drop, drop-suc, drop_all, get_elem?, get_or,
  Bool-cases, dec_lt,
}
use native.Mathlib.Numerals.{add-one}
use undertow.Base.Int.{ℤ, pos, negsuc}
use undertow.Base.Float.{FloatOps}
use undertow.Packet.{PacketInfo}
use undertow.Stats.{blank_packet}
use undertow.Replay.{
  ReplayEngine, Round, max_delay, toggle_pause, set_speed, cycle_speed, step_sec, jump_start,
  jump_end, pace, play, round,
}
use undertow.Replay.Step.{step_sec_exact, step_sec_panics, IsStepped, get_elem?-in, get_elem?-out}

module _ (F : FloatOps) where
  -- The controls, and a round of the playback between them.
  pub data Control : Type 0 where
    toggle cycle start end_ plays : Control
    speed : F.Float → Control
    step : ℤ → Control

  abbrev sent_by : Round F → List PacketInfo × ReplayEngine F
  sent_by r = (r.sends, r.engine)

  abbrev quietly : Option (ReplayEngine F) → Option (List PacketInfo × ReplayEngine F)
  quietly none = none
  quietly (some re) = some ([], re)

  abbrev pub control : ReplayEngine F → Control → Option (List PacketInfo × ReplayEngine F)
  control re toggle = some ([], (toggle_pause F re).1)
  control re cycle = some ([], (cycle_speed F re).1)
  control re start = some ([], jump_start F re)
  control re end_ = some ([], jump_end F re)
  control re plays = some (sent_by (round F re))
  control re (speed f) = some ([], set_speed F re f)
  control re (step n) = quietly (step_sec F re n)

  -- The index is one of a packet, or the end.
  pub record IsInRange (re : ReplayEngine F) : Type 0 where
    pub some_packet : 0 < length re.packets
    pub in_range : re.current_index ≤ length re.packets

  -- What a round does: at the end or paused nothing, else the packet at the index.
  round_end :
      (re : ReplayEngine F) → length re.packets ≤ re.current_index → (round F re).engine ≡ re
  unfolding round play
  round_end re h = rw (get_elem?-out re.packets re.current_index h)

  sends_end : (re : ReplayEngine F) → length re.packets ≤ re.current_index → (round F re).sends ≡ []
  unfolding round play
  sends_end re h = rw (get_elem?-out re.packets re.current_index h)

  round_paused : (re : ReplayEngine F) → re.is_paused ≡ true → (round F re).engine ≡ re
  unfolding round
  round_paused re h = at (get_elem? re.packets re.current_index)
    where
      at : (o : Option PacketInfo) → (play F re o).engine ≡ re
      at none = unfold play in refl
      at (some p) = unfold play in rw h

  round_plays :
      (re : ReplayEngine F)
      → re.is_paused ≡ false
      → re.current_index < length re.packets
      → ((round F re).sends ≡ get_or re.packets re.current_index blank_packet ∷ [])
        × ((round F re).engine ≡ record re { current_index = re.current_index + 1 })
  unfolding round play
  round_plays re p h = rw (get_elem?-in re.packets re.current_index h, p) (refl, refl)

  -- Still in range, over the same packets.
  abbrev Stays : ReplayEngine F → ReplayEngine F → Type 0
  Stays re re' = IsInRange re' × (re'.packets ≡ re.packets)

  set_speed-IsInRange :
      (re : ReplayEngine F) (f : F.Float) → IsInRange re → Stays re (set_speed F re f)
  unfolding set_speed
  set_speed-IsInRange re f v =
      if_both (Stays re) (F.gt f (F.of_nat 0))
        (record { some_packet = v.some_packet; in_range = v.in_range }, refl) (v, refl)

  jump_end-IsInRange : (re : ReplayEngine F) → IsInRange re → Stays re (jump_end F re)
  unfolding jump_end
  jump_end-IsInRange re v =
      if_both (Stays re) (ltb 0 (length re.packets))
        (record { some_packet = v.some_packet; in_range = omega arith }, refl) (v, refl)

  round-IsInRange : (re : ReplayEngine F) → IsInRange re → Stays re (round F re).engine
  round-IsInRange re v = elim (Bool-cases re.is_paused) [
    | inl p ↦ rw (round_paused re p) (v, refl)
    | inr p ↦ elim (dec_lt re.current_index (length re.packets)) [
      | yes h ↦
          rw (round_plays re p h).1
            (record { some_packet = v.some_packet; in_range = omega arith }, refl)
      | no h ↦ rw (round_end re (omega arith)) (v, refl)
    ]
  ]

  -- A step ends in range.
  step-in_range :
      (packets : List PacketInfo) (i r : ℕ) (n : ℤ)
      → i < length packets
      → IsStepped packets i n r
      → r < length packets
  step-in_range packets i r (pos zero) h s = omega arith
  step-in_range packets i r (pos (suc n)) h s = s.in_range
  step-in_range packets i r (negsuc n) h s = omega (arith, s.from)

  -- From an index in range, or the end, every control leaves the index in range or at the end,
  -- keeps the packets, and panics only for a step at the end.
  pub control-IsInRange :
      (re : ReplayEngine F) (c : Control)
      → IsInRange re
      → ((r : List PacketInfo × ReplayEngine F) × (control re c ≡ some r)
          × IsInRange r.1
          × (r.1.packets ≡ re.packets))
        ⊎ ((n : ℤ) × (c ≡ step n) × (re.current_index ≡ length re.packets) × (control re c ≡ none))
  control-IsInRange re toggle v = inl (
    ([], (toggle_pause F re).1),
    refl,
    unfold toggle_pause in record { some_packet = v.some_packet; in_range = v.in_range },
    unfold toggle_pause in refl,
  )
  control-IsInRange re cycle v = inl (
    ([], (cycle_speed F re).1),
    refl,
    unfold cycle_speed in record { some_packet = v.some_packet; in_range = v.in_range },
    unfold cycle_speed in refl,
  )
  control-IsInRange re start v = inl (
    ([], jump_start F re),
    refl,
    unfold jump_start in record { some_packet = v.some_packet; in_range = omega arith },
    unfold jump_start in refl,
  )
  control-IsInRange re end_ v =
      let q = jump_end-IsInRange re v in inl (([], jump_end F re), refl, q.0, q.1)
  control-IsInRange re plays v =
      let q = round-IsInRange re v in inl (sent_by (round F re), refl, q.0, q.1)
  control-IsInRange re (speed f) v =
      let q = set_speed-IsInRange re f v in inl (([], set_speed F re f), refl, q.0, q.1)
  control-IsInRange re (step n) v = elim (dec_lt re.current_index (length re.packets)) [
    | yes h ↦
        let s = step_sec_exact F re n h in
        inl (
          ([], s.0),
          ap quietly s.1,
          record {
            some_packet = rw s.2 v.some_packet;
            in_range = rw s.2 (
                omega (arith, step-in_range re.packets re.current_index s.0.current_index n h s.3));
          },
          s.2,
        )
    | no h ↦ inr (
      n,
      refl,
      omega (arith, v.in_range),
      ap quietly ((step_sec_panics F re n v.some_packet).1 (omega arith)),
    )
  ]

  -- Rounds in a row.
  abbrev pub play_rounds : ℕ → ReplayEngine F → List PacketInfo
  play_rounds zero re = []
  play_rounds (suc n) re = (round F re).sends ++ play_rounds n (round F re).engine

  play_rounds_end :
      (n : ℕ) (re : ReplayEngine F) → length re.packets ≤ re.current_index → play_rounds n re ≡ []
  play_rounds_end zero re h = refl
  play_rounds_end (suc n) re h = rw (sends_end re h, round_end re h) (play_rounds_end n re h)

  -- Playing `n` rounds without a pause sends the next `n` packets of the recording, each once and in
  -- order, and nothing after the last one.
  pub play_rounds-take :
      (n : ℕ) (re : ReplayEngine F)
      → re.is_paused ≡ false
      → play_rounds n re ≡ take n (drop re.current_index re.packets)
  play_rounds-take zero re p = refl
  play_rounds-take (suc n) re p = elim (dec_lt re.current_index (length re.packets)) [
    | yes h ↦ rw (
      (round_plays re p h).0,
      (round_plays re p h).1,
      play_rounds-take n (record re { current_index = re.current_index + 1 }) p,
      add-one,
      drop-suc re.current_index re.packets (get_or re.packets re.current_index blank_packet)
          (get_elem?-in re.packets re.current_index h),
    )
    | no h ↦ rw (
      play_rounds_end (suc n) re (omega arith),
      drop_all re.current_index re.packets (omega arith),
    )
  ]

  round-sleeps : (re : ReplayEngine F) → (round F re).sleeps ≤ max_delay
  unfolding round
  round-sleeps re = at (get_elem? re.packets re.current_index)
    where
      at : (o : Option PacketInfo) → (play F re o).sleeps ≤ max_delay
      at none = unfold play in omega arith
      at (some p) = unfold play pace in ground arith

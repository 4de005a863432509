-- ===== src/Examples/Playback.antt =====
-- The replay engine at concrete inputs.
use undertow.Base.{ℕ, ◌≡◌, ◌≤◌, ◌⊎◌, ◌↔◌, refl, false, none, some, List, arith, take, drop}
use undertow.Base.Int.{ℤ, pos, negsuc}
use undertow.Packet.{PacketInfo}
use undertow.Replay.{ReplayEngine, step_sec}
use undertow.Replay.Step.{IsStepped, step_sec_exact, step_sec_panics}
use undertow.Replay.Play.{
  Control, step, control, IsInRange, control-IsInRange, play_rounds, play_rounds-take,
}
use undertow.Examples.Data.{halves, three}

abbrev at_index : ℕ → ReplayEngine halves
at_index i = record {
  filename = "capture.pcap";
  packets = three;
  speed = 2;
  is_paused = false;
  current_index = i;
  start_time = 1_000_000_000;
  end_time = 9_000_000_000;
}

step_sec_exact_example :
    (re' : ReplayEngine halves) × (step_sec halves (at_index 0) (pos 10) ≡ some re')
    × (re'.packets ≡ three)
    × IsStepped three 0 (pos 10) re'.current_index
step_sec_exact_example = step_sec_exact halves (at_index 0) (pos 10) (omega arith)

step_sec_panics_example : (step_sec halves (at_index 3) (negsuc 9) ≡ none) ↔ (3 ≤ 3)
step_sec_panics_example = step_sec_panics halves (at_index 3) (negsuc 9) (omega arith)

control-IsInRange_example :
    ((r : List PacketInfo × ReplayEngine halves) × (control halves (at_index 1) (step (negsuc 9))
        ≡ some r)
      × IsInRange halves r.1
      × (r.1.packets ≡ three))
    ⊎ ((n : ℤ) × ◌≡◌ {A = Control halves} (step (negsuc 9)) (step n)
        × ◌≡◌ {A = ℕ} 1 3
        × (control halves (at_index 1) (step (negsuc 9)) ≡ none))
control-IsInRange_example =
    control-IsInRange halves (at_index 1) (step (negsuc 9))
      (record { some_packet = omega arith; in_range = omega arith })

play_rounds-take_example : play_rounds halves 2 (at_index 1) ≡ take 2 (drop 1 three)
play_rounds-take_example = play_rounds-take halves 2 (at_index 1) refl

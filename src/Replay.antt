-- ===== src/Replay.antt =====
-- internal/replay/replay.go: offline playback. Each method holds the mutex, so it is one step; `Run`
-- holds it once a round, and what it sends and how long it sleeps afterwards is the round's result.
pub mod Step
pub mod Play
pub mod Speed
use undertow.Base.{
  ℕ, zero, suc, ◌+◌, ◌-◌, ◌*◌, String, Bool, true, false, not, ◌&&◌, Option, none, some, List, [],
  ◌∷◌, ◌++◌, ltb, leb, nat_eq, if◌then◌else◌, length, get_elem?, get_or,
}
use undertow.Base.Int.{ℤ, pos, negsuc, times64, is_before, is_after}
use undertow.Base.Float.{FloatOps}
use undertow.Packet.{Time, second, PacketInfo}
use undertow.Stats.{blank_packet}

-- `packets[i].Timestamp` for an index in range
abbrev pub time_at : List PacketInfo → ℕ → Time
time_at packets i = (get_or packets i blank_packet).timestamp

-- The loop of `StepSec` forward to `now.Add(d)`: one round for each step, at most as many as there
-- are packets.
unfoldable pub forward_loop : List PacketInfo → Time → ℤ → ℕ → ℕ → ℕ
forward_loop packets now d zero i = i
forward_loop packets now d (suc fuel) i =
    let rest = forward_loop packets now d fuel (i + 1) in
    if ltb i (length packets - 1) && is_before (time_at packets i) now d then rest else i

-- The loop backward to `now.Add(d)`.
unfoldable pub back_loop : List PacketInfo → Time → ℤ → ℕ → ℕ
back_loop packets now d zero = zero
back_loop packets now d (suc i) =
    let rest = back_loop packets now d i in
    if is_after (time_at packets (suc i)) now d then rest else suc i

-- Nanoseconds: 100 milliseconds, and the cap of two seconds.
abbrev idle_sleep : ℕ
idle_sleep = 100_000_000

abbrev pub max_delay : ℕ
max_delay = 2 * second

module _ (F : FloatOps) where
  pub record ReplayStatus : Type 0 where
    pub is_replay : Bool
    pub is_paused : Bool
    pub speed : F.Float
    pub current_time : Time
    pub start_time : Time
    pub end_time : Time
    pub total_packets : ℕ
    pub current_index : ℕ

  pub record ReplayEngine : Type 0 where
    pub filename : String
    pub packets : List PacketInfo
    pub speed : F.Float
    pub is_paused : Bool
    pub current_index : ℕ
    pub start_time : Time
    pub end_time : Time

  unfoldable pub engine_of : String → List PacketInfo → Option ReplayEngine
  engine_of filename [] = none
  engine_of filename (p ∷ ps) = some (record {
    filename = filename;
    packets = p ∷ ps;
    speed = F.of_nat 1;
    is_paused = false;
    current_index = 0;
    start_time = p.timestamp;
    end_time = time_at (p ∷ ps) (length (p ∷ ps) - 1);
  })

  unfoldable pub engine_from : String → Option (List PacketInfo) → Option ReplayEngine
  engine_from filename none = none
  engine_from filename (some decoded) = engine_of filename decoded

  -- `NewReplayEngine`; `read` is the pcap file opened and decoded, `none` where that fails.
  unfoldable pub new_replay_engine :
      (String → Option (List PacketInfo)) → String → Option ReplayEngine
  unfolding engine_from engine_of
  new_replay_engine read filename = engine_from filename (read filename)

  -- `Status`
  unfoldable pub status : ReplayEngine → ReplayStatus
  status re = record {
    is_replay = true;
    is_paused = re.is_paused;
    speed = re.speed;
    current_time =
        if ltb re.current_index (length re.packets)
        then time_at re.packets re.current_index
        else if ltb 0 (length re.packets)
        then re.end_time
        else re.start_time;
    start_time = re.start_time;
    end_time = re.end_time;
    total_packets = length re.packets;
    current_index = re.current_index;
  }

  -- `TogglePause`
  unfoldable pub toggle_pause : ReplayEngine → Bool × ReplayEngine
  toggle_pause re = (not re.is_paused, record re { is_paused = not re.is_paused })

  -- `SetSpeed`
  unfoldable pub set_speed : ReplayEngine → F.Float → ReplayEngine
  set_speed re speed = if F.gt speed (F.of_nat 0) then record re { speed = speed } else re

  abbrev pub half : F.Float
  half = F.div (F.of_nat 1) (F.of_nat 2)

  -- The `switch` of `CycleSpeed`
  unfoldable pub next_speed : F.Float → F.Float
  next_speed speed =
      if F.eq speed (F.of_nat 1)
      then F.of_nat 2
      else if F.eq speed (F.of_nat 2)
      then F.of_nat 4
      else if F.eq speed (F.of_nat 4)
      then F.of_nat 8
      else if F.eq speed (F.of_nat 8)
      then half
      else F.of_nat 1

  unfoldable pub cycle_speed : ReplayEngine → F.Float × ReplayEngine
  cycle_speed re = (next_speed re.speed, record re { speed = next_speed re.speed })

  -- The two loops of `StepSec`, from the packet at the index, by the sign of the seconds. The target
  -- is the packet's time and the product of the seconds and `time.Second`, which wraps.
  unfoldable pub stepped : ReplayEngine → PacketInfo → ℤ → ReplayEngine
  stepped re current (pos zero) = record re {
    current_index =
        back_loop re.packets current.timestamp (times64 (pos zero) second) re.current_index;
  }
  stepped re current (pos (suc n)) = record re {
    current_index =
        forward_loop re.packets current.timestamp (times64 (pos (suc n)) second) (length re.packets)
          re.current_index;
  }
  stepped re current (negsuc n) = record re {
    current_index =
        back_loop re.packets current.timestamp (times64 (negsuc n) second) re.current_index;
  }

  abbrev step_at : ReplayEngine → ℤ → Option PacketInfo → Option ReplayEngine
  step_at re seconds none = none
  step_at re seconds (some current) = some (stepped re current seconds)

  -- `StepSec`; `none` is the panic of an index out of range.
  unfoldable pub step_sec : ReplayEngine → ℤ → Option ReplayEngine
  step_sec re seconds =
      if nat_eq (length re.packets) 0
      then some re
      else step_at re seconds (get_elem? re.packets re.current_index)

  -- `JumpStart`
  unfoldable pub jump_start : ReplayEngine → ReplayEngine
  jump_start re = record re { current_index = 0 }

  -- `JumpEnd`
  unfoldable pub jump_end : ReplayEngine → ReplayEngine
  jump_end re =
      if ltb 0 (length re.packets) then record re { current_index = length re.packets - 1 } else re

  -- At most the cap; a duration below 0 does not sleep.
  abbrev capped : ℤ → ℕ
  capped (pos n) = if ltb max_delay n then max_delay else n
  capped (negsuc n) = 0

  -- How long `Run` sleeps after sending the packet before `next`: `speed` is what it read under the
  -- mutex.
  unfoldable pub pace : List PacketInfo → PacketInfo → ℕ → F.Float → ℕ
  pace packets pkt next speed =
      let delay = time_at packets next - pkt.timestamp in
      let scaled = F.truncate (F.div (F.of_nat delay) speed) in
      if ltb next (length packets) && ltb 0 delay then capped scaled else 0

  -- One round of `Run` while the context lives: what it sends, how long it sleeps, and the engine.
  pub record Round : Type 0 where
    pub sends : List PacketInfo
    pub sleeps : ℕ
    pub engine : ReplayEngine

  abbrev idle : ReplayEngine → Round
  idle re = record { sends = []; sleeps = idle_sleep; engine = re }

  pub play : ReplayEngine → Option PacketInfo → Round
  unfolding pace
  play re none = idle re
  play re (some pkt) = if re.is_paused then idle re else record {
    sends = pkt ∷ [];
    sleeps = pace re.packets pkt (re.current_index + 1) re.speed;
    engine = record re { current_index = re.current_index + 1 };
  }

  -- An index behind the last packet is the end of the replay.
  unfoldable pub round : ReplayEngine → Round
  unfolding play
  round re = play re (get_elem? re.packets re.current_index)

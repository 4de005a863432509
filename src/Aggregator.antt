-- ===== src/Aggregator.antt =====
-- internal/aggregator/aggregator.go: the event loop. What the `select` takes, one event after another,
-- is a list of events, so every schedule of the channel, the two tickers and the context is a list.
pub mod Book
pub mod Good
pub mod Run
use undertow.Base.{String, Bool, Option, none, some, List, [], ◌∷◌}
use undertow.Base.Dict.{Dict}
use undertow.Base.Float.{FloatOps}
use undertow.Packet.{Time, PacketInfo}
use undertow.Baseline.{HostMetrics, Saved}
use undertow.Stats.Manager.{StatsManager, add_packet, tick_second, publish_snapshot, save_baseline}

-- What `select` can take. `done` carries what the drain reads until the channel is closed, and a
-- step that asks for the time carries it.
pub data Event : Type 0 where
  done : List PacketInfo → Time → Event
  packet : PacketInfo → Event
  closed : Time → Event
  second_tick : Time → Time → Event
  snap_tick : Time → Event

module _ (F : FloatOps) where
  unfoldable pub add_packets : StatsManager F → List PacketInfo → StatsManager F
  add_packets sm [] = sm
  add_packets sm (pkt ∷ pkts) = add_packets (add_packet F sm pkt) pkts

  -- The loop goes on, or it has returned and has or has not saved the baseline, or it has panicked.
  pub data Outcome : Type 0 where
    running : StatsManager F → Outcome
    returned : StatsManager F → Option (Saved F) → Outcome
    panicked : Outcome

  pub ticked : Option (StatsManager F) → Time → Outcome
  ticked none now = panicked
  ticked (some sm) now = running (publish_snapshot F sm now)

  module _ (dir : String → String) (mkdir : String → Bool)
      (marshal : Option (Dict String (Option (HostMetrics F))) → Option String)
      (write : String → String → Bool) where
    -- One round of the loop of `Run`
    unfoldable pub round : StatsManager F → Event → Outcome
    unfolding ticked
    round sm (done rest now) =
        let drained = add_packets sm rest in
        returned (publish_snapshot F drained now)
          (some (save_baseline F dir mkdir marshal write drained))
    round sm (packet pkt) = running (add_packet F sm pkt)
    round sm (closed now) = returned (publish_snapshot F sm now) none
    round sm (second_tick now then_) = ticked (tick_second F sm now) then_
    round sm (snap_tick now) = running (publish_snapshot F sm now)

    -- `Run`: a round after another while it is running.
    unfoldable pub rounds : Outcome → List Event → Outcome
    unfolding round
    rounds o [] = o
    rounds (running sm) (e ∷ es) = rounds (round sm e) es
    rounds (returned sm saved) (e ∷ es) = returned sm saved
    rounds panicked (e ∷ es) = panicked

    unfoldable pub run : StatsManager F → List Event → Outcome
    unfolding rounds
    run sm es = rounds (running sm) es

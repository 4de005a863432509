-- ===== src/Aggregator/Run.antt =====
-- The run of the aggregator keeps its books and does not panic.
use undertow.Base.{ℕ, ◌≡◌, refl, sym, subst, String, Bool, Option, none, List, [], ◌∷◌, arith}
use undertow.Base.Eq.{string_eq}
use undertow.Base.Dict.{Dict, get}
use undertow.Base.Float.{FloatOps}
use undertow.Packet.{Time}
use undertow.Anomaly
use undertow.Anomaly.{check_packet}
use undertow.Baseline
use undertow.Baseline.Learning.{IsLoaded}
use undertow.Baseline.{Manager, Load, new_manager, HostMetrics, Saved}
use undertow.Stats.{blank_packet}
use undertow.Stats.Manager.{
  StatsManager, add_packet, snapshot, new_stats_manager, get_snapshot, publish_snapshot,
}
use undertow.Aggregator.{
  Event, done, packet, closed, second_tick, snap_tick, add_packets, Outcome, running, returned,
  ticked, round, rounds, run,
}
use undertow.Aggregator.Book.{Log, empty, log_packet, log_packets, log_second, log_run, new-Holds}
use undertow.Aggregator.Good.{
  IsGood, add_packet-IsGood, add_packets-IsGood, publish_snapshot-IsGood, tick_second-IsGood,
}

module _ (F : FloatOps) where
  -- The outcome of a run against its log: it has not panicked, its books agree, and where it has
  -- returned the snapshot that is published is one of the final state.
  pub data IsGoodOutcome : Outcome F → Log → Type 0 where
    still : {sm : StatsManager F} {l : Log} → IsGood F sm l → IsGoodOutcome (running sm) l
    ended :
        {sm : StatsManager F} {saved : Option (Saved F)} {l : Log} (now : Time)
        → IsGood F sm l
        → get_snapshot F sm ≡ snapshot F sm now
        → IsGoodOutcome (returned sm saved) l

  get_snapshot-publish_snapshot :
      (sm : StatsManager F) (now : Time)
      → get_snapshot F (publish_snapshot F sm now) ≡ snapshot F (publish_snapshot F sm now) now
  unfolding get_snapshot publish_snapshot snapshot
  get_snapshot-publish_snapshot sm now = refl

  module _ (dir : String → String) (mkdir : String → Bool)
      (marshal : Option (Dict String (Option (HostMetrics F))) → Option String)
      (write : String → String → Bool) where
    returned_stays :
        (sm : StatsManager F) (saved : Option (Saved F)) (l : Log) (now : Time) (es : List Event)
        → IsGood F sm l
        → IsGoodOutcome
            (rounds F dir mkdir marshal write (returned (publish_snapshot F sm now) saved) es)
            l
    unfolding rounds
    returned_stays sm saved l now [] g =
        ended now (publish_snapshot-IsGood F sm l now g) (get_snapshot-publish_snapshot sm now)
    returned_stays sm saved l now (e ∷ es) g =
        ended now (publish_snapshot-IsGood F sm l now g) (get_snapshot-publish_snapshot sm now)

    rounds-IsGood :
        (sm : StatsManager F) (l : Log) (es : List Event)
        → IsGood F sm l
        → IsGoodOutcome (rounds F dir mkdir marshal write (running sm) es) (log_run l es)
    unfolding rounds round ticked
    rounds-IsGood sm l [] g = still g
    rounds-IsGood sm l (done rest now ∷ es) g =
        returned_stays (add_packets F sm rest) _ (log_packets l rest) now es
          (add_packets-IsGood F sm l rest g)
    rounds-IsGood sm l (packet p ∷ es) g =
        rounds-IsGood (add_packet F sm p) (log_packet l p) es (add_packet-IsGood F sm l p g)
    rounds-IsGood sm l (closed now ∷ es) g = returned_stays sm none l now es g
    rounds-IsGood sm l (second_tick now then_ ∷ es) g =
        let tick = tick_second-IsGood F sm l now g in
        subst
          (λ o.
            IsGoodOutcome (rounds F dir mkdir marshal write (ticked F o then_) es)
              (log_run (log_second l) es))
          (sym tick.1)
          (rounds-IsGood (publish_snapshot F tick.0 then_) (log_second l) es
            (publish_snapshot-IsGood F tick.0 (log_second l) then_ tick.2))
    rounds-IsGood sm l (snap_tick now ∷ es) g =
        rounds-IsGood (publish_snapshot F sm now) l es (publish_snapshot-IsGood F sm l now g)

    run-IsGood :
        (sm : StatsManager F) (l : Log) (es : List Event)
        → IsGood F sm l
        → IsGoodOutcome (run F dir mkdir marshal write sm es) (log_run l es)
    unfolding run
    run-IsGood sm l es g = rounds-IsGood sm l es g

  -- A new manager is good for the empty log, unless its baseline file holds `null`.
  new_stats_manager-IsGood :
      (throughput_secs recent_cap anomalies_cap : ℕ) (dropped : Option ℕ)
      (anomaly_cfg : Anomaly.Config F) (baseline_cfg : Baseline.Config F) (load : Load F)
      (url : String) (now : Time)
      → IsLoaded F (new_manager F load baseline_cfg now).hosts
      → IsGood F
          (new_stats_manager F throughput_secs recent_cap anomalies_cap dropped anomaly_cfg
            baseline_cfg load url now)
          (record { packets = []; this_second = []; seconds = [] })
  unfolding new_stats_manager publish_snapshot get
  new_stats_manager-IsGood throughput_secs recent_cap anomalies_cap dropped anomaly_cfg baseline_cfg
        load url now h =
      record {
        book = record {
          accounted = record {
            packets = omega arith;
            bytes = omega arith;
            protocols = omega arith;
            sent_total = omega arith;
            received_total = omega arith;
            flow_total = omega arith;
          };
          counted = record {
            protocol = λ k. omega arith;
            sender = λ ip. omega arith;
            receiver = λ ip. omega arith;
            flow = λ fk. omega arith;
            sent_packets = λ ip. omega arith;
            received_packets = λ ip. omega arith;
            packets_of_flow = λ fk. omega arith;
            last_seen = λ ip. refl;
            flow_last_seen = λ fk. refl;
          };
          recent = new-Holds blank_packet recent_cap;
          sums = new-Holds 0 throughput_secs;
          current = omega arith;
        };
        loaded = h;
      }

  -- From a new manager whose baseline table is not nil and has no nil entry, whatever the `select`
  -- takes, and for how long: the run does not panic; every counter and every lookup of the state
  -- agrees with the packets received: for a talker the bytes and packets sent and received and the
  -- time it was last seen, for a flow its bytes, packets and last time, and the protocols; the ring
  -- of recent packets holds the latest of them and the throughput ring the latest sums over whole
  -- seconds, as many as fit; and after the run has returned, the published snapshot shows this state.
  pub run_from_start :
      (throughput_secs recent_cap anomalies_cap : ℕ) (dropped : Option ℕ)
      (anomaly_cfg : Anomaly.Config F) (baseline_cfg : Baseline.Config F) (load : Load F)
      (url : String) (now : Time) (dir : String → String) (mkdir : String → Bool)
      (marshal : Option (Dict String (Option (HostMetrics F))) → Option String)
      (write : String → String → Bool) (es : List Event)
      → IsLoaded F (new_manager F load baseline_cfg now).hosts
      → IsGoodOutcome
          (run F dir mkdir marshal write
            (new_stats_manager F throughput_secs recent_cap anomalies_cap dropped anomaly_cfg
              baseline_cfg load url now)
            es)
          (log_run empty es)
  run_from_start throughput_secs recent_cap anomalies_cap dropped anomaly_cfg baseline_cfg load url
        now dir mkdir marshal write es h =
      run-IsGood dir mkdir marshal write _ empty es (
        new_stats_manager-IsGood throughput_secs recent_cap anomalies_cap dropped anomaly_cfg
          baseline_cfg load url now h)

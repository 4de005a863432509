-- ===== src/Stats/Manager.antt =====
-- `StatsManager` of internal/aggregator/stats.go: the snapshot, anomalies, AddPacket and TickSecond.
-- `NewStatsManager` is the only constructor and sets the detector, the story tracker and the baseline
-- manager, so the tests of the source against nil pass.
use undertow.Base.{
  ℕ, String, Bool, not, Option, none, some, List, [], ◌∷◌, ◌++◌, if◌then◌else◌, add64,
}
use undertow.Base.Eq.{◌==◌, string_eq}
use undertow.Base.Dict.{Dict, values, or_else}
use undertow.Base.Sort.{sort, desc}
use undertow.Base.Float.{FloatOps}
use undertow.Packet.{Time, flow_key_eq, AnomalyEvent, PacketInfo}
use undertow.Ring
use undertow.Ring.{Ring, push, slice}
use undertow.Anomaly
use undertow.Anomaly.{Detector, check_packet}
use undertow.Narrative.{StoryTracker, new_story_tracker, record_packet, record_anomaly}
use undertow.Baseline
use undertow.Baseline.{HostMetrics, observe_host, new_manager, save_to_file, Load, Saved}
use undertow.Stats.{TalkerStat, total_bytes, blank_event, blank_packet, Snapshot, Stats, count_all}

module _ (F : FloatOps) where
  -- `sent_alerts` is what went to the webhook sender, one goroutine for each event.
  pub record StatsManager : Type 0 where
    pub stats : Stats
    pub published : Option Snapshot
    pub dropped_count : Option ℕ
    pub detector : Detector F
    pub story_tracker : StoryTracker
    pub baseline_mgr : Baseline.Manager F
    pub webhook_url : String
    pub sent_alerts : List AnomalyEvent

  -- `PublishSnapshot`. The dropped counter is read through its pointer, 0 where that is nil.
  unfoldable pub snapshot : StatsManager → Time → Snapshot
  snapshot sm now = record {
    timestamp = now;
    start_time = sm.stats.start_time;
    total_packets = sm.stats.total_packets;
    total_bytes = sm.stats.total_bytes;
    dropped_packets = or_else sm.dropped_count 0;
    protocol_counts = sm.stats.protocol_counts;
    top_talkers = sort (desc total_bytes) (values sm.stats.top_talkers);
    flows = values sm.stats.flows;
    throughput_history = slice 0 sm.stats.throughput_ring;
    recent_packets = slice blank_packet sm.stats.recent_packets_ring;
    anomalies = slice blank_event sm.stats.anomalies_ring;
  }

  unfoldable pub publish_snapshot : StatsManager → Time → StatsManager
  publish_snapshot sm now = record sm { published = some (snapshot sm now) }

  abbrev empty_snapshot : Snapshot
  empty_snapshot = record {
    timestamp = 0;
    start_time = 0;
    total_packets = 0;
    total_bytes = 0;
    dropped_packets = 0;
    protocol_counts = [];
    top_talkers = [];
    flows = [];
    throughput_history = [];
    recent_packets = [];
    anomalies = [];
  }

  -- `GetSnapshot`
  unfoldable pub get_snapshot : StatsManager → Snapshot
  get_snapshot sm = or_else sm.published empty_snapshot

  -- `NewStatsManager` at the time `now`
  unfoldable pub new_stats_manager :
      ℕ
      → ℕ
      → ℕ
      → Option ℕ
      → Anomaly.Config F
      → Baseline.Config F
      → Load F
      → String
      → Time
      → StatsManager
  new_stats_manager throughput_secs recent_cap anomalies_cap dropped anomaly_cfg baseline_cfg load
        url now =
      publish_snapshot
        (record {
          stats = record {
            start_time = now;
            total_packets = 0;
            total_bytes = 0;
            protocol_counts = [];
            top_talkers = [];
            flows = [];
            throughput_ring = Ring.new 0 throughput_secs;
            recent_packets_ring = Ring.new blank_packet recent_cap;
            anomalies_ring = Ring.new blank_event anomalies_cap;
            current_sec_bytes = 0;
          };
          published = none;
          dropped_count = dropped;
          detector = Anomaly.new F anomaly_cfg;
          story_tracker = new_story_tracker;
          baseline_mgr = new_manager F load baseline_cfg now;
          webhook_url = url;
          sent_alerts = [];
        })
        now

  -- `AddAnomaly`
  unfoldable pub add_anomaly : StatsManager → AnomalyEvent → StatsManager
  add_anomaly sm evt = record sm {
    stats = record sm.stats { anomalies_ring = push sm.stats.anomalies_ring evt };
    story_tracker = record_anomaly sm.story_tracker evt;
    sent_alerts = if not (sm.webhook_url == "") then sm.sent_alerts ++ evt ∷ [] else sm.sent_alerts;
  }

  unfoldable pub add_anomalies : StatsManager → List AnomalyEvent → StatsManager
  add_anomalies sm [] = sm
  add_anomalies sm (e ∷ es) = add_anomalies (add_anomaly sm e) es

  -- `AddPacket`
  unfoldable pub add_packet : StatsManager → PacketInfo → StatsManager
  add_packet sm pkt =
      let (flow, stats') = count_all sm.stats pkt in
      let (events, detector') = check_packet F sm.detector pkt flow in
      add_anomalies
        (record sm {
          stats = stats';
          story_tracker = record_packet sm.story_tracker pkt;
          detector = detector';
        })
        events

  -- What one talker of `TickSecond` does: the rates are the counters of the whole session.
  unfoldable pub observe_talker :
      StatsManager → TalkerStat → Time → Option (List AnomalyEvent × Baseline.Manager F)
  observe_talker sm talker now =
      observe_host F sm.baseline_mgr talker.ip
        (F.of_nat (add64 talker.packets_sent talker.packets_recv))
        (F.of_nat (add64 talker.bytes_sent talker.bytes_recv)) (F.of_nat 1) now

  abbrev pub with_observed :
      StatsManager → Option (List AnomalyEvent × Baseline.Manager F) → Option StatsManager
  with_observed sm none = none
  with_observed sm (some (events, mgr)) =
      some (add_anomalies (record sm { baseline_mgr = mgr }) events)

  abbrev pub and_then :
      Option StatsManager → (StatsManager → Option StatsManager) → Option StatsManager
  and_then none k = none
  and_then (some sm) k = k sm

  -- The loop of `TickSecond` over the talkers; `none` is the panic of `ObserveHost`.
  unfoldable pub observe_talkers : StatsManager → List TalkerStat → Time → Option StatsManager
  observe_talkers sm [] now = some sm
  observe_talkers sm (talker ∷ talkers) now =
      and_then (with_observed sm (observe_talker sm talker now))
        (λ sm'. observe_talkers sm' talkers now)

  -- `TickSecond`
  unfoldable pub tick_second : StatsManager → Time → Option StatsManager
  tick_second sm now =
      observe_talkers
        (record sm {
          stats = record sm.stats {
            throughput_ring = push sm.stats.throughput_ring sm.stats.current_sec_bytes;
            current_sec_bytes = 0;
          };
        })
        (values sm.stats.top_talkers) now

  -- `SaveBaseline`, with the calls of `SaveToFile` outside the program
  unfoldable pub save_baseline :
      (String → String)
      → (String → Bool)
      → (Option (Dict String (Option (HostMetrics F))) → Option String)
      → (String → String → Bool)
      → StatsManager
      → Saved F
  save_baseline dir mkdir marshal write sm =
      save_to_file F dir mkdir marshal write sm.baseline_mgr ""

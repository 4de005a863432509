-- ===== src/Aggregator/Good.antt =====
-- Each step of the aggregator keeps its books and does not panic.
use undertow.Base.{◌≡◌, refl, ap, ◌∙◌, Option, some, List, [], ◌∷◌}
use undertow.Base.Eq.{string_eq}
use undertow.Base.Dict.{values}
use undertow.Base.Float.{FloatOps}
use undertow.Packet.{Time, AnomalyEvent, PacketInfo}
use undertow.Ring.{push}
use undertow.Anomaly.{check_packet}
use undertow.Narrative.{record_packet}
use undertow.Baseline.Learning.{IsLoaded, observe_host-IsLoaded}
use undertow.Baseline.{Manager}
use undertow.Stats.{TalkerStat, count_all}
use undertow.Stats.Manager.{
  StatsManager, add_anomaly, add_anomalies, add_packet, observe_talker, with_observed, and_then,
  observe_talkers, tick_second, publish_snapshot,
}
use undertow.Aggregator.{add_packets}
use undertow.Aggregator.Book.{
  Log, log_packet, log_packets, log_second, IsBook, count_all-IsBook, anomalies-IsBook,
  second-IsBook,
}

module _ (F : FloatOps) where
  -- The books agree with the log, and the baseline manager has a table without nil entries, so that it
  -- does not panic.
  pub record IsGood (sm : StatsManager F) (l : Log) : Type 0 where
    pub book : IsBook sm.stats l
    pub loaded : IsLoaded F sm.baseline_mgr.hosts

  add_anomalies-IsGood :
      (sm : StatsManager F) (l : Log) (es : List AnomalyEvent)
      → IsGood sm l
      → IsGood (add_anomalies F sm es) l
  unfolding add_anomalies add_anomaly
  add_anomalies-IsGood sm l [] g = g
  add_anomalies-IsGood sm l (e ∷ es) g = add_anomalies-IsGood (add_anomaly F sm e) l es (record {
    book = anomalies-IsBook sm.stats l (push sm.stats.anomalies_ring e) g.book;
    loaded = g.loaded;
  })

  pub add_packet-IsGood :
      (sm : StatsManager F) (l : Log) (pkt : PacketInfo)
      → IsGood sm l
      → IsGood (add_packet F sm pkt) (log_packet l pkt)
  unfolding add_packet
  add_packet-IsGood sm l pkt g =
      add_anomalies-IsGood
        (record sm {
          stats = (count_all sm.stats pkt).1;
          story_tracker = record_packet sm.story_tracker pkt;
          detector = (check_packet F sm.detector pkt (count_all sm.stats pkt).0).1;
        })
        (log_packet l pkt) (check_packet F sm.detector pkt (count_all sm.stats pkt).0).0
        (record { book = count_all-IsBook sm.stats l pkt g.book; loaded = g.loaded })

  pub add_packets-IsGood :
      (sm : StatsManager F) (l : Log) (ps : List PacketInfo)
      → IsGood sm l
      → IsGood (add_packets F sm ps) (log_packets l ps)
  unfolding add_packets
  add_packets-IsGood sm l [] g = g
  add_packets-IsGood sm l (p ∷ ps) g =
      add_packets-IsGood (add_packet F sm p) (log_packet l p) ps (add_packet-IsGood sm l p g)

  pub publish_snapshot-IsGood :
      (sm : StatsManager F) (l : Log) (now : Time)
      → IsGood sm l
      → IsGood (publish_snapshot F sm now) l
  unfolding publish_snapshot
  publish_snapshot-IsGood sm l now g = record { book = g.book; loaded = g.loaded }

  -- A tick gives a manager, and a good one.
  abbrev GoodResult : Option (StatsManager F) → Log → Type 0
  GoodResult o l = (sm : StatsManager F) × (o ≡ some sm) × IsGood sm l

  observe_talkers-IsGood :
      (sm : StatsManager F) (l : Log) (ts : List TalkerStat) (now : Time)
      → IsGood sm l
      → GoodResult (observe_talkers F sm ts now) l
  unfolding observe_talkers
  observe_talkers-IsGood sm l [] now g = (sm, refl, g)
  observe_talkers-IsGood sm l (t ∷ ts) now g =
      let rest =
        observe_talkers-IsGood (add_anomalies F (record sm { baseline_mgr = seen.0.1 }) seen.0.0) l
          ts now
          (add_anomalies-IsGood (record sm { baseline_mgr = seen.0.1 }) l seen.0.0
            (record { book = g.book; loaded = seen.2 })) in
      (
        rest.0,
        ap (λ o. and_then F (with_observed F sm o) (λ sm'. observe_talkers F sm' ts now)) seen.1
            ∙ rest.1,
        rest.2,
      )
    where
      seen :
          (r : List AnomalyEvent × Manager F) × (observe_talker F sm t now ≡ some r)
          × IsLoaded F r.1.hosts
      seen =
          unfold observe_talker in observe_host-IsLoaded F sm.baseline_mgr t.ip _ _ _ now g.loaded

  pub tick_second-IsGood :
      (sm : StatsManager F) (l : Log) (now : Time)
      → IsGood sm l
      → GoodResult (tick_second F sm now) (log_second l)
  unfolding tick_second
  tick_second-IsGood sm l now g =
      observe_talkers-IsGood
        (record sm {
          stats = record sm.stats {
            throughput_ring = push sm.stats.throughput_ring sm.stats.current_sec_bytes;
            current_sec_bytes = 0;
          };
        })
        (log_second l) (values sm.stats.top_talkers) now
        (record { book = second-IsBook sm.stats l g.book; loaded = g.loaded })

-- ===== src/Baseline.antt =====
-- internal/baseline/baseline.go: per-host averages and the deviation alerts. The mutex makes each
-- method one step. `hosts` is `none` where Go's map is nil: reading it finds nothing, writing panics. An
-- entry is a pointer, `none` where it is nil, as JSON's `null` makes it.
pub mod Learning
use undertow.Base.{
  ℕ, ◌+◌, ◌*◌, ◌%◌, ◌^◌, ◌<◌, String, Bool, true, false, ◌&&◌, ◌||◌, Option, none, some, List, [],
  ◌∷◌, ◌++◌, ltb, leb, if◌then◌else◌, add64, not,
}
use undertow.Base.Eq.{◌==◌, string_eq}
use undertow.Base.Dict.{Dict, get, put}
use undertow.Base.Text.{concat}
use undertow.Base.Float.{FloatOps}
use undertow.Base.Int.{pos, times64, is_before}
use undertow.Packet.{Time, second, AnomalyEvent}

-- `a >= k` and `a > k` on an `int64` given by its bit pattern, for `k` not negative.
abbrev pub int64_ge : ℕ → ℕ → Bool
int64_ge a k = ltb a (2 ^ 63) && leb k a

abbrev pub int64_gt : ℕ → ℕ → Bool
int64_gt a k = ltb a (2 ^ 63) && ltb k a

module _ (F : FloatOps) where
  pub record HostMetrics : Type 0 where
    pub ip : String
    pub packets_sec_ema : F.Float
    pub bytes_sec_ema : F.Float
    pub ports_min_ema : F.Float
    pub packets_sec_var : F.Float
    pub bytes_sec_var : F.Float
    pub sample_count : ℕ
    pub last_updated : Time

  pub record Config : Type 0 where
    pub warmup_sec : ℕ
    pub alpha : F.Float
    pub sigma_k : F.Float
    pub file_path : String

  pub record Manager : Type 0 where
    pub hosts : Option (Dict String (Option HostMetrics))
    pub config : Config
    pub start_time : Time

  -- What a file read and `json.Unmarshal` make of a path: an error, or the map that the text holds,
  -- which is nil for the text `null`.
  abbrev pub Load : Type 0
  Load = String → Option (Option (Dict String (Option HostMetrics)))

  pub load_result : Manager → Option (Option (Dict String (Option HostMetrics))) → Bool × Manager
  load_result m none = (false, m)
  load_result m (some loaded) = (true, record m { hosts = loaded })

  -- `LoadFromFile`: the Boolean says that there was no error.
  unfoldable pub load_from_file : Load → Manager → String → Bool × Manager
  unfolding load_result
  load_from_file load m path = load_result m (load path)

  -- `NewManager`
  unfoldable pub new_manager : Load → Config → Time → Manager
  new_manager load cfg now =
      let m : Manager = record { hosts = some []; config = cfg; start_time = now } in
      if cfg.file_path == "" then m else (load_from_file load m cfg.file_path).1

  -- The host as it is looked up, or made from its first values.
  unfoldable pub host_metrics :
      Option HostMetrics → String → F.Float → F.Float → F.Float → Time → HostMetrics
  host_metrics (some hm) ip pkts_sec bytes_sec ports_min now = hm
  host_metrics none ip pkts_sec bytes_sec ports_min now = record {
    ip = ip;
    packets_sec_ema = pkts_sec;
    bytes_sec_ema = bytes_sec;
    ports_min_ema = ports_min;
    packets_sec_var = F.of_nat 0;
    bytes_sec_var = F.of_nat 0;
    sample_count = 0;
    last_updated = now;
  }

  -- `now.Sub(startTime) >= WarmupSec * time.Second || SampleCount >= 30`
  abbrev pub is_warmed_up : Manager → HostMetrics → Time → Bool
  is_warmed_up m hm now =
      not (is_before now m.start_time (times64 (pos m.config.warmup_sec) second))
      || int64_ge hm.sample_count 30

  -- A rate is above `mean + k * sigma`, and sigma above its floor.
  abbrev pub deviates : Config → F.Float → F.Float → F.Float → F.Float → Bool
  deviates cfg rate mean std_dev floor =
      F.gt std_dev floor && F.gt rate (F.add mean (F.mul cfg.sigma_k std_dev))

  abbrev event : String → Time → String → AnomalyEvent
  event ip now detail = record {
    timestamp = now;
    kind = "BEHAVIORAL_DEVIATION";
    source_ip = ip;
    detail = detail;
  }

  unfoldable pub packets_events : Config → HostMetrics → String → F.Float → Time → List AnomalyEvent
  packets_events cfg hm ip pkts_sec now =
      let std_dev = F.sqrt hm.packets_sec_var in
      if deviates cfg pkts_sec hm.packets_sec_ema std_dev (F.of_nat 1)
      then event ip now (
          concat (
            "Packets/s rate "
            ∷ F.fixed 1 pkts_sec
            ∷ " exceeds host mean ("
            ∷ F.fixed 1 hm.packets_sec_ema
            ∷ " ± "
            ∷ F.fixed 1 std_dev
            ∷ ")"
            ∷ []))
        ∷ []
      else []

  unfoldable pub bytes_events : Config → HostMetrics → String → F.Float → Time → List AnomalyEvent
  bytes_events cfg hm ip bytes_sec now =
      let std_dev = F.sqrt hm.bytes_sec_var in
      if deviates cfg bytes_sec hm.bytes_sec_ema std_dev (F.of_nat 1024)
      then event ip now (
          concat (
            "Bytes/s rate "
            ∷ F.fixed 0 bytes_sec
            ∷ " B/s exceeds host mean ("
            ∷ F.fixed 0 hm.bytes_sec_ema
            ∷ " ± "
            ∷ F.fixed 0 std_dev
            ∷ " B/s)"
            ∷ []))
        ∷ []
      else []

  -- `alpha*x + (1-alpha)*ema`
  abbrev pub ema : Config → F.Float → F.Float → F.Float
  ema cfg x old = F.add (F.mul cfg.alpha x) (F.mul (F.sub (F.of_nat 1) cfg.alpha) old)

  -- `(1-alpha) * (var + alpha*diff*diff)`, with `diff` from the average before its update
  abbrev pub variance : Config → F.Float → F.Float → F.Float → F.Float
  variance cfg x mean old =
      let diff = F.sub x mean in
      F.mul (F.sub (F.of_nat 1) cfg.alpha) (F.add old (F.mul (F.mul cfg.alpha diff) diff))

  unfoldable pub updated : Config → HostMetrics → F.Float → F.Float → F.Float → Time → HostMetrics
  updated cfg hm pkts_sec bytes_sec ports_min now = record hm {
    sample_count = add64 hm.sample_count 1;
    packets_sec_ema = ema cfg pkts_sec hm.packets_sec_ema;
    packets_sec_var = variance cfg pkts_sec hm.packets_sec_ema hm.packets_sec_var;
    bytes_sec_ema = ema cfg bytes_sec hm.bytes_sec_ema;
    bytes_sec_var = variance cfg bytes_sec hm.bytes_sec_ema hm.bytes_sec_var;
    ports_min_ema = ema cfg ports_min hm.ports_min_ema;
    last_updated = now;
  }

  pub observe_known :
      Manager
      → Dict String (Option HostMetrics)
      → HostMetrics
      → String
      → F.Float
      → F.Float
      → F.Float
      → Time
      → List AnomalyEvent × Manager
  observe_known m hosts hm ip pkts_sec bytes_sec ports_min now =
      let events =
        if is_warmed_up m hm now && int64_gt hm.sample_count 10
        then packets_events m.config hm ip pkts_sec now ++ bytes_events m.config hm ip bytes_sec now
        else [] in
      (
        events,
        record m {
          hosts = some (put hosts ip (some (updated m.config hm pkts_sec bytes_sec ports_min now)));
        },
      )

  -- A host without an entry gets one; a nil entry panics where its fields are read.
  pub observe_entry :
      Manager
      → Dict String (Option HostMetrics)
      → Option (Option HostMetrics)
      → String
      → F.Float
      → F.Float
      → F.Float
      → Time
      → Option (List AnomalyEvent × Manager)
  observe_entry m hosts none ip pkts_sec bytes_sec ports_min now = some (
      observe_known m hosts (host_metrics none ip pkts_sec bytes_sec ports_min now) ip pkts_sec
        bytes_sec ports_min now)
  observe_entry m hosts (some none) ip pkts_sec bytes_sec ports_min now = none
  observe_entry m hosts (some (some hm)) ip pkts_sec bytes_sec ports_min now = some (
      observe_known m hosts (host_metrics (some hm) ip pkts_sec bytes_sec ports_min now) ip pkts_sec
        bytes_sec ports_min now)

  pub observe_in :
      Manager
      → Option (Dict String (Option HostMetrics))
      → String
      → F.Float
      → F.Float
      → F.Float
      → Time
      → Option (List AnomalyEvent × Manager)
  observe_in m none ip pkts_sec bytes_sec ports_min now = none
  observe_in m (some hosts) ip pkts_sec bytes_sec ports_min now =
      observe_entry m hosts (get hosts ip) ip pkts_sec bytes_sec ports_min now

  -- `ObserveHost`; `none` is the panic of a write to the nil map or of a nil entry.
  unfoldable pub observe_host :
      Manager → String → F.Float → F.Float → F.Float → Time → Option (List AnomalyEvent × Manager)
  unfolding observe_in observe_entry observe_known
  observe_host m ip pkts_sec bytes_sec ports_min now =
      observe_in m m.hosts ip pkts_sec bytes_sec ports_min now

  -- What `SaveToFile` did: nothing without a path, or how far it came.
  pub data Saved : Type 0 where
    no_path mkdir_failed marshal_failed write_failed saved : Saved

  -- `mkdir` and `write` are the calls of package os, and say whether they succeeded; `marshal` is
  -- `json.MarshalIndent`, and `dir` is `filepath.Dir`.
  module _ (dir : String → String) (mkdir : String → Bool)
      (marshal : Option (Dict String (Option HostMetrics)) → Option String)
      (write : String → String → Bool) where
    pub save_marshalled : String → Option String → Saved
    save_marshalled path none = marshal_failed
    save_marshalled path (some data_text) = if write path data_text then saved else write_failed

    -- `SaveToFile`
    unfoldable pub save_to_file : Manager → String → Saved
    unfolding save_marshalled
    save_to_file m path =
        let chosen = if path == "" then m.config.file_path else path in
        if chosen == ""
        then no_path
        else if mkdir (dir chosen)
        then save_marshalled chosen (marshal m.hosts)
        else mkdir_failed

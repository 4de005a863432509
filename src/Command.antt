-- ===== src/Command.antt =====
-- cmd/undertow/main.go: what the program does from its arguments to its end, as the list of its
-- actions and the exit code. What others answer enters as `Answers`. Parsing the flags and the
-- signals are left out; the goroutines are started, and what they do is modelled elsewhere.
pub mod Modes
pub mod Plan
use undertow.Base.{
  ℕ, suc, ◌+◌, ◌/◌, String, Bool, true, false, not, ◌&&◌, ◌||◌, Option, none, some, List, [], ◌∷◌,
  ◌++◌, map, leb, if◌then◌else◌, length, get_or,
}
use undertow.Base.Eq.{◌==◌, string_eq}
use undertow.Base.Text.{concat, join, dec}
use undertow.Base.Strings.{contains}
use undertow.Base.Float.{FloatOps}
use undertow.Anomaly
use undertow.Baseline
use undertow.Stats.{Snapshot}
use undertow.Outbound.{Handle, apply_bpf_filter}

-- `handleDiffSubcommand`
abbrev is_output_flag : String → Bool
is_output_flag arg = arg == "--output-md" || arg == "-output-md"

-- The argument behind the last such flag that has one behind it.
unfoldable output_md : String → List String → String
output_md found [] = found
output_md found (arg ∷ []) = found
output_md found (arg ∷ next ∷ args) =
    output_md (if is_output_flag arg then next else found) (next ∷ args)

abbrev arg : List String → ℕ → String
arg args i = get_or args i ""

module _ (F : FloatOps) where
  -- The flags, with the texts and numbers that were parsed. Numbers below 0 are left out.
  pub record Flags : Type 0 where
    pub iface : String
    pub filter_expr : String
    pub workers : ℕ
    pub no_tui : Bool
    pub headless : Bool
    pub webhook_url : String
    pub scan_threshold : ℕ
    pub transfer_threshold_mb : ℕ
    pub dns_entropy_threshold : F.Float
    pub redact_ips : Bool
    pub baseline_warmup : ℕ
    pub baseline_file : String
    pub record_file : String
    pub replay_file : String
    pub export_html : String
    pub export_flag : String
    pub serve_addr : String
    pub listen_addr : String
    pub serve_token : String
    pub threat_feed_file : String

  -- Errors are `none` where all goes well. `ticks` are the snapshots of the seconds before the
  -- context is done.
  pub record Answers : Type 0 where
    pub compared : String → String → String × Option String
    pub write_error : String → Option String
    pub feed_error : String → Option String
    pub replay_error : String → Option String
    pub devices : Option (List (String × List String))
    pub devices_error : String
    pub live_error : String → Option String
    pub handle : Handle
    pub recorder_error : String → Option String
    pub dashboard_error : Option String
    pub ticks : List Snapshot
    pub home_file : String

  pub data Action : Type 0 where
    prints complains : String → Action
    -- A file is written; the engine of a feed is installed.
    writes : String → String → Action
    installs_feed : String → Action
    -- The statistics with their configurations and the webhook, and whether drops are counted.
    aggregates : Anomaly.Config F → Baseline.Config F → String → Bool → Action
    serves : String → String → Action
    replays : String → Action
    -- The handle is opened or closed, the recorder made or closed, the capture started.
    opens_handle records captures : String → Action
    closes_handle closes_recorder : Action
    -- The dashboard, with the interface, the filter, whether it can apply filters, and redaction.
    shows : String → String → Bool → Bool → Action
    exports : String → Action

  pub record Ended : Type 0 where
    pub actions : List Action
    pub code : ℕ

  -- Something is done before the rest.
  abbrev pub before : List Action → Ended → Ended
  before done rest = record { actions = done ++ rest.actions; code = rest.code }

  -- Something is deferred to the return of `main`, which `os.Exit` skips.
  abbrev pub exits : List Action → ℕ → Ended
  exits done code = record { actions = done; code = code }

  abbrev diff_written : Answers → String → String → Option String → List Action
  diff_written a file summary (some err) = []
  diff_written a file summary none =
      writes file
        (concat ("# Undertow Session Snapshot Diff Report\n\n```text\n" ∷ summary ∷ "\n```\n" ∷ []))
      ∷ prints (concat ("Wrote diff report to Markdown file: " ∷ file ∷ "\n" ∷ []))
      ∷ []

  abbrev diff_ended : Answers → String → String × Option String → Ended
  diff_ended a file (summary, some err) =
      exits (complains (concat ("Diff Error: " ∷ err ∷ "\n" ∷ [])) ∷ []) 1
  diff_ended a file (summary, none) =
      exits
        (prints (concat (summary ∷ "\n" ∷ []))
          ∷ (if not (file == "") then diff_written a file summary (a.write_error file) else []))
        0

  unfoldable pub handle_diff_subcommand : Answers → List String → Option Ended
  unfolding output_md
  handle_diff_subcommand a args =
      if leb 4 (length args) && (arg args 1 == "diff" || arg args 1 == "--diff")
      then some (diff_ended a (output_md "" args) (a.compared (arg args 2) (arg args 3)))
      else none

  -- `listInterfaces`
  abbrev pub device_line : String × List String → Action
  device_line (name, addrs) = prints (concat ("- " ∷ name ∷ " (" ∷ join ", " addrs ∷ ")\n" ∷ []))

  abbrev pub listed_devices : Answers → Option (List (String × List String)) → List Action
  listed_devices a none =
      complains (concat ("Error finding devices: " ∷ a.devices_error ∷ "\n" ∷ [])) ∷ []
  listed_devices a (some devs) = prints "Available interfaces:\n" ∷ map device_line devs

  unfoldable pub list_interfaces : Answers → List Action
  list_interfaces a = listed_devices a a.devices

  -- The two spellings of a flag.
  abbrev either_flag : String → String → String
  either_flag first second = if not (second == "") && first == "" then second else first

  abbrev pub export_file : Flags → String
  export_file fl = either_flag fl.export_html fl.export_flag

  abbrev pub served_addr : Flags → String
  served_addr fl = either_flag fl.serve_addr fl.listen_addr

  abbrev pub is_headless : Flags → Bool
  is_headless fl = fl.no_tui || fl.headless

  abbrev pub fed : String → Option String → List Action
  fed file (some err) =
      complains (concat ("Error loading custom threat feed " ∷ file ∷ ": " ∷ err ∷ "\n" ∷ [])) ∷ []
  fed file none =
      installs_feed file
      ∷ prints (concat ("Loaded custom threat feed from " ∷ file ∷ "\n" ∷ []))
      ∷ []

  unfoldable pub load_feed : Answers → Flags → List Action
  load_feed a fl =
      if not (fl.threat_feed_file == "")
      then fed fl.threat_feed_file (a.feed_error fl.threat_feed_file)
      else []

  unfoldable pub anomaly_cfg : Flags → Anomaly.Config F
  anomaly_cfg fl = record {
    scan_threshold = fl.scan_threshold;
    scan_window_sec = 10;
    transfer_threshold_mb = fl.transfer_threshold_mb;
    dns_entropy_threshold = fl.dns_entropy_threshold;
  }

  -- `baseline.DefaultConfig`, with the flags; `home_file` is the file in the home directory.
  unfoldable default_config : Answers → Baseline.Config F
  default_config a = record {
    warmup_sec = 60;
    alpha = F.div (F.of_nat 1) (F.of_nat 10);
    sigma_k = F.of_nat 3;
    file_path = a.home_file;
  }

  unfoldable pub baseline_cfg : Answers → Flags → Baseline.Config F
  unfolding default_config
  baseline_cfg a fl = record (default_config a) {
    warmup_sec = fl.baseline_warmup;
    file_path = if not (fl.baseline_file == "") then fl.baseline_file else a.home_file;
  }

  abbrev pub served : Flags → List Action
  served fl = if not (served_addr fl == "") then serves (served_addr fl) fl.serve_token ∷ [] else []

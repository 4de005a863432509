-- ===== src/Examples/Sources.antt =====
-- The resolver, the recorder, the web view, the AI client and the command line at concrete inputs.
use mathlib.Core.Option
use undertow.Base.{
  ℕ, ◌≡◌, ◌≢◌, refl, true, false, ◌&&◌, none, some, List, [], ◌∷◌, ◌++◌, map, take, arith, nat_eq,
  if◌then◌else◌,
}
use undertow.Base.Eq.{string_eq, number_eq}
use undertow.Base.Dict.{get, put, or_else}
use undertow.Base.Text.{dec}
use undertow.Base.Numerals.{atoi, parse_hex16}
use undertow.Base.Strings.{has_prefix, fields, split, trim_suffix, trim_prefix, trim_space}
use undertow.Outbound.{apply_bpf_filter}
use undertow.Base.Int.{pos}
use undertow.Packet.{PacketInfo}
use undertow.Stats.{blank_packet}
use undertow.Process.{System, linux}
use undertow.Process.Refresh.{new_tracker, get_process_matrix}
use undertow.Process.Resolver.{found_or_unknown, new_resolver, lookup_port, get_all_processes}
use undertow.Process.Agree.{seen, refresh_all, resolve_all, linux_agree}
use undertow.Replay.{ReplayEngine, new_replay_engine}
use undertow.Replay.Play.{play_rounds}
use undertow.Recorder.{Captured, PcapOps, Recorder, new_recorder, close, write_all}
use undertow.Recorder.Playback.{PcapLaws, stored, read_back, recorded, recorded_replays}
use undertow.Remote.{Server, tick, ended, handle_index, handle_stream}
use undertow.Remote.Guard.{bodies, refusals, guarded}
use undertow.Outbound.Assistant.{Client, OllamaOps, fallback_summary, generate_incident_summary}
use undertow.Outbound.Assistant.Answer.{usable, summary_given}
use undertow.Command.{Flags, Answers, load_feed, handle_diff_subcommand}
use undertow.Command.Modes
use undertow.Command.Plan.{exported_files, main_reports}
use undertow.Examples.Data.{halves, alert}

-- One process that listens on port 8080.
abbrev linux_system : System
linux_system = record {
  goos = linux;
  net_lines = λ path. some (
      "  sl  local_address rem_address"
      ∷ "   0: 0100007F:1F90 00000000:0000 0A 00000000:00000000 00:00000000 00000000  1000 0 4242 1"
      ∷ []);
  proc_entries = some (("77", true) ∷ ("uptime", false) ∷ []);
  comm = λ pid. "server\n";
  exe = λ pid. "/usr/bin/server";
  status = λ pid. "Name:\tserver\nUid:\t1000\t1000\n";
  fd_targets = λ pid. some (some "socket:[4242]" ∷ none ∷ []);
  user_name = λ id. some "web";
  netstat = none;
  lsof = none;
}

linux_agree_example :
    (lookup_port (resolve_all (new_resolver linux_system 5_000_000_000) []) 8080
      ≡ found_or_unknown (
          Option.map seen
            (get (refresh_all (new_tracker linux_system 5_000_000_000) []).port_map 8080)))
    × (get_all_processes (resolve_all (new_resolver linux_system 5_000_000_000) [])
        ≡ map seen (get_process_matrix (refresh_all (new_tracker linux_system 5_000_000_000) [])))
linux_agree_example = linux_agree linux_system 5_000_000_000 [] 8080 refl tt

lookup_test :
    lookup_port (new_resolver linux_system 5_000_000_000) 8080
    ≡ (pos 77, "server", "/usr/bin/server")
unfolding new_resolver lookup_port get put atoi has_prefix fields split parse_hex16 trim_suffix
    trim_prefix dec trim_space
lookup_test = refl

-- A file as the list of what a reader finds in it, and its snap length.
record ListFile : Type 0 where
  packets : List Captured
  snaplen : ℕ

abbrev list_files : PcapOps
list_files = record {
  File = ListFile;
  create = λ name. (record { packets = []; snaplen = 0 }, none);
  write_file_header = λ f snaplen link_type. (record { packets = []; snaplen = snaplen }, none);
  write_packet = λ f ci bytes. (
    record {
      packets = f.packets ++ stored (record { metadata = ci; bytes = bytes }) ∷ [];
      snaplen = f.snaplen;
    },
    none,
  );
  close = λ f. (f, none);
}

abbrev list_laws : PcapLaws list_files
list_laws = record {
  contents = λ f. f.packets;
  snaplen_of = λ f. f.snaplen;
  contents-header = λ f snaplen link_type e. refl;
  snaplen-header = λ f snaplen link_type e. refl;
  contents-write = λ f p w e. refl;
  snaplen-write = λ f p e. refl;
  contents-close = λ f e. refl;
}

abbrev decode_length : Captured → PacketInfo
decode_length p = record blank_packet {
  timestamp = p.metadata.timestamp;
  length = p.metadata.length;
}

abbrev captured : Captured
captured = record {
  metadata = record {
    timestamp = 63_000_000_000_001_234_567;
    capture_length = 2;
    length = 60;
    interface_index = 3;
  };
  bytes = 1 ∷ 2 ∷ [];
}

abbrev recorder : Recorder list_files
recorder = record {
  has_file = true;
  has_writer = true;
  file = record { packets = []; snaplen = 65535 };
}

recorder_lem : new_recorder list_files "out.pcap" 65535 1 ≡ (none, some recorder)
unfolding new_recorder
recorder_lem = refl

recorded_replays_example :
    let file =
      (write_all list_files
        (close list_files (write_all list_files recorder (captured ∷ []))).1
        (captured ∷ [])).file in
    (re : ReplayEngine halves) × (new_replay_engine halves
        (read_back list_files list_laws halves decode_length file)
        "out.pcap"
      ≡ some re)
    × ((n : ℕ)
        → play_rounds halves n re
          ≡ take n (recorded list_files list_laws halves decode_length (captured ∷ [])))
unfolding write_all undertow.Recorder.write_packet close
recorded_replays_example =
    recorded_replays list_files list_laws halves decode_length "out.pcap" 65535 1 recorder
      (captured ∷ []) (captured ∷ []) recorder_lem
      (
        record {
          captured = refl;
          within = omega arith;
          below_snaplen = omega arith;
          length_fits = omega arith;
          since_epoch = omega arith;
          time_fits = omega arith;
        },
        tt,
      )
      (refl, tt) refl (omega arith)

abbrev server : Server
server = record { addr = ":8080"; token = "secret" }

guarded_example :
    (bodies (handle_index "<html>" server "guess") ≡ [])
    × (refusals (handle_index "<html>" server "guess") ≡ 401 ∷ [])
    × (bodies (handle_stream server "guess" true (tick (some "{}") true ∷ ended ∷ [])) ≡ [])
    × (refusals (handle_stream server "guess" true (tick (some "{}") true ∷ ended ∷ [])) ≡ 401 ∷ [])
guarded_example = guarded "<html>" server "guess" (tick (some "{}") true ∷ ended ∷ [])

abbrev engine_down : OllamaOps
engine_down = record {
  marshal = λ r. (r.prompt, none);
  request_error = λ url. none;
  put = λ url body. some (503, some "busy");
  unmarshal = λ body. none;
}

abbrev client : Client
client = record { endpoint = "http://localhost:11434/"; model = "llama3" }

summary_given_example :
    (generate_incident_summary engine_down client "10.0.0.1" "" (alert ∷ []) ≡ (
      or_else
          (usable engine_down (some (503, some "busy")))
          (fallback_summary client "10.0.0.1" (alert ∷ [])),
      none,
    ))
    × ((generate_incident_summary engine_down client "10.0.0.1" "" (alert ∷ [])).0 ≢ "")
summary_given_example = summary_given engine_down client "10.0.0.1" "" (alert ∷ []) _ refl refl

abbrev live_flags : Flags halves
live_flags = record {
  iface = "eth0";
  filter_expr = "tcp";
  workers = 4;
  no_tui = true;
  headless = false;
  webhook_url = "";
  scan_threshold = 15;
  transfer_threshold_mb = 50;
  dns_entropy_threshold = 7;
  redact_ips = false;
  baseline_warmup = 60;
  baseline_file = "";
  record_file = "out.pcap";
  replay_file = "";
  export_html = "";
  export_flag = "report.html";
  serve_addr = "";
  listen_addr = ":8080";
  serve_token = "";
  threat_feed_file = "";
}

abbrev all_well : Answers halves
all_well = record {
  compared = λ a b. ("", none);
  write_error = λ f. none;
  feed_error = λ f. none;
  replay_error = λ f. none;
  devices = some [];
  devices_error = "";
  live_error = λ i. none;
  handle = record { installed = ""; filter_error = λ e. none };
  recorder_error = λ f. none;
  dashboard_error = none;
  ticks = [];
  home_file = "baseline.json";
}

main_reports_example :
    exported_files halves (Modes.main halves all_well live_flags ("undertow" ∷ [])).actions ≡ (
      if nat_eq (Modes.main halves all_well live_flags ("undertow" ∷ [])).code 0 && true
      then "report.html" ∷ []
      else [])
main_reports_example =
    main_reports halves all_well live_flags ("undertow" ∷ [])
      (unfold handle_diff_subcommand in refl)

report_test :
    exported_files halves (Modes.main halves all_well live_flags ("undertow" ∷ [])).actions
    ≡ "report.html" ∷ []
unfolding Modes.main handle_diff_subcommand load_feed apply_bpf_filter trim_space
report_test = refl

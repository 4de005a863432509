-- ===== src/Command/Modes.antt =====
-- The two modes of cmd/undertow/main.go.
use undertow.Base.{
  String, true, false, not, ◌||◌, Option, none, some, List, [], ◌∷◌, ◌++◌, map, if◌then◌else◌,
}
use undertow.Base.Eq.{◌==◌, string_eq}
use undertow.Base.Text.{concat, dec}
use undertow.Base.Strings.{contains}
use undertow.Base.Float.{FloatOps}
use undertow.Stats.{Snapshot}
use undertow.Outbound.{apply_bpf_filter}
use undertow.Command.{
  Flags, Answers, Action, prints, complains, aggregates, replays, opens_handle, records, captures,
  closes_handle, closes_recorder, shows, exports, Ended, before, exits, export_file, is_headless,
  load_feed, anomaly_cfg, baseline_cfg, served, list_interfaces, handle_diff_subcommand,
}

module _ (F : FloatOps) (a : Answers F) (fl : Flags F) where
  abbrev pub replay_line : Snapshot → Action F
  replay_line snap = prints (
      concat (
        "[REPLAY HEADLESS] "
        ∷ dec snap.total_packets
        ∷ " pkts | "
        ∷ dec snap.total_bytes
        ∷ " bytes\n"
        ∷ []))

  abbrev pub dashboard_ended : Option String → List (Action F)
  dashboard_ended none = []
  dashboard_ended (some err) = complains (concat ("Dashboard error: " ∷ err ∷ "\n" ∷ [])) ∷ []

  -- Mode 1
  abbrev pub replay_opened : Option String → Ended F
  replay_opened (some err) =
      exits F (complains (concat ("Error opening replay file: " ∷ err ∷ "\n" ∷ [])) ∷ []) 1
  replay_opened none =
      exits F
        (aggregates (anomaly_cfg F fl) (baseline_cfg F a fl) fl.webhook_url false
          ∷ (served F fl
              ++ (replays fl.replay_file
                  ∷ (if is_headless F fl
                      then prints (
                          concat (
                            "Replaying " ∷ fl.replay_file ∷ " (Headless)... Press Ctrl+C to stop.\n"
                            ∷ []))
                        ∷ map replay_line a.ticks
                      else shows "REPLAY" fl.filter_expr false fl.redact_ips
                        ∷ dashboard_ended a.dashboard_error))))
        0

  unfoldable pub replay_mode : Ended F
  replay_mode = replay_opened (a.replay_error fl.replay_file)

  abbrev pub live_line : Snapshot → Action F
  live_line snap = prints (
      concat (
        "[HEADLESS STATS] "
        ∷ dec snap.total_packets
        ∷ " pkts | "
        ∷ dec snap.total_bytes
        ∷ " bytes | dropped: "
        ∷ dec snap.dropped_packets
        ∷ "\n"
        ∷ []))

  -- The export at the end; its error is passed over.
  abbrev pub exported : List (Action F)
  exported =
      if not (export_file F fl == "")
      then exports (export_file F fl)
        ∷ prints (concat ("Exported HTML Report to " ∷ export_file F fl ∷ "\n" ∷ []))
        ∷ []
      else []

  abbrev pub live_shown : List (Action F)
  live_shown =
      if is_headless F fl
      then prints (
          concat (
            "Undertow Headless Engine on "
            ∷ fl.iface
            ∷ " ("
            ∷ dec fl.workers
            ∷ " workers)... Press Ctrl+C to stop.\n"
            ∷ []))
        ∷ map live_line a.ticks
      else shows fl.iface fl.filter_expr true fl.redact_ips ∷ dashboard_ended a.dashboard_error

  -- From the capture to the return; what is deferred runs at the end, the latest first.
  abbrev pub live_running : List (Action F) → Ended F
  live_running deferred =
      exits F
        (aggregates (anomaly_cfg F fl) (baseline_cfg F a fl) fl.webhook_url true
          ∷ (served F fl ++ (captures fl.iface ∷ (live_shown ++ (exported ++ deferred)))))
        0

  abbrev pub recorder_made : Option String → Ended F
  recorder_made (some err) =
      exits F
        (complains (concat ("Error opening record file " ∷ fl.record_file ∷ ": " ∷ err ∷ "\n" ∷ []))
          ∷ [])
        1
  recorder_made none =
      before F
        (records fl.record_file
          ∷ prints (concat ("Recording live traffic to " ∷ fl.record_file ∷ " ...\n" ∷ []))
          ∷ [])
        (live_running (closes_recorder ∷ closes_handle ∷ []))

  abbrev pub filter_applied : Option String → Ended F
  filter_applied (some err) =
      exits F (complains (concat ("Error applying BPF filter: " ∷ err ∷ "\n" ∷ [])) ∷ []) 1
  filter_applied none =
      if not (fl.record_file == "")
      then recorder_made (a.recorder_error fl.record_file)
      else live_running (closes_handle ∷ [])

  abbrev open_failed : String → List (Action F)
  open_failed err =
      if contains err "operation not permitted" || contains err "permission denied"
      then complains
          (concat ("Permission error opening interface " ∷ fl.iface ∷ ": " ∷ err ∷ "\n" ∷ []))
        ∷ complains
            "You may need to run as root or grant capabilities, e.g.:\n  sudo setcap cap_net_raw,cap_net_admin=eip $(which undertow)\n"
        ∷ []
      else complains (concat ("Error opening interface " ∷ fl.iface ∷ ": " ∷ err ∷ "\n" ∷ [])) ∷ []

  abbrev pub handle_opened : Option String → Ended F
  handle_opened (some err) = exits F (open_failed err) 1
  handle_opened none = before F (opens_handle fl.iface ∷ []) (
      if not (fl.filter_expr == "")
      then filter_applied (apply_bpf_filter (some a.handle) fl.filter_expr).0
      else filter_applied none)

  -- Mode 2
  unfoldable pub live_mode : Ended F
  live_mode =
      if fl.iface == ""
      then exits F (prints "Interface not specified.\n" ∷ list_interfaces F a) 1
      else handle_opened (a.live_error fl.iface)

  abbrev diff_or : Option (Ended F) → Ended F → Ended F
  diff_or none rest = rest
  diff_or (some ended) rest = ended

  -- `main`
  unfoldable pub main : List String → Ended F
  unfolding replay_mode live_mode
  main args =
      diff_or (handle_diff_subcommand F a args) (
        before F (load_feed F a fl) (if not (fl.replay_file == "") then replay_mode else live_mode))

-- ===== src/Console/Paint.antt =====
-- The filter dialog, the repaint of `Run` and what else changes the dashboard of
-- internal/ui/dashboard.go.
use undertow.Base.{String, true, false, Option, none, some, [], ◌∷◌}
use undertow.Base.Eq.{string_eq}
use undertow.Base.Text.{concat}
use undertow.Base.Float.{FloatOps}
use undertow.Packet.{Time}
use undertow.Narrative.{StoryTracker}
use undertow.Replay.{ReplayStatus, ReplayEngine, status}
use undertow.Panels.{top_bar, protocol_breakdown, throughput}
use undertow.Panels.Alerts.{update_story, anomaly_panel, PacketLogPanel, update_log}
use undertow.Panels.Talkers.{TableOps, update_top_talkers, selected_ip}
use undertow.Console.{
  PagesOps, KeyCode, key_rune, enter, escape, key_left, key_right, home, end_, other_key, Dashboard,
  World,
}

module _ (F : FloatOps) (P : PagesOps) (T : TableOps) where
  -- `clock` is `Format("15:04:05")`. The selected address is read in the same step.
  module _ (clock : Time → String) where
    abbrev no_status : ReplayStatus F
    no_status = record {
      is_replay = false;
      is_paused = false;
      speed = F.of_nat 0;
      current_time = 0;
      start_time = 0;
      end_time = 0;
      total_packets = 0;
      current_index = 0;
    }

    abbrev status_of : Option (ReplayEngine F) → ReplayStatus F
    status_of none = no_status
    status_of (some re) = status F re

    abbrev pub painted :
        Dashboard F P T
        → World F P T
        → Option PacketLogPanel
        → Option String
        → Option (Dashboard F P T × Option StoryTracker)
    painted d w none drawn = none
    painted d w (some log) none = none
    painted d w (some log) (some drawn) =
        let ip = selected_ip T d.talkers in
        let (panel, tracker') = update_story clock d.story_panel w.tracker ip in
        some (
          record d {
            top_bar_text =
                top_bar F clock d.iface w.snap w.now d.packet_log.paused d.bpf_filter_expr
                  (status_of d.replay_engine);
            talkers = update_top_talkers T F clock d.talkers w.snap.top_talkers;
            breakdown_text = protocol_breakdown F w.snap;
            packet_log = log;
            throughput_text = drawn;
            anomaly_text = anomaly_panel clock w.snap.anomalies;
            story_panel = panel;
          },
          tracker',
        )

    -- One repaint of `Run`; `none` is a panic.
    unfoldable pub repaint :
        Dashboard F P T → World F P T → Option (Dashboard F P T × Option StoryTracker)
    repaint d w = painted d w (update_log d.packet_log w.log_text) (throughput F w.snap)

  abbrev pub apply_to : Option (String → Option String) → String → Option String
  apply_to none expr = none
  apply_to (some apply_filter) expr = apply_filter expr

  abbrev pub applied : Dashboard F P T → Option String → Dashboard F P T
  applied d (some err) = record d { filter_error = concat ("[red]Error: " ∷ err ∷ "[white]" ∷ []) }
  applied d none = record d {
    bpf_filter_expr = d.filter_text;
    pages = P.hide_page d.pages "filterModal";
  }

  -- The function that the filter's input field calls when a key ends the input.
  unfoldable pub filter_done : Dashboard F P T → KeyCode → Dashboard F P T
  filter_done d enter = applied d (apply_to d.apply_filter_func d.filter_text)
  filter_done d escape = record d { pages = P.hide_page d.pages "filterModal" }
  filter_done d key_rune = d
  filter_done d key_left = d
  filter_done d key_right = d
  filter_done d home = d
  filter_done d end_ = d
  filter_done d other_key = d

  -- The answer to a question arrives.
  unfoldable pub answered : Dashboard F P T → String → Dashboard F P T
  answered d summary = record d { ai_text = summary }

  -- The context is done.
  unfoldable pub cancelled : Dashboard F P T → Dashboard F P T
  cancelled d = record d { stopped = true }

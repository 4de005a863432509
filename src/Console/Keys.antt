-- ===== src/Console/Keys.antt =====
-- The keys of the dashboard: the input capture that `setupKeybindings` of internal/ui/dashboard.go
-- installs.
use undertow.Base.{
  ℕ, String, Bool, true, false, ◌||◌, Option, none, some, [], ◌∷◌, ◌++◌, nat_eq, if◌then◌else◌,
}
use undertow.Base.Eq.{◌==◌, string_eq}
use undertow.Base.Int.{pos, negsuc}
use undertow.Base.Text.{concat}
use undertow.Base.Float.{FloatOps}
use undertow.Packet.{Time}
use undertow.Narrative.{StoryTracker}
use undertow.Replay.{
  ReplayEngine, toggle_pause, set_speed, cycle_speed, step_sec, jump_start, jump_end,
}
use undertow.Panels.Alerts.{update_story, update_process_list, toggle_log}
use undertow.Panels.Network.{topology_view}
use undertow.Panels.Talkers.{TableOps, selected_ip}
use undertow.Report.Page.{generate_html_report}
use undertow.Console.{
  PagesOps, KeyCode, key_rune, enter, escape, key_left, key_right, home, end_, other_key, KeyEvent,
  topo_view, proc_view, ai_view, filter_input, story_view, is_rune, is_info_page, closes, Dashboard,
  World,
}

module _ (F : FloatOps) (P : PagesOps) (T : TableOps) where
  pub record Pressed : Type 0 where
    pub dashboard : Dashboard F P T
    pub tracker : Option StoryTracker
    -- The handler returns the event: it goes on to the widget with the focus.
    pub passed_on : Bool

  abbrev passed : Dashboard F P T → World F P T → Pressed
  passed d w = record { dashboard = d; tracker = w.tracker; passed_on = true }

  abbrev pub consumed : Dashboard F P T → World F P T → Pressed
  consumed d w = record { dashboard = d; tracker = w.tracker; passed_on = false }

  -- The keys that move the replay: none for another key, none inside for a panic.
  unfoldable pub replay_key : ReplayEngine F → KeyCode → Option (Option (ReplayEngine F))
  replay_key re key_right = some (step_sec F re (pos 5))
  replay_key re key_left = some (step_sec F re (negsuc 4))
  replay_key re home = some (some (jump_start F re))
  replay_key re end_ = some (some (jump_end F re))
  replay_key re key_rune = none
  replay_key re enter = none
  replay_key re escape = none
  replay_key re other_key = none

  abbrev with_engine : Dashboard F P T → ReplayEngine F → Dashboard F P T
  with_engine d re = record d { replay_engine = some re }

  unfoldable press_space : Dashboard F P T → Option (ReplayEngine F) → Dashboard F P T
  press_space d none = record d { packet_log = (toggle_log d.packet_log).1 }
  press_space d (some re) = with_engine d (toggle_pause F re).1

  unfoldable press_plus : Dashboard F P T → Option (ReplayEngine F) → Dashboard F P T
  press_plus d none = d
  press_plus d (some re) = with_engine d (cycle_speed F re).1

  unfoldable press_minus : Dashboard F P T → Option (ReplayEngine F) → Dashboard F P T
  press_minus d none = d
  press_minus d (some re) = with_engine d (set_speed F re (F.of_nat 1))

  unfoldable pub press_g : Dashboard F P T → World F P T → Dashboard F P T
  press_g d w = record d {
    topology_text = topology_view F w.snap;
    pages = P.show_page d.pages "topoModal";
    focus = topo_view;
  }

  unfoldable press_p : Dashboard F P T → World F P T → Dashboard F P T
  press_p d w = record d {
    process_panel = update_process_list w.system w.now d.process_panel;
    pages = P.show_page d.pages "procModal";
    focus = proc_view;
  }

  unfoldable press_a : Dashboard F P T → World F P T → Dashboard F P T
  press_a d w = record d {
    ai_text =
        "[yellow]🤖 Connecting to local AI engine (Ollama)... Generating Incident Response Summary...[white]\n";
    pages = P.show_page d.pages "aiModal";
    focus = ai_view;
    questions =
        d.questions
        ++ record {
          host = selected_ip T d.talkers;
          story = d.story_panel.text;
          anomalies = w.snap.anomalies;
        }
          ∷ [];
  }

  unfoldable press_slash : Dashboard F P T → Dashboard F P T
  press_slash d = record d {
    filter_text = d.bpf_filter_expr;
    filter_error = "";
    pages = P.show_page d.pages "filterModal";
    focus = filter_input;
  }

  abbrev export_line : String → Option String → String
  export_line file none =
      concat (" [bold green]EXPORT SUCCESS:[white] Report saved to " ∷ file ∷ [])
  export_line file (some err) = concat (" [bold red]EXPORT ERROR:[white] " ∷ err ∷ [])

  -- `clock` is `Format("15:04:05")`, `stamp` is `Format("150405")`, `date` has the date and the zone.
  module _ (clock stamp date : Time → String) where
    unfoldable press_e : Dashboard F P T → World F P T → Pressed
    press_e d w =
        let file = concat ("netwatch_report_" ∷ stamp w.now ∷ ".html" ∷ []) in
        let (err, tracker') =
          generate_html_report clock date F w.output w.snap w.tracker d.iface d.bpf_filter_expr
            d.redact_ips file w.now in
        record {
          dashboard = record d { top_bar_text = export_line file err };
          tracker = tracker';
          passed_on = false;
        }

    unfoldable press_s : Dashboard F P T → World F P T → Pressed
    press_s d w =
        let (panel, tracker') =
          update_story clock d.story_panel w.tracker (selected_ip T d.talkers) in
        record {
          dashboard = record d {
            story_panel = panel;
            pages = P.show_page d.pages "storyModal";
            focus = story_view;
          };
          tracker = tracker';
          passed_on = false;
        }

    abbrev is : ℕ → ℕ → ℕ → Bool
    is rune a b = nat_eq rune a || nat_eq rune b

    -- The `switch` over the runes.
    unfoldable pub press_rune : Dashboard F P T → World F P T → ℕ → Pressed
    unfolding press_space press_plus press_minus press_g press_p press_a press_e press_slash press_s
    press_rune d w rune =
        if nat_eq rune b' '
        then consumed (press_space d d.replay_engine) w
        else if is rune b'+' b'='
        then consumed (press_plus d d.replay_engine) w
        else if is rune b'-' b'_'
        then consumed (press_minus d d.replay_engine) w
        else if is rune b'g' b'G'
        then consumed (press_g d w) w
        else if nat_eq rune b'P'
        then consumed (press_p d w) w
        else if is rune b'a' b'A'
        then consumed (press_a d w) w
        else if is rune b'e' b'E'
        then press_e d w
        else if is rune b'q' b'Q'
        then consumed (record d { stopped = true }) w
        else if nat_eq rune b'p'
        then consumed (record d { packet_log = (toggle_log d.packet_log).1 }) w
        else if nat_eq rune b'/'
        then consumed (press_slash d) w
        else if is rune b's' b'S' || is rune b'n' b'N'
        then press_s d w
        else passed d w

    abbrev pub press_other : Dashboard F P T → World F P T → KeyEvent → Pressed
    press_other d w ev = if is_rune ev.code then press_rune d w ev.rune else passed d w

    abbrev pub press_moved :
        Dashboard F P T → World F P T → KeyEvent → Option (Option (ReplayEngine F)) → Option Pressed
    press_moved d w ev none = some (press_other d w ev)
    press_moved d w ev (some none) = none
    press_moved d w ev (some (some re)) = some (consumed (with_engine d re) w)

    abbrev pub press_main :
        Dashboard F P T → World F P T → KeyEvent → Option (ReplayEngine F) → Option Pressed
    press_main d w ev none = some (press_other d w ev)
    press_main d w ev (some re) = press_moved d w ev (replay_key re ev.code)

    abbrev pub press_info : Dashboard F P T → World F P T → KeyEvent → String → Pressed
    press_info d w ev front =
        if closes ev
        then consumed (record d { pages = P.hide_page d.pages front }) w
        else passed d w

    -- The input capture of `setupKeybindings`; `none` is a panic.
    unfoldable pub press : Dashboard F P T → World F P T → KeyEvent → Option Pressed
    unfolding replay_key press_rune
    press d w ev =
        let front = P.front_page d.pages in
        if front == "filterModal"
        then some (passed d w)
        else if is_info_page front
        then some (press_info d w ev front)
        else press_main d w ev d.replay_engine

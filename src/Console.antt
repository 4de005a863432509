-- ===== src/Console.antt =====
-- internal/ui/dashboard.go: the keys of the dashboard, its dialogs and its repaint. `tview.Pages` is
-- a parameter; the layout of the boxes is left out. A key handler runs on the one thread of tview,
-- so it is one step.
pub mod Pages
pub mod Keys
pub mod Paint
pub mod Modal
pub mod Run
pub mod Outcome
use undertow.Base.{
  ℕ, String, Bool, true, false, ◌&&◌, ◌||◌, Option, none, some, List, [], ◌∷◌, ◌++◌, nat_eq,
  if◌then◌else◌,
}
use undertow.Base.Eq.{◌==◌, string_eq}
use undertow.Base.Int.{ℤ, pos, negsuc}
use undertow.Base.Text.{concat}
use undertow.Base.Float.{FloatOps}
use undertow.Packet.{Time, AnomalyEvent}
use undertow.Narrative.{StoryTracker}
use undertow.Stats.{Snapshot}
use undertow.Process.{System}
use undertow.Replay.{
  ReplayStatus, ReplayEngine, status, toggle_pause, set_speed, cycle_speed, step_sec, jump_start,
  jump_end,
}
use undertow.Panels.{top_bar, protocol_breakdown, throughput}
use undertow.Panels.Alerts.{
  StoryPanel, new_story_panel, update_story, anomaly_panel, ProcessListPanel,
  new_process_list_panel, update_process_list, PacketLogPanel, new_packet_log_panel, toggle_log,
}
use undertow.Panels.Network.{topology_view}
use undertow.Panels.Talkers.{TableOps, new_top_talkers, update_top_talkers, selected_ip}
use undertow.Report.{Output}
use undertow.Report.Page.{generate_html_report}

-- The pages of `tview.Pages`, by name.
pub record PagesOps : Type 1 where
  pub Pages : Type 0
  pub new_pages : Pages
  pub add_page : Pages → String → Bool → Pages
  pub show_page : Pages → String → Pages
  pub hide_page : Pages → String → Pages
  pub front_page : Pages → String

-- The code of a key; `other_key` is one that no handler asks for.
pub data KeyCode : Type 0 where
  key_rune enter escape key_left key_right home end_ other_key : KeyCode

-- tcell promises the rune of an event only where its code is that of runes.
pub record KeyEvent : Type 0 where
  pub code : KeyCode
  pub rune : ℕ

-- What has the focus since the last `SetFocus`.
pub data Widget : Type 0 where
  root topo_view proc_view ai_view filter_input story_view : Widget

-- A question to the AI client, which a goroutine puts.
pub record Question : Type 0 where
  pub host : String
  pub story : String
  pub anomalies : List AnomalyEvent

abbrev is_escape : KeyCode → Bool
is_escape escape = true
is_escape code = false

abbrev pub is_rune : KeyCode → Bool
is_rune key_rune = true
is_rune code = false

-- The dialogs that a key closes.
abbrev pub is_info_page : String → Bool
is_info_page page =
    page == "storyModal" || (page == "topoModal" || (page == "procModal" || page == "aiModal"))

-- The keys that close them.
abbrev pub closes : KeyEvent → Bool
closes ev =
    is_escape ev.code
    || (nat_eq ev.rune b'g'
        || (nat_eq ev.rune b'P' || (nat_eq ev.rune b'A' || nat_eq ev.rune b'a')))

module _ (F : FloatOps) (P : PagesOps) (T : TableOps) where
  pub record Dashboard : Type 0 where
    pub pages : P.Pages
    pub focus : Widget
    pub iface : String
    pub top_bar_text : String
    pub talkers : T.Table
    pub breakdown_text : String
    pub packet_log : PacketLogPanel
    pub throughput_text : String
    pub anomaly_text : String
    pub story_panel : StoryPanel
    pub process_panel : ProcessListPanel
    pub topology_text : String
    pub bpf_filter_expr : String
    -- The error of a filter; none where the function is nil.
    pub apply_filter_func : Option (String → Option String)
    pub redact_ips : Bool
    pub replay_engine : Option (ReplayEngine F)
    pub filter_text : String
    pub filter_error : String
    pub ai_text : String
    pub questions : List Question
    pub stopped : Bool

  -- The latest snapshot with the tracker that it points to, and what the system and the clock say.
  pub record World : Type 0 where
    pub snap : Snapshot
    pub tracker : Option StoryTracker
    pub system : System
    pub output : Output
    -- What the packet log draws of the snapshot, none where that panics.
    pub log_text : Option String
    pub now : Time

  -- `NewDashboard`. No page "procModal" is added: `setupProcModal` breaks off before it would add one.
  unfoldable pub new_dashboard :
      String
      → String
      → Option (String → Option String)
      → Bool
      → Option (ReplayEngine F)
      → System
      → Time
      → Dashboard
  new_dashboard iface initial_filter apply_filter redact_ips engine sys now = record {
    pages =
        P.add_page
          (P.add_page
            (P.add_page (P.add_page (P.add_page P.new_pages "main" true) "filterModal" false)
              "storyModal" false)
            "topoModal" false)
          "aiModal" false;
    focus = root;
    iface = iface;
    top_bar_text = "";
    talkers = new_top_talkers T;
    breakdown_text = "";
    packet_log = new_packet_log_panel;
    throughput_text = "";
    anomaly_text = " [green]✓ No anomalies flagged[white]";
    story_panel = new_story_panel redact_ips;
    process_panel = new_process_list_panel sys now;
    topology_text = "";
    bpf_filter_expr = initial_filter;
    apply_filter_func = apply_filter;
    redact_ips = redact_ips;
    replay_engine = engine;
    filter_text = initial_filter;
    filter_error = "";
    ai_text = "";
    questions = [];
    stopped = false;
  }

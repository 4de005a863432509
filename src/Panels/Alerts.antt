-- ===== src/Panels/Alerts.antt =====
-- The panels of internal/ui that show alerts, stories, processes and the packet log. `Update` of
-- What PacketLogPanel draws is left out: it is broken off in the middle and uses undeclared variables.
use undertow.Base.{
  String, Bool, false, not, ◌||◌, Option, none, some, List, [], ◌∷◌, map, nat_eq, if◌then◌else◌,
  length, last,
}
use mathlib.Core.List.{reverse}
use undertow.Base.Eq.{◌==◌, string_eq}
use undertow.Base.Text.{concat, pad_right}
use undertow.Base.Strings.{to_lower, contains}
use undertow.Base.Numerals.{int_text}
use undertow.Packet.{Time, Ip, AnomalyEvent, PacketInfo}
use undertow.Narrative.{StoryTracker}
use undertow.Narrative.Story.{generate_narrative}
use undertow.Process.{FlowProcessInfo, Tracker, System}
use undertow.Process.Refresh.{refresh, new_tracker, get_process_matrix}

abbrev kind_color : String → String
kind_color kind =
    if kind == "PORT_SCAN"
    then "[bold orange]"
    else if kind == "LARGE_TRANSFER"
    then "[bold yellow]"
    else if kind == "BEHAVIORAL_DEVIATION"
    then "[bold magenta]"
    else "[bold red]"

-- The events that AnomalyPanel lists: the last three, the latest first.
unfoldable pub listed_events : List AnomalyEvent → List AnomalyEvent
listed_events events = reverse (last 3 events)

pub record StoryPanel : Type 0 where
  pub redact_ips : Bool
  pub title : String
  pub text : String

-- `NewStoryPanel`
abbrev pub new_story_panel : Bool → StoryPanel
new_story_panel redact_ips = record {
  redact_ips = redact_ips;
  title = " Host Flow Story Narrative (Press 'n' to select host) ";
  text =
      " Select an IP in the Top Talkers table and press 'n' or switch tab to generate narrative.";
}

module _ (clock : Time → String) where
  abbrev event_line : AnomalyEvent → String
  event_line evt = concat (
      " "
      ∷ clock evt.timestamp
      ∷ " "
      ∷ kind_color evt.kind
      ∷ pad_right 20 evt.kind
      ∷ "[white] Src: [cyan]"
      ∷ pad_right 15 evt.source_ip
      ∷ "[white] | "
      ∷ evt.detail
      ∷ "\n"
      ∷ [])

  -- `AnomalyPanel.Update`
  unfoldable pub anomaly_panel : List AnomalyEvent → String
  anomaly_panel events =
      if nat_eq (length events) 0
      then " [green]✓ No anomalies flagged[white]"
      else concat (map event_line (listed_events events))

  abbrev tell_selected : StoryPanel → StoryTracker → String → StoryPanel × Option StoryTracker
  tell_selected sp tracker selected_ip =
      let (narrative, tracker') = generate_narrative clock tracker selected_ip sp.redact_ips in
      (
        record sp {
          title = concat (" Flow Story Narrative: " ∷ selected_ip ∷ " " ∷ []);
          text = narrative;
        },
        some tracker',
      )

  -- `StoryPanel.Update`: the panel and the tracker that the snapshot points to, which telling with
  -- redaction changes.
  unfoldable pub update_story :
      StoryPanel → Option StoryTracker → String → StoryPanel × Option StoryTracker
  update_story sp none selected_ip =
      if selected_ip == ""
      then (
        record sp {
          text = " Select an IP row in the Top Talkers table above to generate narrative.";
        },
        none,
      )
      else (sp, none)
  update_story sp (some tracker) selected_ip =
      if selected_ip == ""
      then (
        record sp {
          text = " Select an IP row in the Top Talkers table above to generate narrative.";
        },
        some tracker,
      )
      else tell_selected sp tracker selected_ip

abbrev or_text : String → String → String
or_text s default_text = if s == "" then default_text else s

abbrev process_line : FlowProcessInfo → String
process_line p = concat (
    "  ["
    ∷ pad_right 5 (int_text p.pid)
    ∷ "]  [cyan]"
    ∷ pad_right 22 p.process_name
    ∷ "[white]  [yellow]"
    ∷ pad_right 12 (or_text p.user "root")
    ∷ "[white]  "
    ∷ or_text p.executable_path "-"
    ∷ "\n"
    ∷ [])

pub record ProcessListPanel : Type 0 where
  pub text : String
  pub tracker : Tracker

-- `NewProcessListPanel`
abbrev pub new_process_list_panel : System → Time → ProcessListPanel
new_process_list_panel sys now = record { text = ""; tracker = new_tracker sys now }

unfoldable process_text : List FlowProcessInfo → String
process_text procs = concat (
    concat (
      "  [PID]    "
      ∷ pad_right 22 "PROCESS NAME"
      ∷ "  "
      ∷ pad_right 12 "USER"
      ∷ "  [EXECUTABLE PATH / DETAILS]\n"
      ∷ [])
    ∷ "  ------------------------------------------------------------------------------------\n"
    ∷ (if nat_eq (length procs) 0
        then "  No active socket process mappings detected (requires root or lsof/netstat permissions).\n"
        else concat (map process_line procs))
    ∷ [])

-- `ProcessListPanel.Update`
unfoldable pub update_process_list : System → Time → ProcessListPanel → ProcessListPanel
unfolding process_text
update_process_list sys now panel =
    let tracker = refresh sys panel.tracker now in
    record { text = process_text (get_process_matrix tracker); tracker = tracker }

pub record PacketLogPanel : Type 0 where
  pub paused : Bool
  pub title : String
  pub text : String

-- `NewPacketLogPanel`
abbrev pub new_packet_log_panel : PacketLogPanel
new_packet_log_panel = record {
  paused = false;
  title = " Live Packet Stream (Press 'p' to pause/scroll) ";
  text = "";
}

-- The guard of `PacketLogPanel.Update`. What it draws is an argument, since its text is broken off in
-- the source: none where it panics.
abbrev with_text : PacketLogPanel → Option String → Option PacketLogPanel
with_text pl none = none
with_text pl (some text) = some (record pl { text = text })

unfoldable pub update_log : PacketLogPanel → Option String → Option PacketLogPanel
update_log pl drawn = if pl.paused then some pl else with_text pl drawn

-- `TogglePause`
unfoldable pub toggle_log : PacketLogPanel → Bool × PacketLogPanel
toggle_log pl = (
  not pl.paused,
  record pl {
    paused = not pl.paused;
    title =
        if not pl.paused
        then " Live Packet Stream [PAUSED] (Press 'p' to resume) "
        else " Live Packet Stream (Press 'p' to pause/scroll) ";
  },
)

abbrev address_contains : Ip → String → Bool
address_contains none text = false
address_contains (some ip) text = contains ip text

-- `matchesInAppFilter`
unfoldable matches_in_app_filter : PacketInfo → String → Bool
matches_in_app_filter pkt filter_str =
    let lower = to_lower filter_str in
    contains (to_lower pkt.protocol) lower
    || (address_contains pkt.src_ip lower
        || (address_contains pkt.dst_ip lower
            || (contains (to_lower pkt.dns_query) lower
                || contains (to_lower pkt.http_host) lower)))

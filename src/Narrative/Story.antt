-- ===== src/Narrative/Story.antt =====
-- `GenerateNarrative` of internal/narrative/story.go: the story told from a host's timeline.
use undertow.Base.{
  ℕ, ◌+◌, String, Bool, true, false, not, ◌&&◌, Option, none, some, List, [], ◌∷◌, ◌++◌, ltb,
  nat_eq, if◌then◌else◌, length,
}
use undertow.Base.Eq.{string_eq}
use undertow.Base.Dict.{get}
use undertow.Base.Sort.{sort, asc}
use undertow.Base.Text.{concat, dec}
use undertow.Packet.{Time}
use undertow.Narrative.{
  EventType, TimelineEvent, HostTimeline, StoryTracker, format_ip, warning_sign, dns_query,
  tcp_handshake, tcp_close, tcp_reset, large_data, security_alert,
}

-- What the loop of `GenerateNarrative` gathers.
pub record Gathered : Type 0 where
  pub tracker : StoryTracker
  pub text : String
  pub dns_queries : List String
  pub conn_targets : List String
  pub anomaly_count : ℕ
  pub has_reset : Bool
  pub has_normal_close : Bool

-- `clock` is `Format("15:04:05")`, which depends on the time zone.
module _ (clock : Time → String) where
  -- The `switch` on the type of an event.
  unfoldable pub tell : Gathered → TimelineEvent → String → EventType → Gathered
  tell g evt dst dns_query = record g {
    dns_queries = g.dns_queries ++ evt.detail ∷ [];
    text = concat (
        g.text
        ∷ "• ["
        ∷ clock evt.timestamp
        ∷ "] Resolved domain '"
        ∷ evt.detail
        ∷ "' via DNS.\n"
        ∷ []);
  }
  tell g evt dst tcp_handshake = record g {
    conn_targets = g.conn_targets ++ concat (dst ∷ ":" ∷ dec evt.dst_port ∷ []) ∷ [];
    text = concat (
        g.text
        ∷ "• ["
        ∷ clock evt.timestamp
        ∷ "] Opened TCP connection to "
        ∷ dst
        ∷ ":"
        ∷ dec evt.dst_port
        ∷ ".\n"
        ∷ []);
  }
  tell g evt dst tcp_close = record g {
    has_normal_close = true;
    text = concat (
        g.text
        ∷ "• ["
        ∷ clock evt.timestamp
        ∷ "] Closed connection to "
        ∷ dst
        ∷ ":"
        ∷ dec evt.dst_port
        ∷ " normally (FIN).\n"
        ∷ []);
  }
  tell g evt dst tcp_reset = record g {
    has_reset = true;
    text = concat (
        g.text
        ∷ "• ["
        ∷ clock evt.timestamp
        ∷ "] Connection to "
        ∷ dst
        ∷ ":"
        ∷ dec evt.dst_port
        ∷ " was RESET (RST).\n"
        ∷ []);
  }
  tell g evt dst security_alert = record g {
    anomaly_count = g.anomaly_count + 1;
    text = concat (
        g.text
        ∷ "• ["
        ∷ clock evt.timestamp
        ∷ "] "
        ∷ warning_sign
        ∷ " SECURITY ALERT: "
        ∷ evt.detail
        ∷ "\n"
        ∷ []);
  }
  tell g evt dst large_data = g

  unfoldable pub gather : Bool → Gathered → List TimelineEvent → Gathered
  unfolding tell
  gather redact_ips g [] = g
  gather redact_ips g (evt ∷ events) =
      let (dst, tracker) = format_ip g.tracker evt.dst_ip redact_ips in
      gather redact_ips (tell (record g { tracker = tracker }) evt dst evt.type) events

  -- "resolved n domain(s) (e.g. d)", by the list of queries
  unfoldable pub queries_text : List String → String
  queries_text [] = "engaged in direct IP communications"
  queries_text (q ∷ qs) =
      concat ("resolved " ∷ dec (length (q ∷ qs)) ∷ " domain(s) (e.g. " ∷ q ∷ ")" ∷ [])

  unfoldable pub conclusion : Gathered → String → String
  conclusion g host = concat (
      "\nSummary Narrative:\n"
      ∷ "Host "
      ∷ host
      ∷ " "
      ∷ queries_text g.dns_queries
      ∷ (if ltb 0 (length g.conn_targets)
          then concat (
              " and initiated TCP sessions with "
              ∷ dec (length g.conn_targets)
              ∷ " target endpoint(s). "
              ∷ [])
          else ". ")
      ∷ (if g.has_normal_close && not g.has_reset
          then "Sessions closed cleanly. "
          else if g.has_reset
          then "Noticeable TCP resets (RST) were observed during the session. "
          else "")
      ∷ (if ltb 0 g.anomaly_count
          then concat (
              warning_sign
              ∷ " WARNING: "
              ∷ dec g.anomaly_count
              ∷ " security anomaly event(s) were flagged for this host!"
              ∷ [])
          else "✓ No security anomalies flagged for this host.")
      ∷ [])

  unfoldable pub nothing_yet : StoryTracker → String → Bool → String × StoryTracker
  nothing_yet st ip redact_ips =
      let (host, st') = format_ip st ip redact_ips in
      (concat ("No detailed timeline activity recorded yet for host " ∷ host ∷ "." ∷ []), st')

  -- The story of a timeline that has events.
  unfoldable pub tell_story : StoryTracker → HostTimeline → String → Bool → String × StoryTracker
  tell_story st tl ip redact_ips =
      let (host, st') = format_ip st ip redact_ips in
      let start : Gathered = record {
        tracker = st';
        text = concat (
            "Host "
            ∷ host
            ∷ " activity narrative (Active since "
            ∷ clock tl.first_seen
            ∷ "):\n\n"
            ∷ []);
        dns_queries = [];
        conn_targets = [];
        anomaly_count = 0;
        has_reset = false;
        has_normal_close = false;
      } in
      let g = gather redact_ips start (sort (asc (λ (e : TimelineEvent). e.timestamp)) tl.events) in
      (concat (g.text ∷ conclusion g host ∷ []), g.tracker)

  unfoldable pub story_from :
      StoryTracker → String → Bool → Option HostTimeline → String × StoryTracker
  story_from st ip redact_ips none = nothing_yet st ip redact_ips
  story_from st ip redact_ips (some tl) =
      if nat_eq (length tl.events) 0
      then nothing_yet st ip redact_ips
      else tell_story st tl ip redact_ips

  -- `GenerateNarrative`
  unfoldable pub generate_narrative : StoryTracker → String → Bool → String × StoryTracker
  unfolding story_from
  generate_narrative st ip redact_ips = story_from st ip redact_ips (get st.timelines ip)

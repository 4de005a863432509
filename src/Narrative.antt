-- ===== src/Narrative.antt =====
-- internal/narrative/story.go: the timelines of the hosts and the story told from one of them.
-- Telling a story hands out aliases, so it returns the tracker too.
pub mod Timeline
pub mod Alias
pub mod Story
pub mod Reading
use Prim.Native.Char.{char}
use Prim.Native.String
use undertow.Base.{
  ℕ, ◌+◌, ◌-◌, ◌%◌, String, Bool, true, false, not, ◌&&◌, ◌||◌, Option, none, some, List, [], ◌∷◌,
  ◌++◌, ltb, leb, nat_eq, if◌then◌else◌, length, drop, get_or,
}
use undertow.Base.Eq.{◌==◌, string_eq}
use undertow.Base.Dict.{Dict, get, put, or_else}
use undertow.Base.Sort.{sort, asc}
use undertow.Base.Text.{concat, dec}
use undertow.Packet.{Time, ip_string, AnomalyEvent, PacketInfo}

pub data EventType : Type 0 where
  dns_query tcp_handshake tcp_close tcp_reset large_data security_alert : EventType

pub record TimelineEvent : Type 0 where
  pub timestamp : Time
  pub type : EventType
  pub src_ip : String
  pub dst_ip : String
  pub dst_port : ℕ
  pub detail : String
  pub bytes : ℕ

pub record HostTimeline : Type 0 where
  pub ip : String
  pub first_seen : Time
  pub last_seen : Time
  pub events : List TimelineEvent

pub record StoryTracker : Type 0 where
  pub timelines : Dict String HostTimeline
  pub ip_alias : Dict String String
  pub alias_seq : ℕ

abbrev pub new_story_tracker : StoryTracker
new_story_tracker = record { timelines = []; ip_alias = []; alias_seq = 0 }

-- `addEvent`: at most 50 events, the oldest goes first.
unfoldable pub add_event : HostTimeline → TimelineEvent → HostTimeline
add_event tl evt =
    let kept = if leb 50 (length tl.events) then drop 1 tl.events else tl.events in
    record tl { events = kept ++ evt ∷ [] }

-- The timeline of a host, made at its first event, and marked as seen now.
unfoldable pub touch : StoryTracker → String → Time → HostTimeline
touch st ip now =
    let tl =
      or_else (get st.timelines ip)
        (record { ip = ip; first_seen = now; last_seen = 0; events = [] }) in
    record tl { last_seen = now }

abbrev packet_event : PacketInfo → EventType → String → String → TimelineEvent
packet_event pkt type src_ip detail = record {
  timestamp = pkt.timestamp;
  type = type;
  src_ip = src_ip;
  dst_ip = ip_string pkt.dst_ip;
  dst_port = pkt.dst_port;
  detail = detail;
  bytes = 0;
}

-- The events that a packet gives, in the order of the tests in `RecordPacket`.
unfoldable pub packet_events : PacketInfo → String → List TimelineEvent
packet_events pkt src_ip =
    (if pkt.protocol == "DNS" && not (pkt.dns_query == "")
      then record {
        timestamp = pkt.timestamp;
        type = dns_query;
        src_ip = src_ip;
        dst_ip = "";
        dst_port = 0;
        detail = pkt.dns_query;
        bytes = 0;
      }
        ∷ []
      else [])
    ++ ((if pkt.protocol == "TCP" && (pkt.tcp_flags.syn && not pkt.tcp_flags.ack)
          then packet_event pkt tcp_handshake src_ip "TCP SYN handshake initiated" ∷ []
          else [])
        ++ ((if pkt.protocol == "TCP" && pkt.tcp_flags.fin
              then packet_event pkt tcp_close src_ip "Connection closed normally (FIN)" ∷ []
              else [])
            ++ (if pkt.protocol == "TCP" && pkt.tcp_flags.rst
                then packet_event pkt tcp_reset src_ip "Connection reset forcibly (RST)" ∷ []
                else [])))

unfoldable pub add_events : HostTimeline → List TimelineEvent → HostTimeline
unfolding add_event
add_events tl [] = tl
add_events tl (e ∷ es) = add_events (add_event tl e) es

pub record_from : StoryTracker → PacketInfo → Option String → StoryTracker
record_from st pkt none = st
record_from st pkt (some src_ip) = record st {
  timelines =
      put st.timelines src_ip
        (add_events (touch st src_ip pkt.timestamp) (packet_events pkt src_ip));
}

-- `RecordPacket`
unfoldable pub record_packet : StoryTracker → PacketInfo → StoryTracker
unfolding record_from
record_packet st pkt = record_from st pkt pkt.src_ip

unfoldable pub anomaly_event : AnomalyEvent → TimelineEvent
anomaly_event evt = record {
  timestamp = evt.timestamp;
  type = security_alert;
  src_ip = evt.source_ip;
  dst_ip = "";
  dst_port = 0;
  detail = concat ("[" ∷ evt.kind ∷ "] " ∷ evt.detail ∷ []);
  bytes = 0;
}

-- `RecordAnomaly`
unfoldable pub record_anomaly : StoryTracker → AnomalyEvent → StoryTracker
record_anomaly st evt = if evt.source_ip == "" then st else record st {
  timelines =
      put st.timelines evt.source_ip
        (add_event (touch st evt.source_ip evt.timestamp) (anomaly_event evt));
}

abbrev pub letters : List String
letters =
    "A" ∷ "B" ∷ "C" ∷ "D" ∷ "E" ∷ "F" ∷ "G" ∷ "H" ∷ "I" ∷ "J" ∷ "K" ∷ "L" ∷ "M" ∷ "N" ∷ "O" ∷ "P"
    ∷ "Q" ∷ "R" ∷ "S" ∷ "T" ∷ "U" ∷ "V" ∷ "W" ∷ "X" ∷ "Y" ∷ "Z" ∷ []

-- "HOST_%c" of `'A'+(seq-1)%26`
unfoldable pub alias_name : ℕ → String
alias_name seq = concat ("HOST_" ∷ get_or letters ((seq - 1) % 26) "" ∷ [])

-- An address without an alias gets the next one.
unfoldable pub alias_for : StoryTracker → String → Option String → String × StoryTracker
alias_for st ip (some alias) = (alias, st)
alias_for st ip none =
    let seq = st.alias_seq + 1 in
    (alias_name seq, record st { alias_seq = seq; ip_alias = put st.ip_alias ip (alias_name seq) })

-- `formatIP`
unfoldable pub format_ip : StoryTracker → String → Bool → String × StoryTracker
unfolding alias_for
format_ip st ip redact_ips =
    let named = alias_for st ip (get st.ip_alias ip) in
    if ip == "" then ("-", st) else if not redact_ips then (ip, st) else named

-- U+26A0 and the variation selector behind it
abbrev pub warning_sign : String
warning_sign = String.◌∷◌ (char 0x26a0 tt) (String.◌∷◌ (char 0xfe0f tt) String.[])

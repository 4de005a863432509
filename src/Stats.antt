-- ===== src/Stats.antt =====
-- internal/aggregator/stats.go: the counters of the aggregator and the part of AddPacket that updates
-- them. One goroutine owns the state, so each method is one step.
pub mod Manager
pub mod Account
pub mod Lookup
use undertow.Base.{
  ℕ, ◌+◌, String, Bool, true, false, not, Option, none, some, List, [], ◌∷◌, ◌++◌, if◌then◌else◌,
  add64,
}
use undertow.Base.Eq.{◌==◌, string_eq}
use undertow.Base.Dict.{Dict, get, put, values, or_else}
use undertow.Base.Sort.{sort, desc}
use undertow.Base.Float.{FloatOps}
use undertow.Packet.{
  Time, ip_string, FlowKey, flow_key_eq, FlowStat, AnomalyEvent, PacketInfo, TcpFlagSet,
}
use undertow.Ring
use undertow.Ring.{Ring, push, slice}
use undertow.Anomaly
use undertow.Anomaly.{Detector, check_packet}
use undertow.Narrative.{StoryTracker, new_story_tracker, record_packet, record_anomaly}
use undertow.Baseline
use undertow.Baseline.{HostMetrics, observe_host, new_manager, save_to_file, Load, Saved}

pub record TalkerStat : Type 0 where
  pub ip : String
  pub bytes_sent : ℕ
  pub bytes_recv : ℕ
  pub packets_sent : ℕ
  pub packets_recv : ℕ
  pub last_seen : Time

-- `TotalBytes`
abbrev pub total_bytes : TalkerStat → ℕ
total_bytes t = add64 t.bytes_sent t.bytes_recv

abbrev pub blank_talker : String → TalkerStat
blank_talker ip = record {
  ip = ip;
  bytes_sent = 0;
  bytes_recv = 0;
  packets_sent = 0;
  packets_recv = 0;
  last_seen = 0;
}

abbrev pub blank_flow : FlowKey → FlowStat
blank_flow fk = record {
  key = fk;
  bytes_sent = 0;
  packets_sent = 0;
  last_seen = 0;
  pid = 0;
  process_name = "";
  user = "";
}

-- The zero values that `make` fills a slice with.
abbrev pub blank_event : AnomalyEvent
blank_event = record { timestamp = 0; kind = ""; source_ip = ""; detail = "" }

abbrev pub blank_packet : PacketInfo
blank_packet = record {
  timestamp = 0;
  length = 0;
  src_mac = "";
  dst_mac = "";
  src_ip = none;
  dst_ip = none;
  protocol = "";
  src_port = 0;
  dst_port = 0;
  tcp_flags = record {
    syn = false;
    ack = false;
    fin = false;
    rst = false;
    psh = false;
    urg = false;
  };
  dns_query = "";
  dns_type = "";
  http_method = "";
  http_host = "";
  http_path = "";
  ja3_hash = "";
  ja3_label = "";
  ja3_raw = "";
  ja4_string = "";
  ja4_label = "";
  threat_alert = "";
  payload = [];
}

pub record Snapshot : Type 0 where
  pub timestamp : Time
  pub start_time : Time
  pub total_packets : ℕ
  pub total_bytes : ℕ
  pub dropped_packets : ℕ
  pub protocol_counts : Dict String ℕ
  pub top_talkers : List TalkerStat
  pub flows : List FlowStat
  pub throughput_history : List ℕ
  pub recent_packets : List PacketInfo
  pub anomalies : List AnomalyEvent

pub record Stats : Type 0 where
  pub start_time : Time
  pub total_packets : ℕ
  pub total_bytes : ℕ
  pub protocol_counts : Dict String ℕ
  pub top_talkers : Dict String TalkerStat
  pub flows : Dict FlowKey FlowStat
  pub throughput_ring : Ring ℕ
  pub recent_packets_ring : Ring PacketInfo
  pub anomalies_ring : Ring AnomalyEvent
  pub current_sec_bytes : ℕ

-- The totals of `AddPacket`.
unfoldable count_packet : Stats → PacketInfo → Stats
count_packet st pkt = record st {
  total_packets = add64 st.total_packets 1;
  total_bytes = add64 st.total_bytes pkt.length;
  current_sec_bytes = add64 st.current_sec_bytes pkt.length;
}

-- `ProtocolCounts[pkt.Protocol]++`
unfoldable count_protocol : Stats → PacketInfo → Stats
count_protocol st pkt = record st {
  protocol_counts =
      put st.protocol_counts pkt.protocol
        (add64 (or_else (get st.protocol_counts pkt.protocol) 0) 1);
}

unfoldable pub sent : TalkerStat → PacketInfo → TalkerStat
sent t pkt = record t {
  packets_sent = add64 t.packets_sent 1;
  bytes_sent = add64 t.bytes_sent pkt.length;
  last_seen = pkt.timestamp;
}

unfoldable pub received : TalkerStat → PacketInfo → TalkerStat
received t pkt = record t {
  packets_recv = add64 t.packets_recv 1;
  bytes_recv = add64 t.bytes_recv pkt.length;
  last_seen = pkt.timestamp;
}

-- The talker of the source address, then the one of the destination.
unfoldable pub add_source :
    Dict String TalkerStat → PacketInfo → Option String → Dict String TalkerStat
add_source talkers pkt none = talkers
add_source talkers pkt (some ip) =
    put talkers ip (sent (or_else (get talkers ip) (blank_talker ip)) pkt)

unfoldable pub add_target :
    Dict String TalkerStat → PacketInfo → Option String → Dict String TalkerStat
add_target talkers pkt none = talkers
add_target talkers pkt (some ip) =
    put talkers ip (received (or_else (get talkers ip) (blank_talker ip)) pkt)

unfoldable count_talkers : Stats → PacketInfo → Stats
unfolding add_source add_target
count_talkers st pkt = record st {
  top_talkers = add_target (add_source st.top_talkers pkt pkt.src_ip) pkt pkt.dst_ip;
}

unfoldable pub bump_flow : FlowStat → PacketInfo → FlowStat
bump_flow flow pkt = record flow {
  packets_sent = add64 flow.packets_sent 1;
  bytes_sent = add64 flow.bytes_sent pkt.length;
  last_seen = pkt.timestamp;
}

abbrev pub flow_key : PacketInfo → String → String → FlowKey
flow_key pkt src dst = record {
  src_ip = src;
  dst_ip = dst;
  src_port = pkt.src_port;
  dst_port = pkt.dst_port;
  protocol = pkt.protocol;
}

-- The flow of a packet with both addresses, made or updated, and the table with it.
unfoldable pub add_flow :
    Dict FlowKey FlowStat
    → PacketInfo
    → Option String
    → Option String
    → Option FlowStat × Dict FlowKey FlowStat
add_flow flows pkt (some src) (some dst) =
    let fk = flow_key pkt src dst in
    let flow = bump_flow (or_else (get flows fk) (blank_flow fk)) pkt in
    (some flow, put flows fk flow)
add_flow flows pkt none dst = (none, flows)
add_flow flows pkt (some src) none = (none, flows)

unfoldable count_flow : Stats → PacketInfo → Option FlowStat × Stats
unfolding add_flow
count_flow st pkt =
    let (flow, flows) = add_flow st.flows pkt pkt.src_ip pkt.dst_ip in
    (flow, record st { flows = flows })

-- All of `AddPacket` that concerns the counters: the flow goes on to the detector.
unfoldable pub count_all : Stats → PacketInfo → Option FlowStat × Stats
unfolding count_packet count_protocol count_talkers count_flow
count_all st pkt =
    let (flow, st') =
      count_flow (count_talkers (count_protocol (count_packet st pkt) pkt) pkt) pkt in
    (flow, record st' { recent_packets_ring = push st'.recent_packets_ring pkt })

-- ===== src/Examples/Data.antt =====
-- Test data: a small arithmetic of halves in place of `float64`, a few packets, a detector.
use undertow.Base.{ℕ, ◌+◌, ◌-◌, ◌*◌, ◌/◌, String, some, List, [], ◌∷◌, ltb, nat_eq}
use undertow.Base.Float.{FloatOps}
use undertow.Base.Int.{pos}
use undertow.Packet.{PacketInfo, FlowStat, AnomalyEvent}
use undertow.Stats.{blank_packet, flow_key}
use undertow.Base.Eq.{◌==◌, string_eq}
use undertow.Threat.{NetOps}
use undertow.Anomaly
use undertow.Baseline

-- A number of halves.
abbrev pub halves : FloatOps
halves = record {
  Float = ℕ;
  of_nat = λ n. 2 * n;
  add = λ a b. a + b;
  sub = λ a b. a - b;
  mul = λ a b. a * b / 2;
  div = λ a b. 2 * a / b;
  abs = λ a. a;
  sqrt = λ a. a;
  log2 = λ a. a;
  gt = λ a b. ltb b a;
  eq = nat_eq;
  truncate = λ a. pos (a / 2);
  fixed = λ n a. "";
}

abbrev packet_at : ℕ → String → String → ℕ → PacketInfo
packet_at time src dst port = record blank_packet {
  timestamp = time;
  length = 100;
  src_ip = some src;
  dst_ip = some dst;
  protocol = "TCP";
  dst_port = port;
}

abbrev pub first : PacketInfo
first = packet_at 1_000_000_000 "10.0.0.1" "10.0.0.2" 80

abbrev pub second : PacketInfo
second = packet_at 3_000_000_000 "10.0.0.1" "10.0.0.2" 443

abbrev pub third : PacketInfo
third = packet_at 9_000_000_000 "10.0.0.2" "10.0.0.1" 22

abbrev pub three : List PacketInfo
three = first ∷ second ∷ third ∷ []

abbrev pub big_flow : FlowStat
big_flow = record {
  key = flow_key first "10.0.0.1" "10.0.0.2";
  bytes_sent = 20_000_000;
  packets_sent = 3;
  last_seen = 0;
  pid = 0;
  process_name = "";
  user = "";
}

-- Two ports within ten seconds are a scan.
abbrev pub detector_config : Anomaly.Config halves
detector_config = record {
  scan_threshold = 2;
  scan_window_sec = 10;
  transfer_threshold_mb = 10;
  dns_entropy_threshold = 8;
}

abbrev pub baseline_config : Baseline.Config halves
baseline_config = record { warmup_sec = 60; alpha = 1; sigma_k = 6; file_path = "baseline.json" }

abbrev pub alert : AnomalyEvent
alert = record { timestamp = 5; kind = "PORT_SCAN"; source_ip = "10.0.0.1"; detail = "" }

-- Blocks and addresses by their text: a block holds the one address that it names.
abbrev pub exact_nets : NetOps
exact_nets = record {
  Net = String;
  Addr = String;
  parse_cidr = λ s. some s;
  parse_ip = λ s. some s;
  holds = λ net ip. net == ip;
  net_string = λ net. net;
}

-- ===== src/Examples/Reports.antt =====
-- The port map, the threat lists, the comparison and the topology at concrete inputs.
use mathlib.Core.List.{Perm}
use undertow.Base.{◌≡◌, ◌≤◌, not, ◌&&◌, ◌||◌, none, some, List, [], ◌∷◌, ◌++◌, All, length, min}
use undertow.Base.Eq.{string_eq}
use undertow.Packet.{FlowStat}
use undertow.Stats.{Snapshot, TalkerStat, blank_talker}
use undertow.Process.{System, Tracker, windows}
use undertow.Process.Refresh.{refresh}
use undertow.Process.Keys.{IsKeyed, refresh-IsKeyed}
use undertow.Threat.{Engine, ThreatFeed, match_ip, match_domain}
use undertow.Threat.Match.{add_feeds, reported_ip, reported_domain, match_after_feeds}
use undertow.Diff.{compare_loaded}
use undertow.Diff.Endpoints.{reports, talks, endpoints_exact}
use undertow.Topology.{shown_flows, Nodes, group_nodes, is_local_ip}
use undertow.Topology.Shown.{
  bytes, shown_flows_exact, is_end, in_local, in_remote, group_nodes_exact,
}
use undertow.Examples.Data.{exact_nets, halves, big_flow}

abbrev windows_system : System
windows_system = record {
  goos = windows;
  net_lines = λ path. none;
  proc_entries = none;
  comm = λ pid. "";
  exe = λ pid. "";
  status = λ pid. "";
  fd_targets = λ pid. none;
  user_name = λ id. none;
  netstat = some "TCP 0.0.0.0:135 0.0.0.0:0 LISTENING 968";
  lsof = none;
}

abbrev no_ports : Tracker
no_ports = record { port_map = []; last_lookup = 0 }

refresh-IsKeyed_example : IsKeyed (refresh windows_system no_ports 5_000_000_000).port_map
refresh-IsKeyed_example = refresh-IsKeyed windows_system no_ports 5_000_000_000 tt

abbrev no_threats : Engine exact_nets
no_threats = record { cidrs = []; exact_ips = []; c2_domains = [] }

abbrev feed : ThreatFeed
feed = record {
  ip_blocks = "203.0.113.7" ∷ [];
  c2_domains = "Evil.Example " ∷ [];
  malicious_ips = "198.51.100.9" ∷ [];
}

match_after_feeds_example :
    ((match_ip exact_nets (add_feeds exact_nets no_threats (feed ∷ [])) "203.0.113.7").0 ≡ (
      reported_ip exact_nets (feed ∷ []) "203.0.113.7"
      || (match_ip exact_nets no_threats "203.0.113.7").0))
    × ((match_domain exact_nets (add_feeds exact_nets no_threats (feed ∷ [])) "203.0.113.7").0 ≡ (
        reported_domain exact_nets (feed ∷ []) "203.0.113.7"
        || (match_domain exact_nets no_threats "203.0.113.7").0))
match_after_feeds_example = match_after_feeds exact_nets no_threats (feed ∷ []) "203.0.113.7"

abbrev snapshot_of : List TalkerStat → Snapshot
snapshot_of ts = record {
  timestamp = 0;
  start_time = 0;
  total_packets = 0;
  total_bytes = 0;
  dropped_packets = 0;
  protocol_counts = [];
  top_talkers = ts;
  flows = [];
  throughput_history = [];
  recent_packets = [];
  anomalies = [];
}

abbrev before : Snapshot
before = snapshot_of (blank_talker "10.0.0.1" ∷ blank_talker "10.0.0.2" ∷ [])

abbrev after : Snapshot
after = snapshot_of (blank_talker "10.0.0.2" ∷ blank_talker "10.0.0.3" ∷ [])

endpoints_exact_example :
    (reports (compare_loaded halves "a.json" "b.json" before after).new_endpoints "10.0.0.3"
      ≡ (talks after.top_talkers "10.0.0.3" && not (talks before.top_talkers "10.0.0.3")))
    × (reports (compare_loaded halves "a.json" "b.json" before after).removed_endpoints "10.0.0.3"
        ≡ (talks before.top_talkers "10.0.0.3" && not (talks after.top_talkers "10.0.0.3")))
endpoints_exact_example = endpoints_exact halves "a.json" "b.json" before after "10.0.0.3"

abbrev two_flows : List FlowStat
two_flows = record big_flow { bytes_sent = 5 } ∷ big_flow ∷ []

shown_flows_exact_example :
    (left : List FlowStat) × Perm (shown_flows two_flows ++ left) two_flows
    × All (λ x. All (λ y. bytes y ≤ bytes x) left) (shown_flows two_flows)
    × (length (shown_flows two_flows) ≡ min 10 2)
shown_flows_exact_example = shown_flows_exact two_flows

abbrev no_nodes : Nodes
no_nodes = record { local_nodes = []; remote_nodes = [] }

group_nodes_exact_example :
    (in_local (group_nodes no_nodes two_flows) "10.0.0.1"
      ≡ (is_local_ip "10.0.0.1" && is_end two_flows "10.0.0.1" || in_local no_nodes "10.0.0.1"))
    × (in_remote (group_nodes no_nodes two_flows) "10.0.0.1" ≡ (
        not (is_local_ip "10.0.0.1") && is_end two_flows "10.0.0.1"
        || in_remote no_nodes "10.0.0.1"))
group_nodes_exact_example = group_nodes_exact no_nodes two_flows "10.0.0.1"

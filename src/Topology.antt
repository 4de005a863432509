-- ===== src/Topology.antt =====
-- internal/topology/graph.go: the map of the flows of a snapshot as text.
pub mod Shown
use undertow.Base.{
  ℕ, ◌*◌, String, Bool, true, ◌||◌, List, [], ◌∷◌, ◌++◌, map, ltb, leb, nat_eq, if◌then◌else◌,
  length, take, min,
}
use undertow.Base.Eq.{string_eq}
use undertow.Base.Dict.{Dict, put}
use undertow.Base.Sort.{sort, desc}
use undertow.Base.Text.{concat, dec, pad_right}
use undertow.Base.Strings.{has_prefix}
use undertow.Base.Float.{FloatOps}
use undertow.Packet.{FlowStat}
use undertow.Anomaly
use undertow.Stats.{Snapshot}

-- `isLocalIP`
unfoldable pub is_local_ip : String → Bool
is_local_ip ip =
    has_prefix ip "192.168."
    || (has_prefix ip "10." || (has_prefix ip "172.16." || has_prefix ip "127."))

-- The flows that are shown: those with the most bytes, ten at most.
unfoldable pub shown_flows : List FlowStat → List FlowStat
shown_flows flows =
    take (min 10 (length flows)) (sort (desc (λ (f : FlowStat). f.bytes_sent)) flows)

pub record Nodes : Type 0 where
  pub local_nodes : Dict String Bool
  pub remote_nodes : Dict String Bool

unfoldable pub add_node : Nodes → String → Nodes
add_node n ip =
    if is_local_ip ip
    then record n { local_nodes = put n.local_nodes ip true }
    else record n { remote_nodes = put n.remote_nodes ip true }

-- The loop that groups the ends of the flows.
unfoldable pub group_nodes : Nodes → List FlowStat → Nodes
unfolding add_node
group_nodes n [] = n
group_nodes n (f ∷ fs) = group_nodes (add_node (add_node n f.key.src_ip) f.key.dst_ip) fs

unfoldable arrow : ℕ → String
arrow bytes =
    if ltb (10 * 1024 * 1024) bytes
    then "<=====>"
    else if ltb (1024 * 1024) bytes
    then "======>"
    else if ltb (100 * 1024) bytes
    then "----->"
    else "────>"

abbrev node_line : String × Bool → String
node_line (ip, b) = concat ("  │  [💻 " ∷ pad_right 15 ip ∷ "]     │\n" ∷ [])

module _ (F : FloatOps) where
  -- `formatBytes`, the same text as in the detector
  unfoldable pub format_bytes : ℕ → String
  format_bytes bytes =
      if leb (1024 * 1024 * 1024) bytes
      then concat (F.fixed 2 (F.div (F.of_nat bytes) (F.of_nat 1073741824)) ∷ " GB" ∷ [])
      else if leb (1024 * 1024) bytes
      then concat (F.fixed 2 (F.div (F.of_nat bytes) (F.of_nat 1048576)) ∷ " MB" ∷ [])
      else if leb 1024 bytes
      then concat (F.fixed 2 (F.div (F.of_nat bytes) (F.of_nat 1024)) ∷ " KB" ∷ [])
      else concat (dec bytes ∷ " B" ∷ [])

  abbrev flow_line : FlowStat → String
  flow_line f = concat (
      "  ["
      ∷ pad_right 15 f.key.src_ip
      ∷ ":"
      ∷ pad_right 5 (dec f.key.src_port)
      ∷ "] "
      ∷ arrow f.bytes_sent
      ∷ " ["
      ∷ pad_right 15 f.key.dst_ip
      ∷ ":"
      ∷ pad_right 5 (dec f.key.dst_port)
      ∷ "] ("
      ∷ f.key.protocol
      ∷ " | "
      ∷ format_bytes f.bytes_sent
      ∷ ")\n"
      ∷ [])

  -- `RenderTopologyGraph`
  unfoldable render_topology_graph : Snapshot → String
  render_topology_graph snap =
      let shown = shown_flows snap.flows in
      let nodes = group_nodes (record { local_nodes = []; remote_nodes = [] }) shown in
      if nat_eq (length snap.flows) 0
      then "  [No active topology flows detected]"
      else concat (
          ("  [NETWORK TOPOLOGY & TRAFFIC FLOW GRAPH]\n\n"
            ∷ "  ┌─── Local Subnet Endpoints ───┐\n"
            ∷ map node_line nodes.local_nodes)
          ++ (("  └──────────────────────────────┘\n\n" ∷ "              │\n"
                ∷ "              │  (Traffic Bridges & Flows)\n" ∷ "              ▼\n\n" ∷ [])
              ++ map flow_line shown))

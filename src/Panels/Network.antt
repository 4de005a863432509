-- ===== src/Panels/Network.antt =====
-- internal/ui/views/topology.go: the view of the flows with the most bytes. The grouping of hosts and
-- the test for local addresses are those of internal/topology, to the letter.
use undertow.Base.{
  ℕ, ◌*◌, min, String, Bool, List, [], ◌∷◌, ◌++◌, map, ltb, nat_eq, if◌then◌else◌, length, take,
}
use undertow.Base.Sort.{sort, desc}
use undertow.Base.Text.{concat, dec, pad_right}
use undertow.Base.Float.{FloatOps}
use undertow.Packet.{FlowStat}
use undertow.Topology.{group_nodes}
use undertow.Stats.{Snapshot}
use undertow.Panels.{format_bytes}

-- The flows that are shown: those with the most bytes, twelve at most.
unfoldable view_flows : List FlowStat → List FlowStat
view_flows flows = take (min 12 (length flows)) (sort (desc (λ (f : FlowStat). f.bytes_sent)) flows)

unfoldable view_arrow : ℕ → String
view_arrow bytes =
    if ltb (10 * 1024 * 1024) bytes
    then "[bold red]<=====>[white]"
    else if ltb (1024 * 1024) bytes
    then "[bold yellow]======>[white]"
    else if ltb (100 * 1024) bytes
    then "[green]----->[white]"
    else "[blue]────>[white]"

abbrev host_line : String × Bool → String
host_line (ip, b) = concat ("  │   💻 [bold green]" ∷ pad_right 18 ip ∷ "[white]        │\n" ∷ [])

module _ (F : FloatOps) where
  abbrev view_line : FlowStat → String
  view_line f = concat (
      "  ["
      ∷ pad_right 15 f.key.src_ip
      ∷ ":"
      ∷ pad_right 5 (dec f.key.src_port)
      ∷ "] "
      ∷ view_arrow f.bytes_sent
      ∷ " ["
      ∷ pad_right 15 f.key.dst_ip
      ∷ ":"
      ∷ pad_right 5 (dec f.key.dst_port)
      ∷ "] ([cyan]"
      ∷ pad_right 4 f.key.protocol
      ∷ "[white] | [yellow]"
      ∷ format_bytes F f.bytes_sent
      ∷ "[white])\n"
      ∷ [])

  -- `TopologyView.Update`
  unfoldable pub topology_view : Snapshot → String
  unfolding view_flows view_arrow
  topology_view snap =
      let shown = view_flows snap.flows in
      let nodes = group_nodes (record { local_nodes = []; remote_nodes = [] }) shown in
      if nat_eq (length snap.flows) 0
      then "\n  [yellow][!] No active network topology flows detected[white]\n"
      else concat (
          ("  [bold yellow]📡 UNDERTOW ASCII NETWORK TOPOLOGY GRAPH[white]\n"
            ∷ "  ====================================================================================\n\n"
            ∷ "  ┌─── [cyan]LOCAL SUBNET & HOST NODES[white] ───┐\n"
            ∷ map host_line nodes.local_nodes)
          ++ (("  └──────────────────────────────────┘\n" ∷ "                   │\n"
                ∷ "                   │  [yellow](Default Gateway & Traffic Bridge)[white]\n"
                ∷ "                   ▼\n\n" ∷ [])
              ++ map view_line shown))

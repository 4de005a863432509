-- ===== src/Lib.antt =====
-- Undertow, a network monitor: its core as definitions and theorems. Paths are from the root of the
-- repository. Packets come out of the decoder as `PacketInfo` and go through one channel to the
-- aggregator, which owns all state: counters, ring buffers, the anomaly detector, the timelines of
-- the hosts and their baselines. Panels and exports read only the snapshots that it publishes, and
-- the dashboard turns keys into pages, questions and controls of the replay. A recording takes the
-- place of the live capture by way of the replay engine. The command line puts the parts together.
--
-- Packet      internal/model/packet.go: the records that all parts share, and their texts
-- Ring        RingBuffer of internal/aggregator/stats.go (NewRingBuffer, Push, Slice)
-- Stats       the rest of internal/aggregator/stats.go: the counters that AddPacket updates, as
--             count_all and its parts; in Stats.Manager the StatsManager: AddPacket is add_packet,
--             TickSecond is tick_second, PublishSnapshot is publish_snapshot
-- Aggregator  internal/aggregator/aggregator.go: Run as rounds over a list of events
-- Anomaly     internal/anomaly/detect.go: CheckPacket and the three heuristics
-- Narrative   internal/narrative/story.go: RecordPacket, RecordAnomaly, formatIP; in Narrative.Story
--             GenerateNarrative
-- Baseline    internal/baseline/baseline.go: ObserveHost, SaveToFile, LoadFromFile
-- Replay      internal/replay/replay.go: the playback and its controls
-- Tls         the walk over a ClientHello of internal/tls/ja3.go and internal/decode/ja4.go, which
--             make the same tests; Tls.Ja3 is ParseClientHello, Tls.Ja4 is CalculateJA4
-- Decode      internal/decode/decode.go: the layers of gopacket and the reading of HTTP; in
--             Decode.Payload the rest of DecodePacket
-- Pipeline    internal/capture/capture.go and internal/decode/pool.go: the capture loop, the workers
--             and the channels between them as a step relation
-- Process     internal/process/tracker.go: the refresh on Linux; in Process.Refresh the other
--             systems, Refresh and ResolveFlow; Process.Resolver is internal/process/process.go
-- Threat      internal/security/threat.go: loading feeds, MatchIP, MatchDomain
-- Diff        internal/diff/diff.go: CompareSnapshots
-- Topology    internal/topology/graph.go: RenderTopologyGraph
-- Recorder    internal/replay/recorder.go: NewRecorder, WritePacket, Close
-- Panels      internal/ui: the text of a panel after Update; Panels.Alerts has the lists of events
--             and processes, the story and the packet log, Panels.Network is
--             internal/ui/views/topology.go, Panels.Talkers the table of the talkers with its
--             selection, Panels.Chart what Panels needs to draw the throughput
-- Console     internal/ui/dashboard.go: NewDashboard; in Console.Keys the handler of
--             setupKeybindings as press, in Console.Paint the repaint of Run, the filter's field and
--             the answers of the AI client and the report; Console.Run feeds a list of these
-- Report      internal/report/export.go: the charts; in Report.Page GenerateHTMLReport
-- Remote      internal/remote/server.go: authenticate, handleIndex, handleStream
-- Outbound    internal/filter/filter.go; Outbound.Webhook is internal/webhook/sender.go and
--             Outbound.Assistant internal/ai/ollama.go
-- Command     cmd/undertow/main.go: the flags, the subcommand for a comparison and the list of
--             devices; Command.Modes has the two modes and main, as actions and an exit code
-- Base        shared: Boolean tests, lists over native numbers, maps, sorting, text, float64
-- Examples    the theorems at concrete inputs
--
-- Conventions. A time is its nanoseconds since the zero time. A uint64 wraps (`add64`), and so do
-- the products of seconds and `time.Second` (`times64`); other numbers are native ones. A float
-- that is cut to an int may give any int. A map is an association list whose order stands for the
-- unspecified order of iteration. float64 is a record of operations, `FloatOps`, without laws;
-- where a theorem needs a law it is a hypothesis. A panic is `none`, or the outcome `panicked`.
-- Files, JSON, HTTP and the clock enter as parameters, and so do the pages and the table of tview
-- and the writer of pcapgo: a record of operations each (PagesOps, TableOps, PcapOps, OllamaOps,
-- WebhookOps, Output), and where a theorem relies on what they document, a record of laws
-- (PagesLaws, TableLaws, PcapLaws), which Examples.Screen and Examples.Sources fill with concrete
-- pages, a table and a file. What the mutexes guard is one step. A byte slice keeps its capacity,
-- since Go reslices up to it, and a read behind it is a panic (`with_byte`, `with_word`,
-- `with_part`). The texts of feeds and of matches are lower-cased as ASCII and trimmed as Latin-1,
-- where Go knows all of Unicode. Loops are structural, but for three on fuel: the digits of a
-- numeral, where the number itself is fuel enough; the loop of StepSec forward, which has a round
-- for every packet, and whose theorem shows that it ends where the test of the loop fails; and the
-- loop over TLS extensions, which has a round for every byte, and where more fuel changes nothing.
--
-- Not modelled: reading pcap files and capturing, which gopacket does; layout and colours of the
-- widgets; the lines of the packet log, whose function PacketLogPanel.Update is broken off in the
-- source, so that a repaint takes them from its argument; the page "procModal", which no line of
-- the source adds, since setupProcModal breaks off; filling the HTML page from its template;
-- listening and shutting down of the web view; the parsing of flags, signals and the context of
-- main. Bytes of an HTTP header are read as characters one by one. The pointer of a snapshot to
-- the live story tracker is not in its record: where a panel or the report follows it, the tracker
-- comes beside the snapshot (World of Console).
pub mod Base
pub mod Packet
pub mod Ring
pub mod Anomaly
pub mod Narrative
pub mod Baseline
pub mod Stats
pub mod Aggregator
pub mod Replay
pub mod Tls
pub mod Decode
pub mod Pipeline
pub mod Process
pub mod Threat
pub mod Diff
pub mod Topology
pub mod Panels
pub mod Report
pub mod Recorder
pub mod Remote
pub mod Outbound
pub mod Console
pub mod Command
pub mod Examples

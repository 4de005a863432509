-- ===== src/Report/Page.antt =====
-- internal/report/export.go: the data of the page and the outcomes of GenerateHTMLReport.
use undertow.Base.{
  ℕ, min, String, Bool, not, Option, none, some, List, [], ◌∷◌, map, if◌then◌else◌, length, take,
}
use undertow.Base.Eq.{◌==◌, string_eq}
use undertow.Base.Text.{concat}
use undertow.Base.Float.{FloatOps}
use undertow.Packet.{Time, AnomalyEvent}
use undertow.Narrative.{StoryTracker}
use undertow.Narrative.Story.{generate_narrative}
use undertow.Stats.{TalkerStat, Snapshot}
use undertow.Panels.{elapsed, duration_text, format_bytes}
use undertow.Report.{ReportData, Output, render_throughput_svg, render_protocol_svg}

-- `clock` is `Format("15:04:05")`, `date` the format with the date and the zone.
module _ (clock date : Time → String) where
  abbrev anomaly_line : AnomalyEvent → String
  anomaly_line a = concat (
      "["
      ∷ clock a.timestamp
      ∷ "] "
      ∷ a.kind
      ∷ " - "
      ∷ a.detail
      ∷ " (Src: "
      ∷ a.source_ip
      ∷ ")"
      ∷ [])

  -- The stories of the talkers, one after another: each may give out aliases for the next.
  unfoldable stories_of : StoryTracker → Bool → List TalkerStat → List String × StoryTracker
  stories_of tracker redact_ips [] = ([], tracker)
  stories_of tracker redact_ips (t ∷ ts) =
      let (story, tracker') = generate_narrative clock tracker t.ip redact_ips in
      let (stories, tracker'') = stories_of tracker' redact_ips ts in (story ∷ stories, tracker'')

  abbrev max_hosts : ℕ
  max_hosts = 5

  unfoldable pub host_stories :
      Option StoryTracker → Bool → List TalkerStat → List String × Option StoryTracker
  unfolding stories_of
  host_stories none redact_ips talkers = ([], none)
  host_stories (some tracker) redact_ips talkers =
      let (stories, tracker') =
        stories_of tracker redact_ips (take (min max_hosts (length talkers)) talkers) in
      (stories, some tracker')

  module _ (F : FloatOps) where
    -- The data of the report at the time `now`, and the tracker.
    unfoldable report_data :
        Snapshot
        → Option StoryTracker
        → String
        → String
        → Bool
        → Time
        → ReportData × Option StoryTracker
    unfolding host_stories render_throughput_svg render_protocol_svg
    report_data snap tracker iface filter_expr redact_ips now =
        let (stories, tracker') = host_stories tracker redact_ips snap.top_talkers in
        (
          record {
            title = "Undertow SOC Traffic Intelligence Report";
            generated_at = date now;
            network_interface = iface;
            filter = if not (filter_expr == "") then filter_expr else "None";
            duration = duration_text (elapsed now snap.start_time);
            total_packets = snap.total_packets;
            total_bytes_formatted = format_bytes F snap.total_bytes;
            dropped_packets = snap.dropped_packets;
            protocol_counts = snap.protocol_counts;
            top_talkers = snap.top_talkers;
            anomalies = map anomaly_line snap.anomalies;
            host_stories = stories;
            throughput_svg = render_throughput_svg F snap.throughput_history;
            protocol_svg = render_protocol_svg F snap.protocol_counts snap.total_packets;
          },
          tracker',
        )

    abbrev create_result : Output → ReportData → String → Option String → Option String
    create_result out report file (some err) =
        some (concat ("creating report file " ∷ file ∷ ": " ∷ err ∷ []))
    create_result out report file none = out.execute_error report

    abbrev parse_result : Output → ReportData → String → Option String → Option String
    parse_result out report file (some err) =
        some (concat ("parsing HTML report template: " ∷ err ∷ []))
    parse_result out report file none = create_result out report file (out.create_error file)

    -- `GenerateHTMLReport`: its error, and the tracker.
    unfoldable pub generate_html_report :
        Output
        → Snapshot
        → Option StoryTracker
        → String
        → String
        → Bool
        → String
        → Time
        → Option String × Option StoryTracker
    unfolding report_data
    generate_html_report out snap tracker iface filter_expr redact_ips file now =
        let (report, tracker') = report_data snap tracker iface filter_expr redact_ips now in
        (parse_result out report file out.parse_error, tracker')

-- ===== src/Report.antt =====
-- internal/report/export.go: what GenerateHTMLReport puts into the report. Filling the template and
-- escaping is html/template's, and enters as `Output`.
pub mod Page
use undertow.Base.{
  ℕ, ◌+◌, min, String, Bool, not, Option, none, some, List, [], ◌∷◌, map, nat_eq, if◌then◌else◌,
  length, take,
}
use undertow.Base.Eq.{◌==◌, string_eq}
use undertow.Base.Dict.{Dict, get, or_else}
use undertow.Base.Text.{concat, dec}
use undertow.Base.Float.{FloatOps}
use undertow.Packet.{Time, AnomalyEvent}
use undertow.Narrative.{StoryTracker}
use undertow.Narrative.Story.{generate_narrative}
use undertow.Stats.{TalkerStat, Snapshot}
use undertow.Panels.{elapsed, duration_text, peak_from, format_bytes}

pub record ReportData : Type 0 where
  pub title : String
  pub generated_at : String
  pub network_interface : String
  pub filter : String
  pub duration : String
  pub total_packets : ℕ
  pub total_bytes_formatted : String
  pub dropped_packets : ℕ
  pub protocol_counts : Dict String ℕ
  pub top_talkers : List TalkerStat
  pub anomalies : List String
  pub host_stories : List String
  pub throughput_svg : String
  pub protocol_svg : String

-- The file system and the template: the file `os.Create` makes or its error, and what parsing and
-- filling the template write or their error.
pub record Output : Type 0 where
  pub parse_error : Option String
  pub create_error : String → Option String
  pub execute_error : ReportData → Option String

abbrev svg_protocols : List String
svg_protocols = "TCP" ∷ "UDP" ∷ "TLS" ∷ "DNS" ∷ "HTTP" ∷ "ICMP" ∷ "Other" ∷ []

abbrev svg_colors : Dict String String
svg_colors =
    ("TCP", "#38bdf8")
    ∷ ("UDP", "#60a5fa")
    ∷ ("TLS", "#22c55e")
    ∷ ("DNS", "#facc15")
    ∷ ("HTTP", "#c084fc")
    ∷ ("ICMP", "#f43f5e")
    ∷ ("Other", "#94a3b8")
    ∷ []

-- The protocols that get a row, each with its height: every row stands 24 below the one before.
unfoldable svg_rows : Dict String ℕ → ℕ → List String → List (String × ℕ × ℕ)
svg_rows counts y [] = []
svg_rows counts y (proto ∷ protos) =
    let cnt = or_else (get counts proto) 0 in
    let skipped = svg_rows counts y protos in
    let shown = (proto, cnt, y) ∷ svg_rows counts (y + 24) protos in
    if nat_eq cnt 0 then skipped else shown

module _ (F : FloatOps) where
  -- One bar: its place is the number of the sample times the width of a bar.
  abbrev svg_bar : ℕ → F.Float → ℕ → ℕ → String
  svg_bar max_val bar_width i val =
      let bar_h = F.mul (F.div (F.of_nat val) (F.of_nat max_val)) (F.of_nat 130) in
      concat (
        "<rect x=\""
        ∷ F.fixed 1 (F.mul (F.of_nat i) bar_width)
        ∷ "\" y=\""
        ∷ F.fixed 1 (F.sub (F.of_nat 150) bar_h)
        ∷ "\" width=\""
        ∷ F.fixed 1 (F.sub bar_width (F.of_nat 1))
        ∷ "\" height=\""
        ∷ F.fixed 1 bar_h
        ∷ "\" fill=\"url(#barGrad)\" rx=\"2\"><title>"
        ∷ F.fixed 0 (F.of_nat val)
        ∷ " B/s</title></rect>"
        ∷ [])

  unfoldable svg_bars : ℕ → F.Float → ℕ → List ℕ → List String
  svg_bars max_val bar_width i [] = []
  svg_bars max_val bar_width i (val ∷ vals) =
      svg_bar max_val bar_width i val ∷ svg_bars max_val bar_width (i + 1) vals

  abbrev at_least_one : ℕ → ℕ
  at_least_one n = if nat_eq n 0 then 1 else n

  -- `renderThroughputSVG`
  unfoldable pub render_throughput_svg : List ℕ → String
  unfolding svg_bars
  render_throughput_svg history =
      if nat_eq (length history) 0
      then "<svg width=\"700\" height=\"150\"><text x=\"350\" y=\"75\" fill=\"#94a3b8\" text-anchor=\"middle\">No throughput data available</text></svg>"
      else concat (
          "<svg width=\"700\" height=\"150\" viewBox=\"0 0 700 150\" xmlns=\"http://www.w3.org/2000/svg\">"
          ∷ "<defs><linearGradient id=\"barGrad\" x1=\"0\" y1=\"0\" x2=\"0\" y2=\"1\"><stop offset=\"0%\" stop-color=\"#38bdf8\"/><stop offset=\"100%\" stop-color=\"#0284c7\"/></linearGradient></defs>"
          ∷ concat (
              svg_bars (at_least_one (peak_from 0 history))
                (F.div (F.of_nat 700) (F.of_nat (length history))) 0 history)
          ∷ "</svg>"
          ∷ [])

  abbrev svg_row : ℕ → String × ℕ × ℕ → String
  svg_row total (proto, cnt, y) =
      let pct = F.mul (F.div (F.of_nat cnt) (F.of_nat total)) (F.of_nat 100) in
      let bar_width = F.mul (F.div pct (F.of_nat 100)) (F.of_nat 250) in
      concat (
        "<text x=\"10\" y=\""
        ∷ dec (y + 12)
        ∷ "\" fill=\"#e2e8f0\" font-family=\"sans-serif\" font-size=\"12\" font-weight=\"bold\">"
        ∷ proto
        ∷ "</text><rect x=\"70\" y=\""
        ∷ dec y
        ∷ "\" width=\""
        ∷ F.fixed 1 bar_width
        ∷ "\" height=\"14\" fill=\""
        ∷ or_else (get svg_colors proto) ""
        ∷ "\" rx=\"3\"/><text x=\""
        ∷ F.fixed 1 (F.add (F.of_nat 75) bar_width)
        ∷ "\" y=\""
        ∷ dec (y + 12)
        ∷ "\" fill=\"#94a3b8\" font-family=\"sans-serif\" font-size=\"11\"> "
        ∷ dec cnt
        ∷ " ("
        ∷ F.fixed 1 pct
        ∷ "%)</text>"
        ∷ [])

  -- `renderProtocolSVG`
  unfoldable pub render_protocol_svg : Dict String ℕ → ℕ → String
  unfolding svg_rows
  render_protocol_svg counts total =
      if nat_eq total 0
      then "<svg width=\"400\" height=\"150\"><text x=\"200\" y=\"75\" fill=\"#94a3b8\" text-anchor=\"middle\">No protocol data available</text></svg>"
      else concat (
          "<svg width=\"450\" height=\"180\" viewBox=\"0 0 450 180\" xmlns=\"http://www.w3.org/2000/svg\">"
          ∷ concat (map (svg_row total) (svg_rows counts 10 svg_protocols))
          ∷ "</svg>"
          ∷ [])

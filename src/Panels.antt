-- ===== src/Panels.antt =====
-- internal/ui: what the panels of the dashboard show. A text view of tview is the text that was set
-- last; colours of tables and borders are left out. Here the top bar and the charts.
pub mod Alerts
pub mod Network
pub mod Talkers
pub mod Chart
use mathlib.Core.Option
use undertow.Base.{
  ℕ, suc, ◌+◌, ◌-◌, ◌*◌, ◌/◌, ◌%◌, ◌^◌, min, String, Bool, true, false, not, ◌&&◌, ◌||◌, Option,
  none, some, List, [], ◌∷◌, ◌++◌, map, ltb, leb, nat_eq, if◌then◌else◌, length, get_elem?,
  replicate,
}
use undertow.Base.Eq.{◌==◌, string_eq}
use undertow.Base.Dict.{Dict, get, or_else}
use undertow.Base.Text.{concat, dec, pad_left, pad_right}
use undertow.Base.Float.{FloatOps}
use undertow.Base.Int.{ℤ, pos, negsuc}
use undertow.Packet.{Time, second}
use undertow.Stats.{Snapshot}
use undertow.Replay.{ReplayStatus}

-- `time.Since(start).Truncate(time.Second)` at the time `now`, in seconds: a duration of more than
-- 2 ^ 63 - 1 nanoseconds is cut to this.
abbrev pub elapsed : Time → Time → ℕ
elapsed now start = min (2 ^ 63 - 1) (now - start) / second

-- `Duration.String()` of whole seconds
unfoldable pub duration_text : ℕ → String
duration_text s =
    if ltb s 60
    then concat (dec s ∷ "s" ∷ [])
    else if ltb s 3600
    then concat (dec (s / 60) ∷ "m" ∷ dec (s % 60) ∷ "s" ∷ [])
    else concat (dec (s / 3600) ∷ "h" ∷ dec (s / 60 % 60) ∷ "m" ∷ dec (s % 60) ∷ "s" ∷ [])

unfoldable pub peak_from : ℕ → List ℕ → ℕ
peak_from m [] = m
peak_from m (v ∷ vs) = peak_from (if ltb m v then v else m) vs

-- The colour that stands for a protocol.
unfoldable pub protocol_color : String → String
protocol_color p =
    if p == "TCP"
    then "[cyan]"
    else if p == "UDP"
    then "[blue]"
    else if p == "TLS"
    then "[bold green]"
    else if p == "DNS"
    then "[yellow]"
    else if p == "HTTP"
    then "[magenta]"
    else if p == "ICMP"
    then "[red]"
    else "[green]"

abbrev chart_protocols : List String
chart_protocols = "TCP" ∷ "UDP" ∷ "TLS" ∷ "ICMP" ∷ "DNS" ∷ "HTTP" ∷ "ARP" ∷ "Other" ∷ []

abbrev max_bar_width : ℕ
max_bar_width = 20

-- `blocks[i]`
abbrev pub blocks : List String
blocks = " " ∷ " " ∷ "▂" ∷ "▃" ∷ "▄" ∷ "▅" ∷ "▆" ∷ "▇" ∷ "█" ∷ []

abbrev last_or_zero : List ℕ → ℕ
last_or_zero [] = 0
last_or_zero (v ∷ []) = v
last_or_zero (v ∷ w ∷ vs) = last_or_zero (w ∷ vs)

-- One block for a sample: its place among the blocks, and the colour by this place.
abbrev block_color : ℤ → String
block_color (pos index) =
    if ltb 6 index then "[red]" else if ltb 3 index then "[yellow]" else "[green]"
block_color (negsuc n) = "[green]"

-- `blocks[index]`
abbrev pub block_at : ℤ → Option String
block_at (pos index) = get_elem? blocks index
block_at (negsuc n) = none

abbrev pub at_most_last : ℤ → ℤ
at_most_last (pos index) = if leb (length blocks) index then pos (length blocks - 1) else pos index
at_most_last (negsuc n) = negsuc n

abbrev draw_block : ℤ → Option String → Option String → Option String
draw_block index none rest = none
draw_block index (some block) none = none
draw_block index (some block) (some rest) =
    some (concat (block_color index ∷ block ∷ "[white]" ∷ rest ∷ []))

abbrev is_zero : ℤ → Bool
is_zero (pos n) = nat_eq n 0
is_zero (negsuc n) = false

-- How many rounds the two loops over a bar of `i` cells make: up to `i`, and from `i` to the width.
abbrev pub filled : ℤ → ℕ
filled (pos n) = n
filled (negsuc n) = 0

abbrev unfilled : ℤ → ℕ
unfilled (pos n) = max_bar_width - n
unfilled (negsuc n) = max_bar_width + suc n

module _ (F : FloatOps) where
  -- `formatBytes`
  unfoldable pub format_bytes : ℕ → String
  format_bytes bytes =
      if leb (1024 * 1024 * 1024) bytes
      then concat (F.fixed 2 (F.div (F.of_nat bytes) (F.of_nat 1073741824)) ∷ " GB" ∷ [])
      else if leb (1024 * 1024) bytes
      then concat (F.fixed 2 (F.div (F.of_nat bytes) (F.of_nat 1048576)) ∷ " MB" ∷ [])
      else if leb 1024 bytes
      then concat (F.fixed 2 (F.div (F.of_nat bytes) (F.of_nat 1024)) ∷ " KB" ∷ [])
      else concat (dec bytes ∷ " B" ∷ [])

  -- The percentage of a count, 0 where there is no packet.
  abbrev percentage : ℕ → ℕ → F.Float
  percentage count total =
      if ltb 0 total
      then F.mul (F.div (F.of_nat count) (F.of_nat total)) (F.of_nat 100)
      else F.of_nat 0

  unfoldable bar_length : ℕ → ℕ → ℤ
  bar_length count total =
      let bar_len =
        F.truncate
          (F.mul (F.div (percentage count total) (F.of_nat 100)) (F.of_nat max_bar_width)) in
      if ltb 0 count && is_zero bar_len then pos 1 else bar_len

  -- The cells of a bar, filled ones and then empty ones.
  unfoldable bar : ℕ → ℕ → List String
  unfolding bar_length
  bar count total =
      replicate (filled (bar_length count total)) "█"
      ++ replicate (unfilled (bar_length count total)) "░"

  abbrev protocol_line : Snapshot → String → String
  protocol_line snap proto =
      let count = or_else (get snap.protocol_counts proto) 0 in
      concat (
        " "
        ∷ pad_right 6 proto
        ∷ " "
        ∷ protocol_color proto
        ∷ concat (bar count snap.total_packets)
        ∷ "[white] "
        ∷ pad_left 6 (dec count)
        ∷ "  ("
        ∷ pad_left 5 (F.fixed 1 (percentage count snap.total_packets))
        ∷ "%)\n"
        ∷ [])

  -- `ProtocolBreakdownPanel.Update`
  unfoldable pub protocol_breakdown : Snapshot → String
  unfolding bar
  protocol_breakdown snap = concat (map (protocol_line snap) chart_protocols)

  unfoldable pub block_index : ℕ → ℕ → ℤ
  block_index max_val val = at_most_last (
      if ltb 0 max_val
      then F.truncate
          (F.mul (F.div (F.of_nat val) (F.of_nat max_val)) (F.of_nat (length blocks - 1)))
      else pos 0)

  unfoldable pub draw_blocks : ℕ → List ℕ → Option String
  draw_blocks max_val [] = some ""
  draw_blocks max_val (val ∷ vals) =
      draw_block (block_index max_val val) (block_at (block_index max_val val))
        (draw_blocks max_val vals)

  abbrev throughput_head : List ℕ → String
  throughput_head history = concat (
      " Current Rate: [bold green]"
      ∷ format_bytes (last_or_zero history)
      ∷ "/s[white]  (Peak: [yellow]"
      ∷ format_bytes (peak_from 0 history)
      ∷ "/s[white])\n\n "
      ∷ [])

  -- `ThroughputPanel.Update`; `none` is an index behind the blocks, which panics.
  unfoldable pub throughput : Snapshot → Option String
  unfolding draw_blocks peak_from
  throughput snap =
      if nat_eq (length snap.throughput_history) 0
      then some " Waiting for bandwidth samples..."
      else Option.map (λ drawn. concat (throughput_head snap.throughput_history ∷ drawn ∷ []))
          (draw_blocks (peak_from 0 snap.throughput_history) snap.throughput_history)

  -- `TopBar.Update` at the time `now`; `clock` is `Format("15:04:05")`.
  unfoldable pub top_bar :
      (Time → String) → String → Snapshot → Time → Bool → String → ReplayStatus F → String
  unfolding duration_text format_bytes
  top_bar clock iface snap now paused filter_expr status =
      let state =
        if paused || status.is_paused then "[yellow]PAUSED[white]" else "[green]LIVE[white]" in
      let filter =
        if not (filter_expr == "")
        then concat ("[yellow]" ∷ filter_expr ∷ "[white]" ∷ [])
        else "[gray]None[white]" in
      if status.is_replay
      then concat (
          " [bold yellow]REPLAY MODE[white] | [cyan]TIME:[white] "
          ∷ clock status.current_time
          ∷ " / "
          ∷ clock status.end_time
          ∷ " ("
          ∷ F.fixed 1 status.speed
          ∷ "x) | [cyan]FILTER:[white] "
          ∷ filter
          ∷ " | [cyan]PKTS:[white] [bold]"
          ∷ dec snap.total_packets
          ∷ "[white] | [cyan]BYTES:[white] [bold]"
          ∷ format_bytes snap.total_bytes
          ∷ "[white] | [cyan]STATUS:[white] "
          ∷ state
          ∷ [])
      else concat (
          " [cyan]IFACE:[white] "
          ∷ pad_right 8 iface
          ∷ " | [cyan]FILTER:[white] "
          ∷ filter
          ∷ " | [cyan]TIME:[white] "
          ∷ duration_text (elapsed now snap.start_time)
          ∷ " | [cyan]PKTS:[white] [bold]"
          ∷ dec snap.total_packets
          ∷ "[white] | [cyan]BYTES:[white] [bold]"
          ∷ format_bytes snap.total_bytes
          ∷ "[white] | [cyan]DROPPED:[white] [red]"
          ∷ dec snap.dropped_packets
          ∷ "[white] | [cyan]STATUS:[white] "
          ∷ state
          ∷ [])

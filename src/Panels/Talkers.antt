-- ===== src/Panels/Talkers.antt =====
-- internal/ui/toptalkers.go: the table of the talkers and the row that is selected. `tview.Table` is
-- a parameter: its rows count from 0, the header is row 0.
pub mod Selection
use undertow.Base.{
  ℕ, zero, suc, ◌+◌, ◌-◌, min, String, Bool, ◌&&◌, Option, none, some, List, [], ◌∷◌, ltb, leb,
  nat_eq, if◌then◌else◌, length, take, add64,
}
use undertow.Base.Text.{dec}
use undertow.Base.Float.{FloatOps}
use undertow.Packet.{Time}
use undertow.Stats.{TalkerStat, Snapshot}
use undertow.Panels.{format_bytes}

pub record TableOps : Type 1 where
  pub Table : Type 0
  pub new_table : Table
  pub row_count : Table → ℕ
  pub remove_row : Table → ℕ → Table
  pub set_cell : Table → ℕ → ℕ → String → Table
  -- The text of a cell; none where there is no cell.
  pub cell_text : Table → ℕ → ℕ → Option String
  pub select : Table → ℕ → Table
  -- The row of `GetSelection`
  pub selection : Table → ℕ

module _ (T : TableOps) where
  abbrev set_header : T.Table → ℕ → List String → T.Table
  set_header t col [] = t
  set_header t col (h ∷ hs) = set_header (T.set_cell t 0 col h) (col + 1) hs

  -- `NewTopTalkersPanel`
  unfoldable pub new_top_talkers : T.Table
  new_top_talkers =
      set_header T.new_table 0
        ("IP Address" ∷ "Bytes Sent" ∷ "Bytes Recv" ∷ "Packets" ∷ "Last Seen" ∷ [])

  -- The rows `n`, …, 1 are removed, the last first.
  unfoldable pub clear_rows : T.Table → ℕ → T.Table
  clear_rows t zero = t
  clear_rows t (suc n) = clear_rows (T.remove_row t (suc n)) n

  module _ (F : FloatOps) (clock : Time → String) where
    unfoldable pub fill_row : T.Table → ℕ → TalkerStat → T.Table
    fill_row t row s =
        T.set_cell
          (T.set_cell
            (T.set_cell (T.set_cell (T.set_cell t row 0 s.ip) row 1 (format_bytes F s.bytes_sent))
              row 2 (format_bytes F s.bytes_recv))
            row 3 (dec (add64 s.packets_sent s.packets_recv)))
          row 4 (if nat_eq s.last_seen 0 then "-" else clock s.last_seen)

    unfoldable pub fill_rows : T.Table → ℕ → List TalkerStat → T.Table
    unfolding fill_row
    fill_rows t row [] = t
    fill_rows t row (s ∷ ss) = fill_rows (fill_row t row s) (row + 1) ss

    -- `TopTalkersPanel.Update`
    unfoldable pub update_top_talkers : T.Table → List TalkerStat → T.Table
    unfolding clear_rows fill_rows
    update_top_talkers t talkers =
        let selected_row = T.selection t in
        let max_rows = min 15 (length talkers) in
        let filled = fill_rows (clear_rows t (T.row_count t - 1)) 1 (take max_rows talkers) in
        if ltb 0 selected_row && leb selected_row max_rows
        then T.select filled selected_row
        else if ltb 0 max_rows
        then T.select filled 1
        else filled

  abbrev text_or_empty : Option String → String
  text_or_empty none = ""
  text_or_empty (some text) = text

  -- `SelectedIP`
  unfoldable pub selected_ip : T.Table → String
  selected_ip t =
      if ltb 0 (T.selection t) then text_or_empty (T.cell_text t (T.selection t) 0) else ""

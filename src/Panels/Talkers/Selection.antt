-- ===== src/Panels/Talkers/Selection.antt =====
-- The row that stays selected over a repaint of the table of talkers.
use undertow.Base.{
  ℕ, zero, suc, ◌+◌, ◌-◌, ◌<◌, ◌≡◌, refl, ap, ◌∙◌, inl, inr, lt→ltb, min, String, ◌&&◌, some, List,
  [], ◌∷◌, arith, ltb, leb, nat_eq, if◌then◌else◌, length, length-take, take, get_or, Bool-cases,
}
use undertow.Base.Float.{FloatOps}
use undertow.Packet.{Time}
use undertow.Stats.{TalkerStat, blank_talker}
use undertow.Panels.Talkers.{
  TableOps, clear_rows, fill_row, fill_rows, update_top_talkers, selected_ip,
}

-- The documented behaviour of `tview.Table`: a cell is what was set there last, and selecting a row
-- changes no cell.
pub record TableLaws (T : TableOps) : Type 0 where
  pub cell-set :
      (t : T.Table) (r c r' c' : ℕ) (text : String)
      → T.cell_text (T.set_cell t r c text) r' c'
        ≡ (if nat_eq c c' && nat_eq r r' then some text else T.cell_text t r' c')
  pub cell-select :
      (t : T.Table) (r r' c' : ℕ) → T.cell_text (T.select t r) r' c' ≡ T.cell_text t r' c'
  pub selection-select : (t : T.Table) (r : ℕ) → T.selection (T.select t r) ≡ r

-- The talker whose row is selected after a repaint: the one in the row that was selected, if there
-- is one, else the first.
abbrev kept_row : ℕ → ℕ → ℕ
kept_row old talkers = if ltb 0 old && leb old (min 15 talkers) then old - 1 else 0

abbrev talker_at : List TalkerStat → ℕ → TalkerStat
talker_at talkers i = get_or talkers i (blank_talker "")

module _ (T : TableOps) (L : TableLaws T) (F : FloatOps) (clock : Time → String) where
  open L use {cell-set, cell-select, selection-select}

  cell-fill_row :
      (t : T.Table) (row r : ℕ) (s : TalkerStat)
      → T.cell_text (fill_row T F clock t row s) r 0
        ≡ (if nat_eq row r then some s.ip else T.cell_text t r 0)
  unfolding fill_row
  cell-fill_row t row r s = simp cell-set

  cell-fill_rows_above :
      (t : T.Table) (row r : ℕ) (ss : List TalkerStat)
      → r < row
      → T.cell_text (fill_rows T F clock t row ss) r 0 ≡ T.cell_text t r 0
  unfolding fill_rows
  cell-fill_rows_above t row r [] h = refl
  cell-fill_rows_above t row r (s ∷ ss) h =
      cell-fill_rows_above (fill_row T F clock t row s) (row + 1) r ss (omega arith)
      ∙ cell-fill_row t row r s
      ∙ ground arith

  cell-fill_rows :
      (t : T.Table) (row k : ℕ) (ss : List TalkerStat)
      → k < length ss
      → T.cell_text (fill_rows T F clock t row ss) (row + k) 0 ≡ some (talker_at ss k).ip
  unfolding fill_rows
  cell-fill_rows t row k [] h = elim h [ ]
  cell-fill_rows t row zero (s ∷ ss) h =
      cell-fill_rows_above (fill_row T F clock t row s) (row + 1) (row + 0) ss (omega arith)
      ∙ cell-fill_row t row (row + 0) s
      ∙ ground arith
  cell-fill_rows t row (suc k) (s ∷ ss) h =
      ap (λ r. T.cell_text (fill_rows T F clock (fill_row T F clock t row s) (row + 1) ss) r 0)
        {x = row + suc k} {y = row + 1 + k} (omega arith)
      ∙ cell-fill_rows (fill_row T F clock t row s) (row + 1) k ss (omega arith)

  talker-take : (n i : ℕ) (ss : List TalkerStat) → i < n → talker_at (take n ss) i ≡ talker_at ss i
  talker-take zero i ss h = elim h [ ]
  talker-take (suc n) i [] h = refl
  talker-take (suc n) zero (s ∷ ss) h = refl
  talker-take (suc n) (suc i) (s ∷ ss) h = talker-take n i ss (omega arith)

  abbrev filled : T.Table → List TalkerStat → T.Table
  filled t talkers =
      fill_rows T F clock (clear_rows T t (T.row_count t - 1)) 1
        (take (min 15 (length talkers)) talkers)

  kept_row-lt : (old n : ℕ) → 0 < n → kept_row old n < min 15 n
  kept_row-lt old n h = ground arith

  update_top_talkers-select :
      (t : T.Table) (talkers : List TalkerStat)
      → 0 < length talkers
      → update_top_talkers T F clock t talkers
        ≡ T.select (filled t talkers) (1 + kept_row (T.selection t) (length talkers))
  unfolding update_top_talkers
  update_top_talkers-select t talkers h =
      elim (Bool-cases (ltb 0 (T.selection t) && leb (T.selection t) (min 15 (length talkers)))) [
        | inl e ↦ rw e (
            ap (T.select (filled t talkers)) {x = T.selection t} {y = 1 + (T.selection t - 1)}
              (ground (arith, e)))
        | inr e ↦ rw (e, lt→ltb 0 (min 15 (length talkers)) (omega arith))
      ]

  selected_ip-select :
      (t : T.Table) (i : ℕ) (ip : String)
      → T.cell_text t (1 + i) 0 ≡ some ip
      → selected_ip T (T.select t (1 + i)) ≡ ip
  unfolding selected_ip
  selected_ip-select t i ip e = rw (
    selection-select t (1 + i),
    cell-select t (1 + i) (1 + i) 0,
    e,
    lt→ltb 0 (1 + i) (omega arith),
  )

  -- Whatever the table held, after a repaint with at least one talker the selected row is one of the
  -- fifteen at most that are shown: the one that was selected, if it is still there, else the first;
  -- and the selected address is that of the talker in this row.
  pub update_top_talkers-selection :
      (t : T.Table) (talkers : List TalkerStat)
      → 0 < length talkers
      → let i = kept_row (T.selection t) (length talkers) in
        let t' = update_top_talkers T F clock t talkers in
        (i < min 15 (length talkers))
        × (T.selection t' ≡ 1 + i)
        × (selected_ip T t' ≡ (talker_at talkers i).ip)
  update_top_talkers-selection t talkers h =
      let i : ℕ = kept_row (T.selection t) (length talkers) in
      let below = kept_row-lt (T.selection t) (length talkers) h in
      rw (update_top_talkers-select t talkers h) (
        below,
        selection-select (filled t talkers) (1 + i),
        selected_ip-select (filled t talkers) i (talker_at talkers i).ip (
            cell-fill_rows _ 1 i (take (min 15 (length talkers)) talkers)
              (omega (arith, below, length-take (min 15 (length talkers)) talkers))
            ∙ ap (λ s. some s.ip) (talker-take (min 15 (length talkers)) i talkers below)),
      )

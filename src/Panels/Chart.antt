-- ===== src/Panels/Chart.antt =====
-- The throughput chart of internal/ui/throughput.go: when it cannot panic.
use undertow.Base.{
  ℕ, zero, suc, ◌^◌, ◌≤◌, ◌<◌, ◌≡◌, refl, inl, inr, String, Bool, true, false, some, List, [], ◌∷◌,
  arith, ltb, leb, nat_eq, length, get_elem?, Bool-cases, ltb→lt, All, if◌then◌else◌,
}
use undertow.Base.Float.{FloatOps}
use undertow.Base.Int.{ℤ, pos, negsuc}
use undertow.Stats.{Snapshot}
use undertow.Panels.{
  blocks, block_at, at_most_last, block_index, draw_blocks, peak_from, throughput,
}

abbrev is_natural : ℤ → Bool
is_natural (pos n) = true
is_natural (negsuc n) = false

get_elem?-some {ℓ} :
    {A : Type ℓ} (xs : List A) (i : ℕ) → i < length xs → (x : A) × (get_elem? xs i ≡ some x)
get_elem?-some [] i h = elim h [ ]
get_elem?-some (x ∷ xs) zero h = (x, refl)
get_elem?-some (x ∷ xs) (suc i) h = get_elem?-some xs i (omega arith)

-- An index that is not negative, cut off at the last block, has a block.
block_at-some :
    (i : ℤ) → is_natural i ≡ true → (block : String) × (block_at (at_most_last i) ≡ some block)
block_at-some (negsuc n) h = absurd (ground (arith, h))
block_at-some (pos n) h = elim (Bool-cases (leb 9 n)) [
  | inl e ↦ rw e (_, refl)
  | inr e ↦ rw e (get_elem?-some blocks n (ground (arith, e)))
]

-- The peak is at least every sample, and below what all samples are below.
peak_from-above : (m : ℕ) (vs : List ℕ) → (m ≤ peak_from m vs) × All (λ v. v ≤ peak_from m vs) vs
unfolding peak_from
peak_from-above m [] = (omega arith, tt)
peak_from-above m (v ∷ vs) =
    let (above, rest) = peak_from-above (if ltb m v then v else m) vs in
    (ground (arith, above), (ground (arith, above), rest))

peak_from-below : (b m : ℕ) (vs : List ℕ) → m < b → All (λ v. v < b) vs → peak_from m vs < b
unfolding peak_from
peak_from-below b m [] h a = h
peak_from-below b m (v ∷ vs) h a =
    peak_from-below b (if ltb m v then v else m) vs (ground (arith, h, a.0)) a.1

-- The eighth of a chart that a float64 gives for two counters, the first at most the second and this
-- not 0, is cut to an int that is not negative.
module _ (F : FloatOps)
    (not_negative : (v m : ℕ)
      → 0 < m
      → m < 2 ^ 64
      → v ≤ m
      → is_natural (F.truncate (F.mul (F.div (F.of_nat v) (F.of_nat m)) (F.of_nat 8))) ≡ true) where
  block_index-some :
      (max_val val : ℕ)
      → max_val < 2 ^ 64
      → val ≤ max_val
      → (block : String) × (block_at (block_index F max_val val) ≡ some block)
  unfolding block_index
  block_index-some max_val val fits le = elim (Bool-cases (ltb 0 max_val)) [
    | inl e ↦ rw e (block_at-some _ (not_negative val max_val (ltb→lt 0 max_val e) fits le))
    | inr e ↦ rw e (_, refl)
  ]

  draw_blocks-some :
      (max_val : ℕ) (vals : List ℕ)
      → max_val < 2 ^ 64
      → All (λ v. v ≤ max_val) vals
      → (text : String) × (draw_blocks F max_val vals ≡ some text)
  unfolding draw_blocks
  draw_blocks-some max_val [] fits a = ("", refl)
  draw_blocks-some max_val (val ∷ vals) fits a =
      let (block, e) = block_index-some max_val val fits a.0 in
      let (rest, r) = draw_blocks-some max_val vals fits a.1 in rw (e, r) (_, refl)

  -- Where float64 cuts `v / m * 8` to an int that is not negative, for uint64 numbers `v` and `m`
  -- with `v` at most `m` and `m` not 0: drawing the throughput does not panic, whatever the uint64
  -- samples of the history, also where there are none or all are 0.
  pub throughput_drawn :
      (snap : Snapshot)
      → All (λ v. v < 2 ^ 64) snap.throughput_history
      → (text : String) × (throughput F snap ≡ some text)
  unfolding throughput
  throughput_drawn snap fit = elim (Bool-cases (nat_eq (length snap.throughput_history) 0)) [
    | inl h ↦ rw h (_, refl)
    | inr h ↦
        let (drawn, e) =
          draw_blocks-some (peak_from 0 snap.throughput_history) snap.throughput_history
            (peak_from-below (2 ^ 64) 0 snap.throughput_history (omega arith) fit)
            (peak_from-above 0 snap.throughput_history).1 in
        rw (h, e) (_, refl)
  ]

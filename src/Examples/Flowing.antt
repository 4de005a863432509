-- ===== src/Examples/Flowing.antt =====
-- The pipeline at a concrete run: packets are numbers, decoded to themselves.
use undertow.Base.{ℕ, ◌≡◌, refl, Bool, true, none, [], ◌∷◌, arith}
use undertow.Pipeline.{
  Pipeline, captured, sends, drops, takes, passes_on, capture, worker, aggregator, Steps, stop,
  then_,
}
use undertow.Pipeline.Conserve.{IsSound, tally, tally_conserved}

abbrev same : ℕ → ℕ
same n = n

-- Two packets to come, room for one, and one idle worker.
abbrev start : Pipeline ℕ ℕ
start = record {
  source = 7 ∷ 8 ∷ [];
  recording = true;
  recorded = [];
  packet_chan = [];
  packet_cap = 1;
  dropped_count = 0;
  dropped = [];
  workers = none ∷ [];
  out_chan = [];
  out_cap = 1;
  abandoned = [];
  delivered = [];
}

abbrev end_ : Pipeline ℕ ℕ
end_ = record start {
  source = [];
  recorded = 7 ∷ 8 ∷ [];
  dropped_count = 1;
  dropped = 8 ∷ [];
  delivered = 7 ∷ [];
}

-- The first packet is delivered; the second one finds the channel full.
start-end : Steps same start end_
unfolding captured
start-end = then_ (capture (sends 7 (8 ∷ []) refl (omega arith))) (
    then_ (capture (drops 8 [] refl (omega arith))) (
      then_ (worker (takes [] [] 7 [] refl refl)) (
        then_ (worker (passes_on [] [] 7 refl (omega arith))) (then_ (aggregator 7 [] refl) stop))))

start-IsSound : IsSound same start
start-IsSound = record { packets_fit = omega arith; out_fits = omega arith; counted = omega arith }

tally_conserved_example :
    IsSound same end_ × ((q : ℕ → Bool) → tally same q start ≡ tally same q end_)
tally_conserved_example = tally_conserved same start-end start-IsSound

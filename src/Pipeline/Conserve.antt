-- ===== src/Pipeline/Conserve.antt =====
-- No packet is lost or doubled on its way, and the channels stay within their capacities.
use undertow.Base.{
  ℕ, ◌+◌, ◌%◌, ◌≤◌, ◌≡◌, refl, ap, ◌∙◌, Bool, Option, none, some, List, [], ◌∷◌, ◌++◌, map,
  if◌then◌else◌, u64_mod, length, length-append, arith,
}
use undertow.Pipeline.{
  Pipeline, captured, sends, hands_on, drops, takes, passes_on, delivers, returns, gives_up, Step,
  capture, worker, aggregator, Steps, stop, then_,
}

module _ {κ} {Info : Type κ} (wanted : Info → Bool) where
  abbrev pub count : List Info → ℕ
  count [] = 0
  count (i ∷ is) = (if wanted i then 1 else 0) + count is

  abbrev pub held : List (Option Info) → ℕ
  held [] = 0
  held (none ∷ ws) = held ws
  held (some i ∷ ws) = (if wanted i then 1 else 0) + held ws

  count-append : (xs ys : List Info) → count (xs ++ ys) ≡ count xs + count ys
  count-append [] ys = omega arith
  count-append (x ∷ xs) ys = omega (arith, count-append xs ys)

  held-append : (xs ys : List (Option Info)) → held (xs ++ ys) ≡ held xs + held ys
  held-append [] ys = omega arith
  held-append (none ∷ xs) ys = held-append xs ys
  held-append (some i ∷ xs) ys = omega (arith, held-append xs ys)

module _ {ℓ κ} {Raw : Type ℓ} {Info : Type κ} (decode : Raw → Info) where
  -- How many packets of some kind there are, wherever they are.
  abbrev pub tally : (Info → Bool) → Pipeline Raw Info → ℕ
  tally q s =
      count q (map decode s.source)
      + count q (map decode s.packet_chan)
      + count q (map decode s.dropped)
      + held q s.workers
      + count q s.out_chan
      + count q s.abandoned
      + count q s.delivered

  -- The channels are within their capacities, and the counter counts what was dropped.
  pub record IsSound (s : Pipeline Raw Info) : Type 0 where
    pub packets_fit : length s.packet_chan ≤ s.packet_cap
    pub out_fits : length s.out_chan ≤ s.out_cap
    pub counted : s.dropped_count ≡ length s.dropped % u64_mod

  count-map :
      (q : Info → Bool) (xs ys : List Raw)
      → count q (map decode (xs ++ ys)) ≡ count q (map decode xs) + count q (map decode ys)
  count-map q [] ys = omega arith
  count-map q (x ∷ xs) ys = omega (arith, count-map q xs ys)

  tally-Step : (q : Info → Bool) {s t : Pipeline Raw Info} → Step decode s t → tally q s ≡ tally q t
  unfolding captured
  tally-Step q {s} (capture (sends p rest e h)) =
      omega (arith, ap (λ l. count q (map decode l)) e, count-map q s.packet_chan (p ∷ []))
  tally-Step q {s} (capture (hands_on p rest before after e h ew)) = omega (
    arith,
    ap (λ l. count q (map decode l)) e,
    ap (held q) ew,
    held-append q before (none ∷ after),
    held-append q before (some (decode p) ∷ after),
  )
  tally-Step q {s} (capture (drops p rest e h)) =
      omega (arith, ap (λ l. count q (map decode l)) e, count-map q s.dropped (p ∷ []))
  tally-Step q {s} (worker (takes before after p rest ew ec)) = omega (
    arith,
    ap (held q) ew,
    ap (λ l. count q (map decode l)) ec,
    held-append q before (none ∷ after),
    held-append q before (some (decode p) ∷ after),
  )
  tally-Step q {s} (worker (passes_on before after i ew h)) = omega (
    arith,
    ap (held q) ew,
    count-append q s.out_chan (i ∷ []),
    held-append q before (none ∷ after),
    held-append q before (some i ∷ after),
  )
  tally-Step q {s} (worker (delivers before after i ew h)) = omega (
    arith,
    ap (held q) ew,
    count-append q s.delivered (i ∷ []),
    held-append q before (none ∷ after),
    held-append q before (some i ∷ after),
  )
  tally-Step q {s} (worker (returns before after ew)) =
      omega (arith, ap (held q) ew, held-append q before (none ∷ after), held-append q before after)
  tally-Step q {s} (worker (gives_up before after i ew)) = omega (
    arith,
    ap (held q) ew,
    count-append q s.abandoned (i ∷ []),
    held-append q before (some i ∷ after),
    held-append q before after,
  )
  tally-Step q {s} (aggregator i rest e) =
      omega (arith, ap (count q) e, count-append q s.delivered (i ∷ []))

  IsSound-Step : {s t : Pipeline Raw Info} → Step decode s t → IsSound s → IsSound t
  unfolding captured
  IsSound-Step {s} (capture (sends p rest e h)) v = record {
    packets_fit = omega (arith, length-append s.packet_chan (p ∷ []));
    out_fits = v.out_fits;
    counted = v.counted;
  }
  IsSound-Step (capture (hands_on p rest before after e h ew)) v = record {
    packets_fit = v.packets_fit;
    out_fits = v.out_fits;
    counted = v.counted;
  }
  IsSound-Step {s} (capture (drops p rest e h)) v = record {
    packets_fit = v.packets_fit;
    out_fits = v.out_fits;
    counted = omega (arith, v.counted, length-append s.dropped (p ∷ []));
  }
  IsSound-Step {s} (worker (takes before after p rest ew ec)) v = record {
    packets_fit = omega (arith, v.packets_fit, ap length ec);
    out_fits = v.out_fits;
    counted = v.counted;
  }
  IsSound-Step {s} (worker (passes_on before after i ew h)) v = record {
    packets_fit = v.packets_fit;
    out_fits = omega (arith, length-append s.out_chan (i ∷ []));
    counted = v.counted;
  }
  IsSound-Step (worker (delivers before after i ew h)) v = record {
    packets_fit = v.packets_fit;
    out_fits = v.out_fits;
    counted = v.counted;
  }
  IsSound-Step (worker (returns before after ew)) v = record {
    packets_fit = v.packets_fit;
    out_fits = v.out_fits;
    counted = v.counted;
  }
  IsSound-Step (worker (gives_up before after i ew)) v = record {
    packets_fit = v.packets_fit;
    out_fits = v.out_fits;
    counted = v.counted;
  }
  IsSound-Step {s} (aggregator i rest e) v = record {
    packets_fit = v.packets_fit;
    out_fits = omega (arith, v.out_fits, ap length e);
    counted = v.counted;
  }

  -- In every interleaving of the capture loop, the workers, cancellations and the aggregator: no
  -- packet is lost or doubled, since for every kind of packet the number of those still to come,
  -- buffered, dropped, held by a worker, given up and delivered stays the same; the channels stay
  -- within their capacities; and the counter of dropped packets is right up to its wrap-around.
  pub tally_conserved :
      {s t : Pipeline Raw Info}
      → Steps decode s t
      → IsSound s
      → IsSound t × ((q : Info → Bool) → tally q s ≡ tally q t)
  tally_conserved stop v = (v, λ q. refl)
  tally_conserved (then_ step steps) v =
      let rest = tally_conserved steps (IsSound-Step step v) in
      (rest.0, λ q. tally-Step q step ∙ rest.1 q)

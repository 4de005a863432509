-- ===== src/Pipeline.antt =====
-- internal/capture/capture.go and internal/decode/pool.go: the way of a packet from the capture loop
-- over a buffered channel to the decoding workers and over a second one to the aggregator. What the
-- goroutines do is a step relation; any order of steps is an interleaving.
pub mod Conserve
use undertow.Base.{
  ℕ, ◌≤◌, ◌<◌, ◌≡◌, Bool, Option, none, some, List, [], ◌∷◌, ◌++◌, if◌then◌else◌, add64, length,
}

-- `Raw` is a packet of gopacket, `Info` what `DecodePacket` makes of it. A channel is its buffer,
-- the oldest first, and its capacity; where this is 0, a send meets the receive. A worker holds
-- what it has decoded and not yet sent. The lists of what was dropped and what a cancelled worker
-- gave up are kept for the record.
module _ {ℓ κ} (Raw : Type ℓ) (Info : Type κ) where
  pub record Pipeline : Type (ℓ ⊔ κ) where
    pub source : List Raw
    pub recording : Bool
    pub recorded : List Raw
    pub packet_chan : List Raw
    pub packet_cap : ℕ
    pub dropped_count : ℕ
    pub dropped : List Raw
    pub workers : List (Option Info)
    pub out_chan : List Info
    pub out_cap : ℕ
    pub abandoned : List Info
    pub delivered : List Info

module _ {ℓ κ} {Raw : Type ℓ} {Info : Type κ} (decode : Raw → Info) where
  -- One packet of the capture loop: recorded, then put into the channel, taken by a waiting worker
  -- where the channel has no buffer, or dropped if the channel is full or no worker is waiting.
  unfoldable pub captured : Pipeline Raw Info → Raw → List Raw → Pipeline Raw Info
  captured s p rest = record s {
    source = rest;
    recorded = if s.recording then s.recorded ++ p ∷ [] else s.recorded;
  }

  pub data CaptureStep (s : Pipeline Raw Info) : Pipeline Raw Info → Type (ℓ ⊔ κ) where
    sends :
        (p : Raw) (rest : List Raw)
        → s.source ≡ p ∷ rest
        → length s.packet_chan < s.packet_cap
        → CaptureStep s (record (captured s p rest) { packet_chan = s.packet_chan ++ p ∷ [] })
    hands_on :
        (p : Raw) (rest : List Raw) (before after : List (Option Info))
        → s.source ≡ p ∷ rest
        → s.packet_cap ≡ 0
        → s.workers ≡ before ++ none ∷ after
        → CaptureStep s (record (captured s p rest) { workers = before ++ some (decode p) ∷ after })
    drops :
        (p : Raw) (rest : List Raw)
        → s.source ≡ p ∷ rest
        → s.packet_cap ≤ length s.packet_chan
        → CaptureStep s (record (captured s p rest) {
          dropped_count = add64 s.dropped_count 1;
          dropped = s.dropped ++ p ∷ [];
        })

  -- One worker: it takes a packet and decodes it, sends what it holds, to the aggregator itself where
  -- the channel has no buffer, or returns when the context is cancelled.
  pub data WorkerStep (s : Pipeline Raw Info) : Pipeline Raw Info → Type (ℓ ⊔ κ) where
    takes :
        (before after : List (Option Info)) (p : Raw) (rest : List Raw)
        → s.workers ≡ before ++ none ∷ after
        → s.packet_chan ≡ p ∷ rest
        → WorkerStep s
            (record s { packet_chan = rest; workers = before ++ some (decode p) ∷ after })
    passes_on :
        (before after : List (Option Info)) (i : Info)
        → s.workers ≡ before ++ some i ∷ after
        → length s.out_chan < s.out_cap
        → WorkerStep s
            (record s { out_chan = s.out_chan ++ i ∷ []; workers = before ++ none ∷ after })
    delivers :
        (before after : List (Option Info)) (i : Info)
        → s.workers ≡ before ++ some i ∷ after
        → s.out_cap ≡ 0
        → WorkerStep s
            (record s { workers = before ++ none ∷ after; delivered = s.delivered ++ i ∷ [] })
    returns :
        (before after : List (Option Info))
        → s.workers ≡ before ++ none ∷ after
        → WorkerStep s (record s { workers = before ++ after })
    gives_up :
        (before after : List (Option Info)) (i : Info)
        → s.workers ≡ before ++ some i ∷ after
        → WorkerStep s (record s { workers = before ++ after; abandoned = s.abandoned ++ i ∷ [] })

  pub data Step (s : Pipeline Raw Info) : Pipeline Raw Info → Type (ℓ ⊔ κ) where
    capture : {t : Pipeline Raw Info} → CaptureStep s t → Step s t
    worker : {t : Pipeline Raw Info} → WorkerStep s t → Step s t
    aggregator :
        (i : Info) (rest : List Info)
        → s.out_chan ≡ i ∷ rest
        → Step s (record s { out_chan = rest; delivered = s.delivered ++ i ∷ [] })

  pub data Steps : Pipeline Raw Info → Pipeline Raw Info → Type (ℓ ⊔ κ) where
    stop : {s : Pipeline Raw Info} → Steps s s
    then_ : {s t u : Pipeline Raw Info} → Step s t → Steps t u → Steps s u

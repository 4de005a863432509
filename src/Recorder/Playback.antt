-- ===== src/Recorder/Playback.antt =====
-- What was recorded is played back.
use undertow.Base.{
  ℕ, ◌+◌, ◌*◌, ◌/◌, ◌^◌, ◌≤◌, ◌<◌, ◌≡◌, refl, sym, ap, subst, ◌∙◌, String, true, false, Option,
  none, some, List, [], ◌∷◌, ◌++◌, map, arith, length, length-map, take, All,
}
use mathlib.Core.List.{append_assoc, append-nil, map-map}
use mathlib.Core.Option.{some-injective}
use undertow.Base.Float.{FloatOps}
use undertow.Packet.{second, PacketInfo}
use undertow.Replay.{ReplayEngine, engine_of, engine_from, new_replay_engine}
use undertow.Replay.Play.{play_rounds, play_rounds-take}
use undertow.Recorder.{
  Captured, PcapOps, Recorder, new_recorder, with_header, with_file, write_packet, close, write_all,
}

-- What a pcap file keeps of a packet: the time to the microsecond, and no interface.
abbrev pub stored : Captured → Captured
stored p = record {
  metadata = record {
    timestamp = p.metadata.timestamp / 1000 * 1000;
    capture_length = p.metadata.capture_length;
    length = p.metadata.length;
    interface_index = 0;
  };
  bytes = p.bytes;
}

-- The start of 1970 and its distance from the zero time, in seconds.
abbrev epoch : ℕ
epoch = 62_135_596_800

-- A packet that a file with this snap length can keep: its lengths fit each other and the snap length,
-- and its seconds since 1970 are a number of 32 bits.
pub record IsWhole (snaplen : ℕ) (p : Captured) : Type 0 where
  pub captured : p.metadata.capture_length ≡ length p.bytes
  pub within : p.metadata.capture_length ≤ p.metadata.length
  pub below_snaplen : p.metadata.capture_length ≤ snaplen
  pub length_fits : p.metadata.length < 2 ^ 32
  pub since_epoch : epoch * second ≤ p.metadata.timestamp
  pub time_fits : p.metadata.timestamp < (epoch + 2 ^ 32) * second

-- The documented behaviour of pcapgo's writer and of reading what it wrote, where no error is
-- reported: `contents` are the packets in a file with a header, as a reader finds them once it is
-- closed, and `snaplen_of` is the snap length of its header. Nothing is said of a call that fails.
pub record PcapLaws (O : PcapOps) : Type 0 where
  pub contents : O.File → List Captured
  pub snaplen_of : O.File → ℕ
  pub contents-header :
      (f : O.File) (snaplen link_type : ℕ)
      → (O.write_file_header f snaplen link_type).1 ≡ none
      → contents (O.write_file_header f snaplen link_type).0 ≡ []
  pub snaplen-header :
      (f : O.File) (snaplen link_type : ℕ)
      → (O.write_file_header f snaplen link_type).1 ≡ none
      → snaplen_of (O.write_file_header f snaplen link_type).0 ≡ snaplen
  pub contents-write :
      (f : O.File) (p : Captured)
      → IsWhole (snaplen_of f) p
      → (O.write_packet f p.metadata p.bytes).1 ≡ none
      → contents (O.write_packet f p.metadata p.bytes).0 ≡ contents f ++ stored p ∷ []
  pub snaplen-write :
      (f : O.File) (p : Captured)
      → (O.write_packet f p.metadata p.bytes).1 ≡ none
      → snaplen_of (O.write_packet f p.metadata p.bytes).0 ≡ snaplen_of f
  pub contents-close : (f : O.File) → (O.close f).1 ≡ none → contents (O.close f).0 ≡ contents f

module _ (O : PcapOps) where
  -- None of the packets' writes reports an error.
  abbrev AllWritten : Recorder O → List Captured → Type 0
  AllWritten r [] = Unit
  AllWritten r (p ∷ ps) = ((write_packet O r p).0 ≡ none) × AllWritten (write_packet O r p).1 ps

module _ (O : PcapOps) (L : PcapLaws O) where
  open L use {
    contents, snaplen_of, contents-header, snaplen-header, contents-write, snaplen-write,
    contents-close,
  }

  -- A recorder that writes to a file with this snap length whose packets are `ps`.
  record IsRecording (snaplen : ℕ) (r : Recorder O) (ps : List Captured) : Type 0 where
    file_set : r.has_file ≡ true
    writer_set : r.has_writer ≡ true
    snap : snaplen_of r.file ≡ snaplen
    holds : contents r.file ≡ ps

  new_recorder-IsRecording :
      (filename : String) (snaplen link_type : ℕ) (r : Recorder O)
      → new_recorder O filename snaplen link_type ≡ (none, some r)
      → IsRecording snaplen r []
  unfolding new_recorder
  new_recorder-IsRecording filename snaplen link_type r e = opened (O.create filename) e
    where
      headed :
          (q : O.File × Option String)
          → (q.1 ≡ none → contents q.0 ≡ [])
          → (q.1 ≡ none → snaplen_of q.0 ≡ snaplen)
          → with_header O q ≡ (none, some r)
          → IsRecording snaplen r []
      headed (f, some err) c l h = absurd (ground (arith, h))
      headed (f, none) c l h =
          subst (λ q. IsRecording snaplen q [])
            (some-injective (record { has_file = true; has_writer = true; file = f }) r
              (ap (λ q. q.1) h))
            (record { file_set = refl; writer_set = refl; snap = l refl; holds = c refl })

      opened :
          (q : O.File × Option String)
          → with_file O filename snaplen link_type q ≡ (none, some r)
          → IsRecording snaplen r []
      opened (f, some err) h = absurd (ground (arith, h))
      opened (f, none) h =
          headed (O.write_file_header f snaplen link_type) (contents-header f snaplen link_type)
            (snaplen-header f snaplen link_type) h

  -- With a writer, the recorder's error is the writer's.
  error-write_packet :
      (r : Recorder O) (p : Captured)
      → r.has_writer ≡ true
      → (write_packet O r p).0 ≡ (O.write_packet r.file p.metadata p.bytes).1
  unfolding write_packet
  error-write_packet r p h = rw h

  write_packet-IsRecording :
      (snaplen : ℕ) (r : Recorder O) (p : Captured) (before : List Captured)
      → IsWhole snaplen p
      → (write_packet O r p).0 ≡ none
      → IsRecording snaplen r before
      → IsRecording snaplen (write_packet O r p).1 (before ++ stored p ∷ [])
  write_packet-IsRecording snaplen r p before w ok i =
      let good = sym (error-write_packet r p i.writer_set) ∙ ok in
      unfold write_packet in
      rw i.writer_set (record {
        file_set = i.file_set;
        writer_set = refl;
        snap = snaplen-write r.file p good ∙ i.snap;
        holds =
            contents-write r.file p (subst (λ n. IsWhole n p) (sym i.snap) w) good
            ∙ ap (λ l. l ++ stored p ∷ []) i.holds;
      })

  write_all-IsRecording :
      (snaplen : ℕ) (r : Recorder O) (ps before : List Captured)
      → All (IsWhole snaplen) ps
      → AllWritten O r ps
      → IsRecording snaplen r before
      → IsRecording snaplen (write_all O r ps) (before ++ map stored ps)
  unfolding write_all
  write_all-IsRecording snaplen r [] before a ok i =
      subst (IsRecording snaplen r) (sym (append-nil before)) i
  write_all-IsRecording snaplen r (p ∷ ps) before a ok i =
      subst (IsRecording snaplen (write_all O (write_packet O r p).1 ps))
        (append_assoc before (stored p ∷ []) (map stored ps))
        (write_all-IsRecording snaplen (write_packet O r p).1 ps (before ++ stored p ∷ []) a.1 ok.1
          (write_packet-IsRecording snaplen r p before a.0 ok.0 i))

  -- A closed recorder writes no more.
  write_packet_closed :
      (r : Recorder O) (p : Captured) → r.has_writer ≡ false → (write_packet O r p).1 ≡ r
  unfolding write_packet
  write_packet_closed r p h = ground (arith, h)

  write_all_closed :
      (r : Recorder O) (ps : List Captured) → r.has_writer ≡ false → write_all O r ps ≡ r
  unfolding write_all
  write_all_closed r [] h = refl
  write_all_closed r (p ∷ ps) h =
      ap (λ q. write_all O q ps) (write_packet_closed r p h) ∙ write_all_closed r ps h

  error-close : (r : Recorder O) → r.has_file ≡ true → (close O r).0 ≡ (O.close r.file).1
  unfolding close
  error-close r h = rw h

  closed-contents :
      (snaplen : ℕ) (r : Recorder O) (ps late : List Captured)
      → (close O r).0 ≡ none
      → IsRecording snaplen r ps
      → contents (write_all O (close O r).1 late).file ≡ ps
  closed-contents snaplen r ps late ok i =
      let good = sym (error-close r i.file_set) ∙ ok in
      unfold close in
      rw i.file_set (
        ap (λ (q : Recorder O). contents q.file) (write_all_closed _ late refl)
        ∙ contents-close r.file good
        ∙ i.holds)

module _ (O : PcapOps) (L : PcapLaws O) (F : FloatOps) (decode : Captured → PacketInfo) where
  -- `pcap.OpenOffline` of the file, and each of its packets decoded.
  abbrev pub read_back : O.File → String → Option (List PacketInfo)
  read_back file filename = some (map decode (L.contents file))

  -- The packets that were recorded, as a file keeps them, decoded.
  abbrev pub recorded : List Captured → List PacketInfo
  recorded ps = map (λ p. decode (stored p)) ps

  plays :
      (filename : String) (packets : List PacketInfo)
      → 0 < length packets
      → (re : ReplayEngine F) × (engine_of F filename packets ≡ some re)
        × ((n : ℕ) → play_rounds F n re ≡ take n packets)
  unfolding engine_of
  plays filename [] h = elim h [ ]
  plays filename (p ∷ ps) h = (_, refl, λ n. play_rounds-take F n _ refl)

  -- A recording of whole packets that was opened, written and closed without an error, whatever
  -- arrives later: opening it as a replay gives an engine whose rounds send the recorded packets in
  -- order, each decoded from what the file keeps, the time to the microsecond, and nothing else.
  pub recorded_replays :
      (filename : String) (snaplen link_type : ℕ) (r : Recorder O) (ps late : List Captured)
      → new_recorder O filename snaplen link_type ≡ (none, some r)
      → All (IsWhole snaplen) ps
      → AllWritten O r ps
      → (close O (write_all O r ps)).0 ≡ none
      → 0 < length ps
      → let file = (write_all O (close O (write_all O r ps)).1 late).file in
        (re : ReplayEngine F) × (new_replay_engine F (read_back file) filename ≡ some re)
        × ((n : ℕ) → play_rounds F n re ≡ take n (recorded ps))
  unfolding new_replay_engine engine_from
  recorded_replays filename snaplen link_type r ps late e whole written closed some_packet =
      rw
        (
          closed-contents O L snaplen (write_all O r ps) (map stored ps) late closed (
              write_all-IsRecording O L snaplen r ps [] whole written
                (new_recorder-IsRecording O L filename snaplen link_type r e)),
          map-map decode stored ps,
        )
        (plays filename (recorded ps) (omega (arith, length-map (λ p. decode (stored p)) ps)))

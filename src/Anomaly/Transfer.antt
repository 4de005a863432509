-- ===== src/Anomaly/Transfer.antt =====
-- `checkLargeTransfer` and `CheckPacket`: one transfer alert for a flow, and what events look like.
use undertow.Base.{
  ℕ, suc, ◌+◌, ◌≤◌, ◌≡◌, refl, ◌∙◌, ap, inl, inr, String, Bool, true, false, not, ◌&&◌, ◌||◌,
  Option, none, some, List, [], ◌∷◌, ◌++◌, arith, leb, if◌then◌else◌, is_some, length, Bool-cases,
  if_both, if_same,
}
use native.Mathlib.Nat.{zero-add, add-zero}
use undertow.Base.Eq.{◌==◌, string_eq}
use undertow.Base.Dict.{get, or_else, get-put}
use undertow.Base.Strings.{trim_suffix}
use undertow.Base.Float.{FloatOps}
use undertow.Packet.{FlowKey, flow_key_eq, FlowStat, AnomalyEvent, PacketInfo}
use undertow.Anomaly.{
  Config, Detector, is_flagged, threshold_bytes, check_port_scan, check_large_transfer,
  check_suspicious_dns, scan_part, transfer_part, dns_part, events_of, check_from, check_packet,
  distinct_ports, scan_entries, is_suspicious,
}

module _ (F : FloatOps) where
  -- `checkLargeTransfer` alerts exactly when the flow has reached the threshold and is not flagged,
  -- and afterwards the flagged flows are those before and, after an alert, this one.
  check_large_transfer_exact :
      (d : Detector F) (pkt : PacketInfo) (flow : FlowStat)
      → (is_some (check_large_transfer F d pkt flow).0
          ≡ (leb (threshold_bytes F d.config) flow.bytes_sent && not (is_flagged F d flow.key)))
        × ((k : FlowKey)
            → is_flagged F (check_large_transfer F d pkt flow).1 k ≡ (
                (is_some (check_large_transfer F d pkt flow).0 && flow.key == k)
                || is_flagged F d k))
        × ((check_large_transfer F d pkt flow).1.config ≡ d.config)
        × ((check_large_transfer F d pkt flow).1.port_scan_track ≡ d.port_scan_track)
  unfolding check_large_transfer
  check_large_transfer_exact d pkt flow =
      elim (Bool-cases
        (leb (threshold_bytes F d.config) flow.bytes_sent && not (is_flagged F d flow.key))) [
          | inl h ↦ rw h (refl, λ k. rw get-put (ground arith), refl, refl)
          | inr h ↦ rw h (refl, λ k. refl, refl, refl)
        ]

  -- The alerts of the kind among some events.
  abbrev count_kind : String → List AnomalyEvent → ℕ
  count_kind k [] = 0
  count_kind k (e ∷ es) = if e.kind == k then suc (count_kind k es) else count_kind k es

  count_kind-append :
      (k : String) (es fs : List AnomalyEvent)
      → count_kind k (es ++ fs) ≡ count_kind k es + count_kind k fs
  count_kind-append k [] fs = omega arith
  count_kind-append k (e ∷ es) fs = ground (arith, count_kind-append k es fs)

  scan_part_kind :
      (d : Detector F) (pkt : PacketInfo) (ip : String)
      → count_kind "LARGE_TRANSFER" (events_of F (scan_part F d pkt ip).0) ≡ 0
  unfolding scan_part check_port_scan
  scan_part_kind d pkt ip = elim (Bool-cases (pkt.protocol == "TCP" || pkt.protocol == "UDP")) [
    | inl h ↦
        rw h
          (elim (Bool-cases (
            leb d.config.scan_threshold
              (length (distinct_ports (scan_entries F d ip pkt.dst_port pkt.timestamp))))) [
                | inl k ↦ rw k
                | inr k ↦ rw k
              ])
    | inr h ↦ rw h
  ]

  -- What the scan part leaves alone.
  scan_part_keeps :
      (d : Detector F) (pkt : PacketInfo) (ip : String)
      → ((scan_part F d pkt ip).1.flagged_flows ≡ d.flagged_flows)
        × ((scan_part F d pkt ip).1.config ≡ d.config)
  unfolding scan_part check_port_scan
  scan_part_keeps d pkt ip = elim (Bool-cases (pkt.protocol == "TCP" || pkt.protocol == "UDP")) [
    | inl h ↦
        rw h
          (elim (Bool-cases (
            leb d.config.scan_threshold
              (length (distinct_ports (scan_entries F d ip pkt.dst_port pkt.timestamp))))) [
                | inl k ↦ rw k (refl, refl)
                | inr k ↦ rw k (refl, refl)
              ])
    | inr h ↦ rw h (refl, refl)
  ]

  dns_part_kind :
      (cfg : Config F) (pkt : PacketInfo) (ip : String)
      → count_kind "LARGE_TRANSFER" (events_of F (dns_part F cfg pkt ip)) ≡ 0
  unfolding dns_part check_suspicious_dns
  dns_part_kind cfg pkt ip =
      elim (Bool-cases (pkt.protocol == "DNS" && not (pkt.dns_query == ""))) [
        | inl h ↦ rw h (elim (Bool-cases (is_suspicious F cfg (trim_suffix b'.' pkt.dns_query))) [
          | inl k ↦ rw k
          | inr k ↦ rw k
        ])
        | inr h ↦ rw h
      ]

  transfer_part_kind :
      (d : Detector F) (pkt : PacketInfo) (flow : FlowStat)
      → count_kind "LARGE_TRANSFER" (events_of F (transfer_part F d pkt (some flow)).0)
        ≡ (if is_some (check_large_transfer F d pkt flow).0 then 1 else 0)
  unfolding transfer_part check_large_transfer
  transfer_part_kind d pkt flow =
      elim (Bool-cases
        (leb (threshold_bytes F d.config) flow.bytes_sent && not (is_flagged F d flow.key))) [
          | inl h ↦ rw h
          | inr h ↦ rw h
        ]

  -- The flow of a packet is the one that is asked for.
  abbrev pub is_flow : FlowKey → Option FlowStat → Bool
  is_flow k none = false
  is_flow k (some flow) = flow.key == k

  -- The transfer alerts of a flow in a run of `CheckPacket`.
  abbrev pub transfer_alerts : FlowKey → Detector F → List (PacketInfo × Option FlowStat) → ℕ
  transfer_alerts k d [] = 0
  transfer_alerts k d ((pkt, flow) ∷ steps) =
      let (events, d') = check_packet F d pkt flow in
      (if is_flow k flow then count_kind "LARGE_TRANSFER" events else 0)
      + transfer_alerts k d' steps

  abbrev flag_count : Detector F → FlowKey → ℕ
  flag_count d k = if is_flagged F d k then 1 else 0

  pays :
      (a s old new : Bool)
      → new ≡ ((s && a) || old)
      → (a ≡ true → s ≡ true → old ≡ false)
      → (if a then (if s then 1 else 0) else 0) + (if old then 1 else 0) ≤ (if new then 1 else 0)
  pays a s old new e h = ground arith

  check_from_pays :
      (k : FlowKey) (d : Detector F) (pkt : PacketInfo) (flow : Option FlowStat)
      (src : Option String)
      → (if is_flow k flow then count_kind "LARGE_TRANSFER" (check_from F d pkt flow src).0 else 0)
          + flag_count d k
        ≤ flag_count (check_from F d pkt flow src).1 k
  unfolding check_from
  check_from_pays k d pkt none none = omega arith
  check_from_pays k d pkt (some flow) none =
      if_same (flow.key == k) (λ n. n + flag_count d k ≤ flag_count d k) (omega arith)
  check_from_pays k d pkt none (some ip) =
      unfold transfer_part in rw (scan_part_keeps d pkt ip).0 (omega arith)
  check_from_pays k d pkt (some flow) (some ip) =
      rw
        (
          count_kind-append,
          count_kind-append,
          scan_part_kind d pkt ip,
          transfer_part_kind d1 pkt flow,
          dns_part_kind (transfer_part F d1 pkt (some flow)).1.config pkt ip,
        )
        (unfold transfer_part in
          rw (zero-add, add-zero) (pays (flow.key == k) _ _ _ flags unflagged))
    where
      d1 : Detector F
      d1 = (scan_part F d pkt ip).1

      flags :
          is_flagged F (check_large_transfer F d1 pkt flow).1 k
          ≡ ((is_some (check_large_transfer F d1 pkt flow).0 && flow.key == k) || is_flagged F d k)
      flags = (check_large_transfer_exact d1 pkt flow).1 k ∙ rw (scan_part_keeps d pkt ip).0

      unflagged :
          flow.key == k ≡ true
          → is_some (check_large_transfer F d1 pkt flow).0 ≡ true
          → is_flagged F d k ≡ false
      unflagged e h = ground (
        arith,
        (check_large_transfer_exact d1 pkt flow).0,
        (flow_key_eq.same_iff flow.key k).0 e,
        ap (λ m. or_else (get m k) false) (scan_part_keeps d pkt ip).0,
      )

  -- One packet: what it alerts for the flow, the flag then pays for.
  check_packet_pays :
      (k : FlowKey) (d : Detector F) (pkt : PacketInfo) (flow : Option FlowStat)
      → (if is_flow k flow then count_kind "LARGE_TRANSFER" (check_packet F d pkt flow).0 else 0)
          + flag_count d k
        ≤ flag_count (check_packet F d pkt flow).1 k
  unfolding check_packet
  check_packet_pays k d pkt flow = check_from_pays k d pkt flow pkt.src_ip

  -- Whatever packets arrive, a flow is reported as a large transfer at most once, and not at all
  -- once it is flagged.
  pub transfer_alerts_once :
      (k : FlowKey) (d : Detector F) (steps : List (PacketInfo × Option FlowStat))
      → transfer_alerts k d steps + flag_count d k ≤ 1
  transfer_alerts_once k d [] =
      if_both (λ n. 0 + n ≤ 1) (is_flagged F d k) (omega arith) (omega arith)
  transfer_alerts_once k d ((pkt, flow) ∷ steps) = omega (
    arith,
    check_packet_pays k d pkt flow,
    transfer_alerts_once k (check_packet F d pkt flow).1 steps,
  )

-- ===== src/Anomaly/Events.antt =====
-- `CheckPacket`: what its events say of the packet.
use undertow.Base.{
  ◌≤◌, ◌≡◌, refl, sym, subst, inl, inr, String, ◌&&◌, ◌||◌, not, Option, none, some, List, ◌++◌,
  arith, leb, length, length-append, All, All-append, Bool-cases,
}
use undertow.Base.Eq.{◌==◌, string_eq}
use undertow.Base.Float.{FloatOps}
use undertow.Base.Strings.{trim_suffix}
use undertow.Packet.{FlowStat, AnomalyEvent, PacketInfo}
use undertow.Anomaly.{
  Config, Detector, is_flagged, threshold_bytes, check_port_scan, check_large_transfer,
  check_suspicious_dns, scan_part, transfer_part, dns_part, events_of, check_from, check_packet,
  distinct_ports, scan_entries, is_suspicious,
}

module _ (F : FloatOps) (pkt : PacketInfo) (ip : String) (src : pkt.src_ip ≡ some ip) where
  abbrev pub IsFrom : AnomalyEvent → Type 0
  IsFrom e = (e.source_ip ≡ ip) × (e.timestamp ≡ pkt.timestamp)

  -- At most one event, and that one names the packet's host and time.
  abbrev OneFrom : Option AnomalyEvent → Type 0
  OneFrom o = All IsFrom (events_of F o) × (length (events_of F o) ≤ 1)

  scan_part_from : (d : Detector F) → OneFrom (scan_part F d pkt ip).0
  unfolding scan_part check_port_scan
  scan_part_from d = elim (Bool-cases (pkt.protocol == "TCP" || pkt.protocol == "UDP")) [
    | inl h ↦
        rw h
          (elim (Bool-cases (
            leb d.config.scan_threshold
              (length (distinct_ports (scan_entries F d ip pkt.dst_port pkt.timestamp))))) [
                | inl k ↦ rw k (((refl, refl), tt), omega arith)
                | inr k ↦ rw k (tt, omega arith)
              ])
    | inr h ↦ rw h (tt, omega arith)
  ]

  transfer_part_from :
      (d : Detector F) (flow : Option FlowStat) → OneFrom (transfer_part F d pkt flow).0
  unfolding transfer_part check_large_transfer
  transfer_part_from d none = (tt, omega arith)
  transfer_part_from d (some flow) =
      elim (Bool-cases
        (leb (threshold_bytes F d.config) flow.bytes_sent && not (is_flagged F d flow.key))) [
          | inl h ↦ rw h (((rw src, refl), tt), omega arith)
          | inr h ↦ rw h (tt, omega arith)
        ]

  dns_part_from : (cfg : Config F) → OneFrom (dns_part F cfg pkt ip)
  unfolding dns_part check_suspicious_dns
  dns_part_from cfg = elim (Bool-cases (pkt.protocol == "DNS" && not (pkt.dns_query == ""))) [
    | inl h ↦ rw h (elim (Bool-cases (is_suspicious F cfg (trim_suffix b'.' pkt.dns_query))) [
      | inl k ↦ rw k (((refl, refl), tt), omega arith)
      | inr k ↦ rw k (tt, omega arith)
    ])
    | inr h ↦ rw h (tt, omega arith)
  ]

  -- Every event that `CheckPacket` returns names the source host and the time of the packet, and
  -- there are at most three.
  pub check_packet-IsFrom :
      (d : Detector F) (flow : Option FlowStat)
      → All IsFrom (check_packet F d pkt flow).0 × (length (check_packet F d pkt flow).0 ≤ 3)
  unfolding check_packet check_from
  check_packet-IsFrom d flow =
      subst
        (λ o. All IsFrom (check_from F d pkt flow o).0 × (length (check_from F d pkt flow o).0 ≤ 3))
        (sym src)
        (
          All-append IsFrom scans (transfers ++ queries) (scan_part_from d).0 (
              All-append IsFrom transfers queries (transfer_part_from d1 flow).0
                (dns_part_from d2.config).0),
          omega (
            arith,
            length-append scans (transfers ++ queries),
            length-append transfers queries,
            (scan_part_from d).1,
            (transfer_part_from d1 flow).1,
            (dns_part_from d2.config).1,
          ),
        )
    where
      d1 : Detector F
      d1 = (scan_part F d pkt ip).1

      d2 : Detector F
      d2 = (transfer_part F d1 pkt flow).1

      scans : List AnomalyEvent
      scans = events_of F (scan_part F d pkt ip).0

      transfers : List AnomalyEvent
      transfers = events_of F (transfer_part F d1 pkt flow).0

      queries : List AnomalyEvent
      queries = events_of F (dns_part F d2.config pkt ip)

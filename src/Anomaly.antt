-- ===== src/Anomaly.antt =====
-- internal/anomaly/detect.go: the detector's state and its three heuristics. `float64` enters as
-- `FloatOps`; the order in which Go walks the frequency map is that of first occurrence.
pub mod Scan
pub mod Transfer
pub mod Events
use Prim.Native.Char.{code}
use Prim.Native.String
use undertow.Base.{
  ℕ, ◌+◌, ◌-◌, ◌*◌, String, Bool, true, false, not, ◌&&◌, ◌||◌, Option, none, some, List, [], ◌∷◌,
  ◌++◌, map, ltb, leb, nat_eq, if◌then◌else◌, is_some, mul64, length, filter,
}
use undertow.Base.Eq.{◌==◌, string_eq, number_eq}
use undertow.Base.Dict.{Dict, get, put, values, or_else}
use undertow.Base.Text.{concat, join, dec}
use undertow.Base.Strings.{trim_suffix, split}
use undertow.Base.Float.{FloatOps}
use undertow.Base.Int.{times64, negated, is_after}
use undertow.Packet.{
  Time, second, ip_string, FlowKey, flow_key_eq, FlowStat, AnomalyEvent, PacketInfo,
}

pub record TimestampedPort : Type 0 where
  pub port : ℕ
  pub timestamp : Time

-- An entry is after `now.Add(-time.Duration(window_sec) * time.Second)`, a product on `int64`.
abbrev pub in_window : Time → ℕ → TimestampedPort → Bool
in_window now window_sec e = is_after e.timestamp now (times64 (negated window_sec) second)

-- The keys of the map are the distinct ports.
unfoldable pub distinct_ports : List TimestampedPort → Dict ℕ Bool
distinct_ports [] = []
distinct_ports (e ∷ es) = put (distinct_ports es) e.port true

unfoldable pub format_bytes : FloatOps → ℕ → String
format_bytes F bytes =
    if leb 1073741824 bytes
    then concat (F.fixed 2 (F.div (F.of_nat bytes) (F.of_nat 1073741824)) ∷ " GB" ∷ [])
    else if leb 1048576 bytes
    then concat (F.fixed 2 (F.div (F.of_nat bytes) (F.of_nat 1048576)) ∷ " MB" ∷ [])
    else if leb 1024 bytes
    then concat (F.fixed 2 (F.div (F.of_nat bytes) (F.of_nat 1024)) ∷ " KB" ∷ [])
    else concat (dec bytes ∷ " B" ∷ [])

module _ (F : FloatOps) where
  pub record Config : Type 0 where
    pub scan_threshold : ℕ
    pub scan_window_sec : ℕ
    pub transfer_threshold_mb : ℕ
    pub dns_entropy_threshold : F.Float

  pub record Detector : Type 0 where
    pub config : Config
    pub port_scan_track : Dict String (List TimestampedPort)
    pub flagged_flows : Dict FlowKey Bool

  -- `freq[char]++`
  unfoldable pub char_frequencies : Dict ℕ F.Float → String → Dict ℕ F.Float
  char_frequencies freq String.[] = freq
  char_frequencies freq (String.◌∷◌ c s) =
      char_frequencies
        (put freq (code c) (F.add (or_else (get freq (code c)) (F.of_nat 0)) (F.of_nat 1))) s

  -- `entropy -= p * math.Log2(p)` over the counts
  unfoldable pub entropy_loop : F.Float → F.Float → List F.Float → F.Float
  entropy_loop len acc [] = acc
  entropy_loop len acc (count ∷ counts) =
      let p = F.div count len in entropy_loop len (F.sub acc (F.mul p (F.log2 p))) counts

  unfoldable pub calculate_shannon_entropy : String → F.Float
  calculate_shannon_entropy s =
      if nat_eq (String.len s) 0
      then F.of_nat 0
      else entropy_loop (F.of_nat (String.len s)) (F.of_nat 0) (values (char_frequencies [] s))

  -- `NewDetector`
  unfoldable pub new : Config → Detector
  new cfg = record { config = cfg; port_scan_track = []; flagged_flows = [] }

  -- The history of a host after a packet: what is still in the window, and the new entry.
  unfoldable pub scan_entries : Detector → String → ℕ → Time → List TimestampedPort
  scan_entries d src_ip dst_port now =
      filter (in_window now d.config.scan_window_sec) (or_else (get d.port_scan_track src_ip) [])
      ++ record { port = dst_port; timestamp = now } ∷ []

  -- `checkPortScan`: an alert clears the history of the host.
  unfoldable pub check_port_scan : Detector → String → ℕ → Time → Option AnomalyEvent × Detector
  check_port_scan d src_ip dst_port now =
      let entries = scan_entries d src_ip dst_port now in
      let n = length (distinct_ports entries) in
      if leb d.config.scan_threshold n
      then (
        some (record {
          timestamp = now;
          kind = "PORT_SCAN";
          source_ip = src_ip;
          detail = concat (
              "Contacted "
              ∷ dec n
              ∷ " distinct ports in "
              ∷ dec d.config.scan_window_sec
              ∷ "s"
              ∷ []);
        }),
        record d { port_scan_track = put d.port_scan_track src_ip [] },
      )
      else (none, record d { port_scan_track = put d.port_scan_track src_ip entries })

  -- `TransferThresholdMB * 1024 * 1024` on `uint64`
  abbrev pub threshold_bytes : Config → ℕ
  threshold_bytes c = mul64 (mul64 c.transfer_threshold_mb 1024) 1024

  -- A missing key of `flaggedFlows` reads as false.
  abbrev pub is_flagged : Detector → FlowKey → Bool
  is_flagged d k = or_else (get d.flagged_flows k) false

  unfoldable pub check_large_transfer :
      Detector → PacketInfo → FlowStat → Option AnomalyEvent × Detector
  check_large_transfer d pkt flow =
      if leb (threshold_bytes d.config) flow.bytes_sent && not (is_flagged d flow.key)
      then (
        some (record {
          timestamp = pkt.timestamp;
          kind = "LARGE_TRANSFER";
          source_ip = ip_string pkt.src_ip;
          detail = concat (
              "Flow "
              ∷ flow.key.src_ip
              ∷ " -> "
              ∷ flow.key.dst_ip
              ∷ " transferred "
              ∷ format_bytes F flow.bytes_sent
              ∷ " (> "
              ∷ dec d.config.transfer_threshold_mb
              ∷ " MB)"
              ∷ []);
        }),
        record d { flagged_flows = put d.flagged_flows flow.key true },
      )
      else (none, d)

  abbrev reason : Bool → String → List String
  reason b s = if b then s ∷ [] else []

  -- The three signs that `checkSuspiciousDNS` looks for in a domain.
  abbrev is_high_entropy : Config → String → Bool
  is_high_entropy cfg domain = F.gt (calculate_shannon_entropy domain) cfg.dns_entropy_threshold

  abbrev is_excessive_length : String → Bool
  is_excessive_length domain = ltb 50 (String.len domain)

  abbrev dot_count : String → ℕ
  dot_count domain = length (split b'.' domain) - 1

  abbrev pub is_suspicious : Config → String → Bool
  is_suspicious cfg domain =
      is_high_entropy cfg domain || (is_excessive_length domain || leb 5 (dot_count domain))

  unfoldable pub reasons : Config → String → List String
  reasons cfg domain =
      reason (is_high_entropy cfg domain)
        (concat ("High entropy (" ∷ F.fixed 2 (calculate_shannon_entropy domain) ∷ ")" ∷ []))
      ++ (reason (is_excessive_length domain)
            (concat ("Length " ∷ dec (String.len domain) ∷ " > 50" ∷ []))
          ++ reason (leb 5 (dot_count domain))
              (concat ("Subdomains " ∷ dec (dot_count domain) ∷ " >= 5" ∷ [])))

  -- `checkSuspiciousDNS` reads the configuration alone.
  unfoldable pub check_suspicious_dns : Config → String → String → Time → Option AnomalyEvent
  check_suspicious_dns cfg src_ip query now =
      let domain = trim_suffix b'.' query in
      if is_suspicious cfg domain
      then some (record {
        timestamp = now;
        kind = "SUSPICIOUS_DNS";
        source_ip = src_ip;
        detail = concat ("Query '" ∷ domain ∷ "': " ∷ join ", " (reasons cfg domain) ∷ []);
      })
      else none

  abbrev pub events_of : Option AnomalyEvent → List AnomalyEvent
  events_of none = []
  events_of (some e) = e ∷ []

  -- The three parts of `CheckPacket`, each with its guard.
  unfoldable pub scan_part : Detector → PacketInfo → String → Option AnomalyEvent × Detector
  scan_part d pkt src_ip =
      if pkt.protocol == "TCP" || pkt.protocol == "UDP"
      then check_port_scan d src_ip pkt.dst_port pkt.timestamp
      else (none, d)

  unfoldable pub transfer_part :
      Detector → PacketInfo → Option FlowStat → Option AnomalyEvent × Detector
  transfer_part d pkt none = (none, d)
  transfer_part d pkt (some flow) = check_large_transfer d pkt flow

  unfoldable pub dns_part : Config → PacketInfo → String → Option AnomalyEvent
  dns_part cfg pkt src_ip =
      if pkt.protocol == "DNS" && not (pkt.dns_query == "")
      then check_suspicious_dns cfg src_ip pkt.dns_query pkt.timestamp
      else none

  pub check_from :
      Detector → PacketInfo → Option FlowStat → Option String → List AnomalyEvent × Detector
  check_from d pkt flow none = ([], d)
  check_from d pkt flow (some src_ip) =
      let (scan, d1) = scan_part d pkt src_ip in
      let (transfer, d2) = transfer_part d1 pkt flow in
      (events_of scan ++ (events_of transfer ++ events_of (dns_part d2.config pkt src_ip)), d2)

  -- `CheckPacket`
  unfoldable pub check_packet :
      Detector → PacketInfo → Option FlowStat → List AnomalyEvent × Detector
  unfolding check_from
  check_packet d pkt flow = check_from d pkt flow pkt.src_ip

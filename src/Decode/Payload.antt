-- ===== src/Decode/Payload.antt =====
-- internal/decode/decode.go: what the application payload adds, and DecodePacket.
use undertow.Base.{
  ℕ, String, not, ◌&&◌, ◌||◌, Option, none, some, List, [], ◌∷◌, nat_eq, if◌then◌else◌, length,
}
use undertow.Base.Eq.{◌==◌, string_eq}
use undertow.Base.Text.{concat}
use undertow.Base.Bytes.{Slice}
use undertow.Packet.{ip_string, PacketInfo}
use undertow.Stats.{blank_packet}
use undertow.Tls.Ja3.{Ja3Result, parse_client_hello}
use undertow.Tls.Ja4.{Ja4Result, calculate_ja4}
use undertow.Threat.{NetOps, Engine, match_ip, match_domain}
use undertow.Decode.{
  Layers, length, link_layer, network_layer, transport_layer, dns_layer, shown, has_http_header,
  parse_http_info,
}

unfoldable pub with_http : PacketInfo → String × String × String → PacketInfo
with_http info (method, host, path) =
    if not (method == "") || not (host == "")
    then record info { protocol = "HTTP"; http_method = method; http_host = host; http_path = path }
    else info

unfoldable http_payload :
    (List ℕ → Option (String × String × String)) → Option Slice → PacketInfo → PacketInfo
http_payload read_request none info = info
http_payload read_request (some payload) info =
    with_http (record info { payload = shown payload })
      (parse_http_info read_request (shown payload))

unfoldable http_layer :
    (List ℕ → Option (String × String × String)) → Option Slice → PacketInfo → PacketInfo
unfolding http_payload
http_layer read_request application info =
    if info.protocol == "TCP"
      && (nat_eq info.src_port 80 || (nat_eq info.dst_port 80 || has_http_header application))
    then http_payload read_request application info
    else info

unfoldable with_ja3 : PacketInfo → Option Ja3Result → PacketInfo
with_ja3 info none = info
with_ja3 info (some r) = record info {
  protocol = "TLS";
  ja3_hash = r.hash;
  ja3_label = r.label;
  ja3_raw = r.raw_string;
}

unfoldable with_ja4 : PacketInfo → Option Ja4Result → PacketInfo
with_ja4 info none = info
with_ja4 info (some r) = record info {
  protocol = "TLS";
  ja4_string = r.ja4_string;
  ja4_label = r.label;
  threat_alert =
      if r.is_malware then concat ("[!] THREAT_ALERT: " ∷ r.label ∷ []) else info.threat_alert;
}

-- Both results, `none` where a parser panics
unfoldable pub with_both :
    PacketInfo → Option (Option Ja3Result) → Option (Option Ja4Result) → Option PacketInfo
unfolding with_ja3 with_ja4
with_both info none ja4 = none
with_both info (some ja3) none = none
with_both info (some ja3) (some ja4) = some (with_ja4 (with_ja3 info ja3) ja4)

abbrev alert : String → String → String
alert category what = concat ("[!] THREAT_ALERT: " ∷ category ∷ " (" ∷ what ∷ ")" ∷ [])

-- The lookup in the threat lists: the source, else the destination, else the DNS name.
unfoldable pub threat_lookup : (N : NetOps) → Engine N → PacketInfo → PacketInfo
threat_lookup N e info =
    let src = match_ip N e (ip_string info.src_ip) in
    let dst = match_ip N e (ip_string info.dst_ip) in
    let name = match_domain N e info.dns_query in
    if not (info.threat_alert == "")
    then info
    else if src.0
    then record info { threat_alert = alert src.1 (ip_string info.src_ip) }
    else if dst.0
    then record info { threat_alert = alert dst.1 (ip_string info.dst_ip) }
    else if not (info.dns_query == "") && name.0
    then record info { threat_alert = alert name.1 info.dns_query }
    else info

unfoldable pub keep_payload : Option Slice → PacketInfo → PacketInfo
keep_payload none info = info
keep_payload (some payload) info =
    if nat_eq (length info.payload) 0 then record info { payload = shown payload } else info

module _ (md5_hex sha256_hex12 : String → String) (ja4_lookup : String → Option String)
    (read_request : List ℕ → Option (String × String × String)) (N : NetOps) where
  unfoldable pub tls_payload : Option Slice → PacketInfo → Option PacketInfo
  unfolding with_both
  tls_payload none info = some info
  tls_payload (some payload) info =
      with_both info (parse_client_hello md5_hex payload)
        (calculate_ja4 sha256_hex12 ja4_lookup payload)

  unfoldable pub tls_layer : Option Slice → PacketInfo → Option PacketInfo
  unfolding tls_payload
  tls_layer application info =
      let found = tls_payload application info in
      if info.protocol == "TCP" then found else some info

  -- All that precedes the TLS fingerprints
  unfoldable pub classify : Layers → PacketInfo
  unfolding link_layer network_layer transport_layer dns_layer http_layer
  classify l = http_layer read_request l.application (
      dns_layer l.dns (
        transport_layer l.tcp l.udp (l.icmp4 || l.icmp6) (
          network_layer l.ip4 l.ip6 l.arp (
            link_layer l.ethernet (record blank_packet {
              timestamp = l.timestamp;
              length = l.length;
              protocol = "Other";
            })))))

  abbrev pub finish : Engine N → Layers → Option PacketInfo → Option PacketInfo
  finish e l none = none
  finish e l (some info) = some (keep_payload l.application (threat_lookup N e info))

  -- `DecodePacket` of a packet that is not nil; `none` is a panic.
  unfoldable pub decode_packet : Engine N → Layers → Option PacketInfo
  unfolding tls_layer classify
  decode_packet e l = finish e l (tls_layer l.application (classify l))

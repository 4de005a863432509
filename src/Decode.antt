-- ===== src/Decode.antt =====
-- internal/decode/decode.go: a packet of gopacket as a `PacketInfo`. The layers that gopacket parsed
-- enter as `Layers`; net/http is a parameter. The source hands a net.IP to MatchIP, which takes a text:
-- here it is the address as text.
pub mod Payload
pub mod Total
use Prim.Native.Char.{code}
use Prim.Native.String
use undertow.Base.{
  ℕ, zero, suc, ◌+◌, String, Bool, true, false, not, ◌&&◌, ◌||◌, Option, none, some, List, [], ◌∷◌,
  ltb, leb, nat_eq, if◌then◌else◌, length, take, get_or, drop, min,
}
use undertow.Base.Eq.{◌==◌, string_eq}
use undertow.Base.Text.{concat}
use undertow.Base.Strings.{has_prefix, split, to_lower, trim_space, drop_chars}
use undertow.Base.Bytes.{Slice, byte_text}
use undertow.Packet.{Time, Ip, ip_string, TcpFlagSet, PacketInfo}
use undertow.Stats.{blank_packet}
use undertow.Tls.Ja3.{Ja3Result, parse_client_hello}
use undertow.Tls.Ja4.{Ja4Result, calculate_ja4}
use undertow.Threat.{NetOps, Engine, match_ip, match_domain}

-- An IP layer with the name of its protocol, a layer with ports, and the names and types of a DNS
-- message.
pub record IpLayer : Type 0 where
  pub src : Ip
  pub dst : Ip
  pub next : String

pub record TcpLayer : Type 0 where
  pub src_port : ℕ
  pub dst_port : ℕ
  pub flags : TcpFlagSet

pub record DnsLayer : Type 0 where
  pub questions : List (String × String)
  pub answers : List (String × String)

pub record Layers : Type 0 where
  pub timestamp : Time
  pub length : ℕ
  pub ethernet : Option (String × String)
  pub ip4 : Option IpLayer
  pub ip6 : Option IpLayer
  pub arp : Option (Ip × Ip)
  pub tcp : Option TcpLayer
  pub udp : Option (ℕ × ℕ)
  pub icmp4 : Bool
  pub icmp6 : Bool
  pub dns : Option DnsLayer
  pub application : Option Slice

unfoldable pub link_layer : Option (String × String) → PacketInfo → PacketInfo
link_layer none info = info
link_layer (some (src, dst)) info = record info { src_mac = src; dst_mac = dst }

abbrev with_ip : IpLayer → PacketInfo → PacketInfo
with_ip ip info = record info { src_ip = ip.src; dst_ip = ip.dst; protocol = ip.next }

-- IPv4, else IPv6, else ARP
unfoldable pub network_layer :
    Option IpLayer → Option IpLayer → Option (Ip × Ip) → PacketInfo → PacketInfo
network_layer (some ip4) ip6 arp info = with_ip ip4 info
network_layer none (some ip6) arp info = with_ip ip6 info
network_layer none none (some (src, dst)) info = record info {
  protocol = "ARP";
  src_ip = src;
  dst_ip = dst;
}
network_layer none none none info = info

-- TCP, else UDP, else ICMP
unfoldable pub transport_layer : Option TcpLayer → Option (ℕ × ℕ) → Bool → PacketInfo → PacketInfo
transport_layer (some tcp) udp icmp info = record info {
  protocol = "TCP";
  src_port = tcp.src_port;
  dst_port = tcp.dst_port;
  tcp_flags = tcp.flags;
}
transport_layer none (some (src, dst)) icmp info = record info {
  protocol = "UDP";
  src_port = src;
  dst_port = dst;
}
transport_layer none none icmp info = if icmp then record info { protocol = "ICMP" } else info

-- The first question, else the first answer
unfoldable dns_name : List (String × String) → List (String × String) → PacketInfo → PacketInfo
dns_name ((name, type) ∷ qs) answers info = record info { dns_query = name; dns_type = type }
dns_name [] ((name, type) ∷ rest) info = record info { dns_query = name; dns_type = type }
dns_name [] [] info = info

unfoldable pub dns_layer : Option DnsLayer → PacketInfo → PacketInfo
unfolding dns_name
dns_layer none info = info
dns_layer (some dns) info = dns_name dns.questions dns.answers (record info { protocol = "DNS" })

-- The bytes that a slice shows, and as text: a byte is the character with its number.
abbrev pub shown : Slice → List ℕ
shown s = take s.len s.cells

unfoldable pub text_of : List ℕ → String
text_of [] = ""
text_of (b ∷ bs) = String.◌++◌ (byte_text b) (text_of bs)

abbrev methods : List String
methods = "GET " ∷ "POST " ∷ "PUT " ∷ "DELETE " ∷ "HEAD " ∷ "OPTIONS " ∷ "PATCH " ∷ "HTTP/1." ∷ []

abbrev starts_with_any : String → List String → Bool
starts_with_any s [] = false
starts_with_any s (m ∷ ms) = has_prefix s m || starts_with_any s ms

-- `hasHTTPHeader`
unfoldable pub has_http_header : Option Slice → Bool
has_http_header none = false
has_http_header (some payload) =
    if ltb payload.len 4
    then false
    else starts_with_any (text_of (take (min payload.len 10) payload.cells)) methods

-- `strings.Split(s, "\r\n")`, with the line that is being read and whether the last character was
-- the carriage return.
abbrev pub flush : Bool → String → String
flush true line = String.◌++◌ line "\r"
flush false line = line

split_crlf : Bool → String → String → List String
split_crlf cr line String.[] = flush cr line ∷ []
split_crlf cr line (String.◌∷◌ c s) =
    let next_line = line ∷ split_crlf false "" s in
    let held = split_crlf true (flush cr line) s in
    let plain = split_crlf false (String.◌++◌ (flush cr line) (String.◌∷◌ c String.[])) s in
    if cr && nat_eq (code c) 10 then next_line else if nat_eq (code c) 13 then held else plain

unfoldable pub lines_of : String → List String
unfolding split_crlf
lines_of s = split_crlf false "" s

abbrev is_method : String → Bool
is_method s =
    s == "GET"
    || (s == "POST"
        || (s == "PUT" || (s == "DELETE" || (s == "HEAD" || (s == "OPTIONS" || s == "PATCH")))))

-- The first line that names a host
unfoldable pub host_line : List String → String
host_line [] = ""
host_line (l ∷ ls) =
    let rest = host_line ls in
    if has_prefix (to_lower l) "host:" then trim_space (drop_chars 5 l) else rest

-- The reading by hand, where net/http gives an error
unfoldable pub fallback_http_info : List String → String × String × String
fallback_http_info ls =
    let parts = split b' ' (get_or ls 0 "") in
    let known = leb 2 (length parts) && is_method (get_or parts 0 "") in
    (
      if known then get_or parts 0 "" else "",
      host_line (drop 1 ls),
      if known then get_or parts 1 "" else "",
    )

-- `read_request` is `http.ReadRequest`: method, host and path, `none` for an error.
abbrev http_from : Option (String × String × String) → List ℕ → String × String × String
http_from none payload = fallback_http_info (lines_of (text_of payload))
http_from (some info) payload = info

-- `parseHTTPInfo`
unfoldable pub parse_http_info :
    (List ℕ → Option (String × String × String)) → List ℕ → String × String × String
parse_http_info read_request [] = ("", "", "")
parse_http_info read_request (b ∷ bs) = http_from (read_request (b ∷ bs)) (b ∷ bs)

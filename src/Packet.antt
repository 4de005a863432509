-- ===== src/Packet.antt =====
-- internal/model/packet.go: the records that the decoder makes and every other part reads.
-- A `time.Time` is its nanoseconds since the zero time, so `IsZero` is `0`. A `net.IP` is used only
-- through its text and the test against `nil`, and is modelled by these.
use undertow.Base.{
  ℕ, String, ◌≡◌, ◌↔◌, Bool, true, not, ◌&&◌, Option, none, some, List, [], ◌∷◌, ◌++◌, arith,
  if◌then◌else◌, length, nat_eq,
}
use undertow.Base.Eq.{Eq, ◌==◌, string_eq, number_eq}
use undertow.Base.Text.{concat, join, dec, pad_right, pad_left}

abbrev pub Time : Type 0
Time = ℕ

abbrev pub second : ℕ
second = 1_000_000_000

-- The text of the address; `none` is a nil `net.IP`.
abbrev pub Ip : Type 0
Ip = Option String

-- `IP.String()`
abbrev pub ip_string : Ip → String
ip_string none = "<nil>"
ip_string (some s) = s

pub record TcpFlagSet : Type 0 where
  pub syn : Bool
  pub ack : Bool
  pub fin : Bool
  pub rst : Bool
  pub psh : Bool
  pub urg : Bool

abbrev flag : Bool → String → List String
flag b name = if b then name ∷ [] else []

-- The slice of names that `String` builds.
unfoldable pub flag_names : TcpFlagSet → List String
flag_names f =
    flag f.syn "SYN"
    ++ (flag f.ack "ACK"
        ++ (flag f.fin "FIN" ++ (flag f.rst "RST" ++ (flag f.psh "PSH" ++ flag f.urg "URG"))))

unfoldable pub flags_string : TcpFlagSet → String
flags_string f =
    if nat_eq (length (flag_names f)) 0
    then "[]"
    else concat ("[" ∷ join "," (flag_names f) ∷ "]" ∷ [])

pub record FlowKey : Type 0 where
  pub src_ip : String
  pub dst_ip : String
  pub src_port : ℕ
  pub dst_port : ℕ
  pub protocol : String

pub record FlowStat : Type 0 where
  pub key : FlowKey
  pub bytes_sent : ℕ
  pub packets_sent : ℕ
  pub last_seen : Time
  pub pid : ℕ
  pub process_name : String
  pub user : String

pub record AnomalyEvent : Type 0 where
  pub timestamp : Time
  pub kind : String
  pub source_ip : String
  pub detail : String

unfoldable flow_string : FlowKey → String
flow_string fk = concat (
    fk.src_ip
    ∷ ":"
    ∷ dec fk.src_port
    ∷ " -> "
    ∷ fk.dst_ip
    ∷ ":"
    ∷ dec fk.dst_port
    ∷ " ("
    ∷ fk.protocol
    ∷ ")"
    ∷ [])

pub record PacketInfo : Type 0 where
  pub timestamp : Time
  pub length : ℕ
  pub src_mac : String
  pub dst_mac : String
  pub src_ip : Ip
  pub dst_ip : Ip
  pub protocol : String
  pub src_port : ℕ
  pub dst_port : ℕ
  pub tcp_flags : TcpFlagSet
  pub dns_query : String
  pub dns_type : String
  pub http_method : String
  pub http_host : String
  pub http_path : String
  pub ja3_hash : String
  pub ja3_label : String
  pub ja3_raw : String
  pub ja4_string : String
  pub ja4_label : String
  pub threat_alert : String
  pub payload : List ℕ

-- One side of the arrow in `Summary`.
unfoldable pub endpoint : Ip → ℕ → String → String
endpoint (some ip) port mac = if not (nat_eq port 0) then concat (ip ∷ ":" ∷ dec port ∷ []) else ip
endpoint none port mac = if not (mac == "") then mac else "-"

unfoldable pub summary_extra : PacketInfo → String
summary_extra p =
    if p.protocol == "TCP"
    then concat (" " ∷ flags_string p.tcp_flags ∷ [])
    else if p.protocol == "DNS"
    then (if not (p.dns_query == "")
        then concat (" Q:" ∷ p.dns_query ∷ " (" ∷ p.dns_type ∷ ")" ∷ [])
        else "")
    else if (p.protocol == "HTTP") && not (p.http_method == "")
    then concat (" " ∷ p.http_method ∷ " " ∷ p.http_host ∷ p.http_path ∷ [])
    else ""

-- `clock` is `Format("15:04:05.000")`, which depends on the time zone.
unfoldable pub summary : (Time → String) → PacketInfo → String
summary clock p = concat (
    clock p.timestamp
    ∷ "  "
    ∷ pad_right 22 (endpoint p.src_ip p.src_port p.src_mac)
    ∷ " -> "
    ∷ pad_right 22 (endpoint p.dst_ip p.dst_port p.dst_mac)
    ∷ "  "
    ∷ pad_right 6 p.protocol
    ∷ " "
    ∷ pad_left 5 (dec p.length)
    ∷ " bytes"
    ∷ summary_extra p
    ∷ [])

pub flow_key_same : FlowKey → FlowKey → Bool
flow_key_same a b =
    a.src_ip == b.src_ip
    && (a.dst_ip == b.dst_ip
        && (nat_eq a.src_port b.src_port
            && (nat_eq a.dst_port b.dst_port && a.protocol == b.protocol)))

pub flow_key_same_iff : (a b : FlowKey) → (flow_key_same a b ≡ true) ↔ (a ≡ b)
unfolding flow_key_same
flow_key_same_iff a b = ground (
  arith,
  string_eq.same_iff a.src_ip b.src_ip,
  string_eq.same_iff a.dst_ip b.dst_ip,
  string_eq.same_iff a.protocol b.protocol,
)

-- Flow keys are compared field by field, as Go compares structs.
instance abbrev pub flow_key_eq : Eq FlowKey
unfolding flow_key_same
flow_key_eq = record { same = flow_key_same; same_iff = flow_key_same_iff }

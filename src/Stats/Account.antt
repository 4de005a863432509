-- ===== src/Stats/Account.antt =====
-- `AddPacket` keeps the books: every counter of the aggregator agrees with the packets it has seen.
use undertow.Base.{
  ℕ, ◌+◌, ◌%◌, ◌≡◌, refl, sym, String, Option, none, some, List, [], ◌∷◌, arith, add64, u64_mod,
  length,
}
use undertow.Base.Eq.{Eq, string_eq}
use undertow.Base.Dict.{Dict, get, put, or_else, total, part, total-put}
use undertow.Packet.{FlowKey, flow_key_eq, FlowStat, PacketInfo}
use undertow.Stats.{
  TalkerStat, Stats, blank_talker, blank_flow, sent, received, add_source, add_target, bump_flow,
  add_flow, count_all,
}

-- Sums over the packets seen: all bytes, and the bytes of those with an address.
abbrev pub bytes_of : List PacketInfo → ℕ
bytes_of [] = 0
bytes_of (p ∷ ps) = p.length + bytes_of ps

abbrev if_known : Option String → ℕ → ℕ
if_known none n = 0
if_known (some ip) n = n

abbrev sent_bytes : List PacketInfo → ℕ
sent_bytes [] = 0
sent_bytes (p ∷ ps) = if_known p.src_ip p.length + sent_bytes ps

abbrev received_bytes : List PacketInfo → ℕ
received_bytes [] = 0
received_bytes (p ∷ ps) = if_known p.dst_ip p.length + received_bytes ps

abbrev flow_bytes : List PacketInfo → ℕ
flow_bytes [] = 0
flow_bytes (p ∷ ps) = if_known p.src_ip (if_known p.dst_ip p.length) + flow_bytes ps

-- What the counters say after the packets `ps`, the latest first.
pub record IsAccounted (st : Stats) (ps : List PacketInfo) : Type 0 where
  pub packets : st.total_packets ≡ length ps % u64_mod
  pub bytes : st.total_bytes ≡ bytes_of ps % u64_mod
  pub protocols : total (λ n. n) st.protocol_counts % u64_mod ≡ length ps % u64_mod
  pub sent_total : total (λ t. t.bytes_sent) st.top_talkers % u64_mod ≡ sent_bytes ps % u64_mod
  pub received_total :
      total (λ t. t.bytes_recv) st.top_talkers % u64_mod ≡ received_bytes ps % u64_mod
  pub flow_total : total (λ f. f.bytes_sent) st.flows % u64_mod ≡ flow_bytes ps % u64_mod

module _ {ℓ κ} {K : Type ℓ} {V : Type κ} ⦃e : Eq K⦄ (f : V → ℕ) (m : Dict K V) (k : K)
    (v d : V) where
  pub part_or : f d ≡ 0 → part f (get m k) ≡ f (or_else (get m k) d)
  part_or z = at (get m k)
    where
      at : (o : Option V) → part f o ≡ f (or_else o d)
      at none = sym z
      at (some w) = refl

  -- A counter that wraps, in a table of counters: the total wraps the same way.
  total-bump :
      (n : ℕ)
      → f d ≡ 0
      → f v ≡ add64 (f (or_else (get m k) d)) n
      → total f (put m k v) % u64_mod ≡ (total f m + n) % u64_mod
  total-bump n z h = omega (arith, total-put f m k v, part_or z)

  total_same : f d ≡ 0 → f v ≡ f (or_else (get m k) d) → total f (put m k v) ≡ total f m
  total_same z h = omega (arith, total-put f m k v, part_or z)

module _ (pkt : PacketInfo) where
  sent-add_source :
      (m : Dict String TalkerStat) (o : Option String)
      → total (λ t. t.bytes_sent) (add_source m pkt o) % u64_mod
        ≡ (total (λ t. t.bytes_sent) m + if_known o pkt.length) % u64_mod
  unfolding add_source sent
  sent-add_source m none = omega arith
  sent-add_source m (some ip) =
      total-bump (λ (t : TalkerStat). t.bytes_sent) m ip _ (blank_talker ip) pkt.length refl refl

  received-add_source :
      (m : Dict String TalkerStat) (o : Option String)
      → total (λ t. t.bytes_recv) (add_source m pkt o) ≡ total (λ t. t.bytes_recv) m
  unfolding add_source sent
  received-add_source m none = refl
  received-add_source m (some ip) =
      total_same (λ (t : TalkerStat). t.bytes_recv) m ip _ (blank_talker ip) refl refl

  sent-add_target :
      (m : Dict String TalkerStat) (o : Option String)
      → total (λ t. t.bytes_sent) (add_target m pkt o) ≡ total (λ t. t.bytes_sent) m
  unfolding add_target received
  sent-add_target m none = refl
  sent-add_target m (some ip) =
      total_same (λ (t : TalkerStat). t.bytes_sent) m ip _ (blank_talker ip) refl refl

  received-add_target :
      (m : Dict String TalkerStat) (o : Option String)
      → total (λ t. t.bytes_recv) (add_target m pkt o) % u64_mod
        ≡ (total (λ t. t.bytes_recv) m + if_known o pkt.length) % u64_mod
  unfolding add_target received
  received-add_target m none = omega arith
  received-add_target m (some ip) =
      total-bump (λ (t : TalkerStat). t.bytes_recv) m ip _ (blank_talker ip) pkt.length refl refl

  flow-add_flow :
      (m : Dict FlowKey FlowStat) (src dst : Option String)
      → total (λ f. f.bytes_sent) (add_flow m pkt src dst).1 % u64_mod
        ≡ (total (λ f. f.bytes_sent) m + if_known src (if_known dst pkt.length)) % u64_mod
  unfolding add_flow bump_flow
  flow-add_flow m none dst = omega arith
  flow-add_flow m (some src) none = omega arith
  flow-add_flow m (some src) (some dst) =
      total-bump (λ (f : FlowStat). f.bytes_sent) m _ _ (blank_flow _) pkt.length refl refl

  -- One packet more keeps every counter in agreement with the packets, whatever addresses it has
  -- and also where a counter wraps.
  pub count_all-IsAccounted :
      (st : Stats) (ps : List PacketInfo)
      → IsAccounted st ps
      → IsAccounted (count_all st pkt).1 (pkt ∷ ps)
  unfolding count_all
  count_all-IsAccounted st ps a = record {
    packets = omega (arith, a.packets);
    bytes = omega (arith, a.bytes);
    protocols = omega (
      arith,
      a.protocols,
      total-bump (λ (n : ℕ). n) st.protocol_counts pkt.protocol
          (add64 (or_else (get st.protocol_counts pkt.protocol) 0) 1) 0 1 refl refl,
    );
    sent_total = omega (
      arith,
      a.sent_total,
      sent-add_target (add_source st.top_talkers pkt pkt.src_ip) pkt.dst_ip,
      sent-add_source st.top_talkers pkt.src_ip,
    );
    received_total = omega (
      arith,
      a.received_total,
      received-add_target (add_source st.top_talkers pkt pkt.src_ip) pkt.dst_ip,
      received-add_source st.top_talkers pkt.src_ip,
    );
    flow_total = omega (arith, a.flow_total, flow-add_flow st.flows pkt.src_ip pkt.dst_ip);
  }

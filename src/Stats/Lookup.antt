-- ===== src/Stats/Lookup.antt =====
-- `AddPacket`: what a lookup in the tables of talkers, protocols and flows finds.
use undertow.Base.{
  ℕ, ◌+◌, ◌%◌, ◌≡◌, refl, ap, ◌∙◌, inl, inr, String, Bool, true, false, ◌||◌, Option, none, some,
  List, [], ◌∷◌, arith, add64, u64_mod, if◌then◌else◌, if_app, Bool-cases,
}
use mathlib.Core.List.{Perm}
use undertow.Base.Eq.{Eq, ◌==◌, string_eq}
use undertow.Base.Dict.{Dict, get, put, values, or_else, part, get-put}
use undertow.Base.Sort.{desc, IsSorted, sort-perm, sort-desc-IsSorted}
use undertow.Base.Float.{FloatOps}
use undertow.Packet.{Time, FlowKey, flow_key_eq, FlowStat, PacketInfo}
use undertow.Stats.{
  TalkerStat, Stats, total_bytes, blank_talker, blank_flow, flow_key, sent, received, add_source,
  add_target, bump_flow, add_flow, count_all,
}
use undertow.Stats.Manager.{StatsManager, snapshot, publish_snapshot, get_snapshot}
use undertow.Stats.Account.{part_or}

-- The packets' side: sums over the packets of one host, one protocol, one flow.
abbrev is_host : Option String → String → Bool
is_host none ip = false
is_host (some a) ip = a == ip

abbrev pub sent_by : String → List PacketInfo → ℕ
sent_by ip [] = 0
sent_by ip (p ∷ ps) = (if is_host p.src_ip ip then p.length else 0) + sent_by ip ps

abbrev received_by : String → List PacketInfo → ℕ
received_by ip [] = 0
received_by ip (p ∷ ps) = (if is_host p.dst_ip ip then p.length else 0) + received_by ip ps

abbrev of_protocol : String → List PacketInfo → ℕ
of_protocol k [] = 0
of_protocol k (p ∷ ps) = (if p.protocol == k then 1 else 0) + of_protocol k ps

abbrev pub is_flow : PacketInfo → Option String → Option String → FlowKey → Bool
is_flow p (some src) (some dst) fk = flow_key p src dst == fk
is_flow p none dst fk = false
is_flow p (some src) none fk = false

abbrev of_flow : FlowKey → List PacketInfo → ℕ
of_flow fk [] = 0
of_flow fk (p ∷ ps) = (if is_flow p p.src_ip p.dst_ip fk then p.length else 0) + of_flow fk ps

-- How many packets a host sent and received, and a flow has.
abbrev packets_from : String → List PacketInfo → ℕ
packets_from ip [] = 0
packets_from ip (p ∷ ps) = (if is_host p.src_ip ip then 1 else 0) + packets_from ip ps

abbrev packets_to : String → List PacketInfo → ℕ
packets_to ip [] = 0
packets_to ip (p ∷ ps) = (if is_host p.dst_ip ip then 1 else 0) + packets_to ip ps

abbrev flow_packets : FlowKey → List PacketInfo → ℕ
flow_packets fk [] = 0
flow_packets fk (p ∷ ps) = (if is_flow p p.src_ip p.dst_ip fk then 1 else 0) + flow_packets fk ps

-- The time of the latest packet of a host and of a flow, 0 where there is none.
abbrev seen_at : String → List PacketInfo → Time
seen_at ip [] = 0
seen_at ip (p ∷ ps) =
    if is_host p.src_ip ip || is_host p.dst_ip ip then p.timestamp else seen_at ip ps

abbrev flow_seen_at : FlowKey → List PacketInfo → Time
flow_seen_at fk [] = 0
flow_seen_at fk (p ∷ ps) =
    if is_flow p p.src_ip p.dst_ip fk then p.timestamp else flow_seen_at fk ps

-- Every lookup agrees with the packets `ps` seen, the latest first.
pub record IsCounted (st : Stats) (ps : List PacketInfo) : Type 0 where
  pub protocol :
      (k : String) → part (λ n. n) (get st.protocol_counts k) ≡ of_protocol k ps % u64_mod
  pub sender :
      (ip : String) → part (λ t. t.bytes_sent) (get st.top_talkers ip) ≡ sent_by ip ps % u64_mod
  pub receiver :
      (ip : String) → part (λ t. t.bytes_recv) (get st.top_talkers ip) ≡ received_by ip ps % u64_mod
  pub flow : (fk : FlowKey) → part (λ f. f.bytes_sent) (get st.flows fk) ≡ of_flow fk ps % u64_mod
  pub sent_packets :
      (ip : String)
      → part (λ t. t.packets_sent) (get st.top_talkers ip) ≡ packets_from ip ps % u64_mod
  pub received_packets :
      (ip : String)
      → part (λ t. t.packets_recv) (get st.top_talkers ip) ≡ packets_to ip ps % u64_mod
  pub packets_of_flow :
      (fk : FlowKey) → part (λ f. f.packets_sent) (get st.flows fk) ≡ flow_packets fk ps % u64_mod
  pub last_seen : (ip : String) → part (λ t. t.last_seen) (get st.top_talkers ip) ≡ seen_at ip ps
  pub flow_last_seen :
      (fk : FlowKey) → part (λ f. f.last_seen) (get st.flows fk) ≡ flow_seen_at fk ps

module _ {ℓ κ} {K : Type ℓ} {V : Type κ} ⦃e : Eq K⦄ (f : V → ℕ) (m : Dict K V) (k j : K)
    (v d : V) where
  -- A counter in a table goes up by `n` for the key `k` and for no other.
  part-bump :
      (n old : ℕ)
      → f d ≡ 0
      → f v ≡ add64 (f (or_else (get m k) d)) n
      → part f (get m j) ≡ old % u64_mod
      → part f (get (put m k v) j) ≡ ((if k == j then n else 0) + old) % u64_mod
  part-bump n old z h g = elim (Bool-cases (k == j)) [
    | inl c ↦
        rw (get-put, c)
          (omega (arith, part_or f m k v d z, ap (λ i. part f (get m i)) ((e.same_iff k j).0 c)))
    | inr c ↦ rw (get-put, c) (omega arith)
  ]

  part_same :
      f d ≡ 0 → f v ≡ f (or_else (get m k) d) → part f (get (put m k v) j) ≡ part f (get m j)
  part_same z h = elim (Bool-cases (k == j)) [
    | inl c ↦
        rw (get-put, c)
          (omega (arith, part_or f m k v d z, ap (λ i. part f (get m i)) ((e.same_iff k j).0 c)))
    | inr c ↦ rw (get-put, c)
  ]

  -- What a write sets is what the key's lookup finds.
  part-put : part f (get (put m k v) j) ≡ (if k == j then f v else part f (get m j))
  part-put = rw get-put (if_app (part f) (k == j) (some v) (get m j))

module _ (pkt : PacketInfo) (j : String) (m : Dict String TalkerStat) (f : TalkerStat → ℕ)
    (blank : (ip : String) → f (blank_talker ip) ≡ 0) where
  -- A counter that a sent packet moves by `n`, and one that it leaves alone.
  add_source-bump :
      (n old : ℕ) (o : Option String)
      → ((t : TalkerStat) → f (sent t pkt) ≡ add64 (f t) n)
      → part f (get m j) ≡ old % u64_mod
      → part f (get (add_source m pkt o) j) ≡ ((if is_host o j then n else 0) + old) % u64_mod
  unfolding add_source
  add_source-bump n old none h g = omega (arith, g)
  add_source-bump n old (some ip) h g =
      part-bump f m ip j _ (blank_talker ip) n old (blank ip) (h _) g

  add_source-same :
      (o : Option String)
      → ((t : TalkerStat) → f (sent t pkt) ≡ f t)
      → part f (get (add_source m pkt o) j) ≡ part f (get m j)
  unfolding add_source
  add_source-same none h = refl
  add_source-same (some ip) h = part_same f m ip j _ (blank_talker ip) (blank ip) (h _)

  -- The same for a received packet.
  add_target-bump :
      (n old : ℕ) (o : Option String)
      → ((t : TalkerStat) → f (received t pkt) ≡ add64 (f t) n)
      → part f (get m j) ≡ old % u64_mod
      → part f (get (add_target m pkt o) j) ≡ ((if is_host o j then n else 0) + old) % u64_mod
  unfolding add_target
  add_target-bump n old none h g = omega (arith, g)
  add_target-bump n old (some ip) h g =
      part-bump f m ip j _ (blank_talker ip) n old (blank ip) (h _) g

  add_target-same :
      (o : Option String)
      → ((t : TalkerStat) → f (received t pkt) ≡ f t)
      → part f (get (add_target m pkt o) j) ≡ part f (get m j)
  unfolding add_target
  add_target-same none h = refl
  add_target-same (some ip) h = part_same f m ip j _ (blank_talker ip) (blank ip) (h _)

seen-add_source :
    (pkt : PacketInfo) (j : String) (m : Dict String TalkerStat) (o : Option String)
    → part (λ t. t.last_seen) (get (add_source m pkt o) j)
      ≡ (if is_host o j then pkt.timestamp else part (λ t. t.last_seen) (get m j))
unfolding add_source sent
seen-add_source pkt j m none = refl
seen-add_source pkt j m (some ip) =
    part-put (λ (t : TalkerStat). t.last_seen) m ip j _ (blank_talker ip)

seen-add_target :
    (pkt : PacketInfo) (j : String) (m : Dict String TalkerStat) (o : Option String)
    → part (λ t. t.last_seen) (get (add_target m pkt o) j)
      ≡ (if is_host o j then pkt.timestamp else part (λ t. t.last_seen) (get m j))
unfolding add_target received
seen-add_target pkt j m none = refl
seen-add_target pkt j m (some ip) =
    part-put (λ (t : TalkerStat). t.last_seen) m ip j _ (blank_talker ip)

either_seen :
    (a b : Bool) (now old : ℕ)
    → (if b then now else (if a then now else old)) ≡ (if a || b then now else old)
either_seen true true now old = refl
either_seen true false now old = refl
either_seen false true now old = refl
either_seen false false now old = refl

module _ (pkt : PacketInfo) (fk : FlowKey) (m : Dict FlowKey FlowStat) where
  add_flow-bump :
      (f : FlowStat → ℕ) (n old : ℕ) (src dst : Option String)
      → ((k : FlowKey) → f (blank_flow k) ≡ 0)
      → ((w : FlowStat) → f (bump_flow w pkt) ≡ add64 (f w) n)
      → part f (get m fk) ≡ old % u64_mod
      → part f (get (add_flow m pkt src dst).1 fk)
        ≡ ((if is_flow pkt src dst fk then n else 0) + old) % u64_mod
  unfolding add_flow
  add_flow-bump f n old none dst z h g = omega (arith, g)
  add_flow-bump f n old (some src) none z h g = omega (arith, g)
  add_flow-bump f n old (some src) (some dst) z h g =
      part-bump f m (flow_key pkt src dst) fk _ (blank_flow _) n old (z _) (h _) g

  seen-add_flow :
      (src dst : Option String)
      → part (λ f. f.last_seen) (get (add_flow m pkt src dst).1 fk)
        ≡ (if is_flow pkt src dst fk then pkt.timestamp else part (λ f. f.last_seen) (get m fk))
  unfolding add_flow bump_flow
  seen-add_flow none dst = refl
  seen-add_flow (some src) none = refl
  seen-add_flow (some src) (some dst) =
      part-put (λ (f : FlowStat). f.last_seen) m (flow_key pkt src dst) fk _ (blank_flow fk)

-- One packet more: every lookup agrees again.
pub count_all-IsCounted :
    (pkt : PacketInfo) (st : Stats) (ps : List PacketInfo)
    → IsCounted st ps
    → IsCounted (count_all st pkt).1 (pkt ∷ ps)
unfolding count_all sent received bump_flow
count_all-IsCounted pkt st ps c =
    let m = st.top_talkers in
    let m' = add_source m pkt pkt.src_ip in
    record {
      protocol = λ k.
          part-bump (λ (n : ℕ). n) st.protocol_counts pkt.protocol k _ 0 1 (of_protocol k ps) refl
            refl (c.protocol k);
      sender = λ ip.
          add_target-same pkt ip m' (λ t. t.bytes_sent) (λ i. refl) pkt.dst_ip (λ t. refl)
          ∙ add_source-bump pkt ip m (λ t. t.bytes_sent) (λ i. refl) pkt.length (sent_by ip ps)
              pkt.src_ip (λ t. refl) (c.sender ip);
      receiver = λ ip.
          add_target-bump pkt ip m' (λ t. t.bytes_recv) (λ i. refl) pkt.length (received_by ip ps)
            pkt.dst_ip (λ t. refl)
            (add_source-same pkt ip m (λ t. t.bytes_recv) (λ i. refl) pkt.src_ip (λ t. refl)
              ∙ c.receiver ip);
      flow = λ fk.
          add_flow-bump pkt fk st.flows (λ f. f.bytes_sent) pkt.length (of_flow fk ps) pkt.src_ip
            pkt.dst_ip (λ k. refl) (λ f. refl) (c.flow fk);
      sent_packets = λ ip.
          add_target-same pkt ip m' (λ t. t.packets_sent) (λ i. refl) pkt.dst_ip (λ t. refl)
          ∙ add_source-bump pkt ip m (λ t. t.packets_sent) (λ i. refl) 1 (packets_from ip ps)
              pkt.src_ip (λ t. refl) (c.sent_packets ip);
      received_packets = λ ip.
          add_target-bump pkt ip m' (λ t. t.packets_recv) (λ i. refl) 1 (packets_to ip ps)
            pkt.dst_ip (λ t. refl)
            (add_source-same pkt ip m (λ t. t.packets_recv) (λ i. refl) pkt.src_ip (λ t. refl)
              ∙ c.received_packets ip);
      packets_of_flow = λ fk.
          add_flow-bump pkt fk st.flows (λ f. f.packets_sent) 1 (flow_packets fk ps) pkt.src_ip
            pkt.dst_ip (λ k. refl) (λ f. refl) (c.packets_of_flow fk);
      last_seen = λ ip.
          seen-add_target pkt ip m' pkt.dst_ip
          ∙ rw (seen-add_source pkt ip m pkt.src_ip, c.last_seen ip)
              (either_seen (is_host pkt.src_ip ip) (is_host pkt.dst_ip ip) pkt.timestamp
                (seen_at ip ps));
      flow_last_seen =
          λ fk. seen-add_flow pkt fk st.flows pkt.src_ip pkt.dst_ip ∙ rw (c.flow_last_seen fk) refl;
    }

-- The published snapshot lists every talker of the state exactly once and no other, sorted by total
-- bytes with the largest first, and what is done to the state afterwards does not change it.
pub top_talkers_ranked :
    (F : FloatOps) (sm : StatsManager F) (now : Time) (later : Stats)
    → Perm
        (get_snapshot F (record (publish_snapshot F sm now) { stats = later })).top_talkers
        (values sm.stats.top_talkers)
      × IsSorted
          (desc total_bytes)
          (get_snapshot F (record (publish_snapshot F sm now) { stats = later })).top_talkers
unfolding get_snapshot publish_snapshot snapshot
top_talkers_ranked F sm now later = (
  sort-perm (desc total_bytes) (values sm.stats.top_talkers),
  sort-desc-IsSorted total_bytes (values sm.stats.top_talkers),
)

-- ===== src/Aggregator/Book.antt =====
-- What the aggregator received as a log, and when its state agrees with it.
use undertow.Base.{ℕ, ◌%◌, ◌≡◌, ◌∙◌, subst, List, [], ◌∷◌, ◌++◌, arith, u64_mod, last, last-last}
use undertow.Base.Eq.{string_eq}
use undertow.Packet.{AnomalyEvent, PacketInfo}
use undertow.Ring
use undertow.Ring.{Ring, push, push_all, slice}
use undertow.Ring.Inv.{new-IsValid, IsValid, push-IsValid, capacity-push}
use undertow.Ring.Refine.{slice-push, slice-push_all-new}
use undertow.Stats.{Stats, blank_packet, count_all}
use undertow.Stats.Account.{IsAccounted, count_all-IsAccounted, bytes_of}
use undertow.Stats.Lookup.{IsCounted, count_all-IsCounted}
use undertow.Aggregator.{Event, done, packet, closed, second_tick, snap_tick}

-- What the aggregator received, the latest first: all packets, those since the last second, and the
-- bytes of each second that is over, the oldest first.
pub record Log : Type 0 where
  pub packets : List PacketInfo
  pub this_second : List PacketInfo
  pub seconds : List ℕ

abbrev pub empty : Log
empty = record { packets = []; this_second = []; seconds = [] }

abbrev pub log_packet : Log → PacketInfo → Log
log_packet l p = record l { packets = p ∷ l.packets; this_second = p ∷ l.this_second }

abbrev pub log_packets : Log → List PacketInfo → Log
log_packets l [] = l
log_packets l (p ∷ ps) = log_packets (log_packet l p) ps

abbrev pub log_second : Log → Log
log_second l = record l {
  this_second = [];
  seconds = l.seconds ++ (bytes_of l.this_second % u64_mod) ∷ [];
}

-- The log of a schedule: nothing after the end counts.
abbrev pub log_run : Log → List Event → Log
log_run l [] = l
log_run l (done rest now ∷ es) = log_packets l rest
log_run l (packet p ∷ es) = log_run (log_packet l p) es
log_run l (closed now ∷ es) = l
log_run l (second_tick now then_ ∷ es) = log_run (log_second l) es
log_run l (snap_tick now ∷ es) = log_run l es

abbrev oldest_first : List PacketInfo → List PacketInfo
oldest_first [] = []
oldest_first (p ∷ ps) = oldest_first ps ++ p ∷ []

-- The ring holds the latest of some items, as many as fit, and stays valid.
pub record Holds {ℓ} {T : Type ℓ} (blank : T) (r : Ring T) (xs : List T) : Type ℓ where
  pub valid : IsValid r
  pub shows : slice blank r ≡ last r.capacity xs

push-Holds {ℓ} :
    {T : Type ℓ} (blank : T) (r : Ring T) (xs : List T) (x : T)
    → Holds blank r xs
    → Holds blank (push r x) (xs ++ x ∷ [])
push-Holds blank r xs x h = record {
  valid = push-IsValid r x h.valid;
  shows =
      slice-push blank r x h.valid ∙ rw (capacity-push, h.shows) (last-last r.capacity xs (x ∷ []));
}

pub new-Holds {ℓ} : {T : Type ℓ} (blank : T) (n : ℕ) → Holds blank (Ring.new blank n) []
new-Holds blank n = record {
  valid = new-IsValid blank n;
  shows = unfold Ring.new push_all in slice-push_all-new blank n [];
}

-- The state agrees with the log: every counter, the packets and the sums of the seconds in the
-- rings, and the bytes of the second that runs.
pub record IsBook (st : Stats) (l : Log) : Type 0 where
  pub accounted : IsAccounted st l.packets
  pub counted : IsCounted st l.packets
  pub recent : Holds blank_packet st.recent_packets_ring (oldest_first l.packets)
  pub sums : Holds 0 st.throughput_ring l.seconds
  pub current : st.current_sec_bytes ≡ bytes_of l.this_second % u64_mod

pub count_all-IsBook :
    (st : Stats) (l : Log) (pkt : PacketInfo)
    → IsBook st l
    → IsBook (count_all st pkt).1 (log_packet l pkt)
count_all-IsBook st l pkt b = record {
  accounted = count_all-IsAccounted pkt st l.packets b.accounted;
  counted = count_all-IsCounted pkt st l.packets b.counted;
  recent =
      unfold count_all in
      push-Holds blank_packet st.recent_packets_ring (oldest_first l.packets) pkt b.recent;
  sums = unfold count_all in b.sums;
  current = unfold count_all in omega (arith, b.current);
}

-- Anomalies touch one ring alone.
pub anomalies-IsBook :
    (st : Stats) (l : Log) (r : Ring AnomalyEvent)
    → IsBook st l
    → IsBook (record st { anomalies_ring = r }) l
anomalies-IsBook st l r b = record {
  accounted = record {
    packets = b.accounted.packets;
    bytes = b.accounted.bytes;
    protocols = b.accounted.protocols;
    sent_total = b.accounted.sent_total;
    received_total = b.accounted.received_total;
    flow_total = b.accounted.flow_total;
  };
  counted = record {
    protocol = b.counted.protocol;
    sender = b.counted.sender;
    receiver = b.counted.receiver;
    flow = b.counted.flow;
    sent_packets = b.counted.sent_packets;
    received_packets = b.counted.received_packets;
    packets_of_flow = b.counted.packets_of_flow;
    last_seen = b.counted.last_seen;
    flow_last_seen = b.counted.flow_last_seen;
  };
  recent = b.recent;
  sums = b.sums;
  current = b.current;
}

pub second-IsBook :
    (st : Stats) (l : Log)
    → IsBook st l
    → IsBook
        (record st {
          throughput_ring = push st.throughput_ring st.current_sec_bytes;
          current_sec_bytes = 0;
        })
        (log_second l)
second-IsBook st l b = record {
  accounted = record {
    packets = b.accounted.packets;
    bytes = b.accounted.bytes;
    protocols = b.accounted.protocols;
    sent_total = b.accounted.sent_total;
    received_total = b.accounted.received_total;
    flow_total = b.accounted.flow_total;
  };
  counted = record {
    protocol = b.counted.protocol;
    sender = b.counted.sender;
    receiver = b.counted.receiver;
    flow = b.counted.flow;
    sent_packets = b.counted.sent_packets;
    received_packets = b.counted.received_packets;
    packets_of_flow = b.counted.packets_of_flow;
    last_seen = b.counted.last_seen;
    flow_last_seen = b.counted.flow_last_seen;
  };
  recent = b.recent;
  sums =
      subst (λ n. Holds 0 (push st.throughput_ring st.current_sec_bytes) (l.seconds ++ n ∷ []))
        b.current (push-Holds 0 st.throughput_ring l.seconds st.current_sec_bytes b.sums);
  current = omega arith;
}

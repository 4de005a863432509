-- ===== src/Narrative/Timeline.antt =====
-- The timelines: no host keeps more than fifty events, and it keeps the latest ones in order.
use mathlib.Core.List.{append-nil, append_assoc}
use undertow.Base.{
  ◌≤◌, ◌≡◌, refl, sym, ◌∙◌, inl, inr, String, Option, none, some, List, [], ◌∷◌, ◌++◌, arith, leb,
  leb→le, if◌then◌else◌, length, last, drop-append, length-last, subst, leb-false, last_fits,
  last_over, last-last, length-append, Bool-cases, if_app, not, ◌&&◌,
}
use undertow.Base.Eq.{◌==◌, string_eq}
use undertow.Base.Dict.{get, put, or_else, get-put}
use undertow.Packet.{Time, AnomalyEvent, PacketInfo}
use undertow.Narrative.{
  HostTimeline, TimelineEvent, StoryTracker, new_story_tracker, add_event, add_events, touch,
  packet_events, record_from, record_packet, record_anomaly, anomaly_event,
}

abbrev events_in : Option HostTimeline → List TimelineEvent
events_in none = []
events_in (some tl) = tl.events

-- The events that the tracker holds of a host.
abbrev pub host_events : StoryTracker → String → List TimelineEvent
host_events st ip = events_in (get st.timelines ip)

events-touch :
    (st : StoryTracker) (ip : String) (now : Time) → (touch st ip now).events ≡ host_events st ip
unfolding touch
events-touch st ip now = at (get st.timelines ip)
  where
    at :
        (o : Option HostTimeline)
        → (or_else o (record { ip = ip; first_seen = now; last_seen = 0; events = [] })).events
          ≡ events_in o
    at none = refl
    at (some tl) = refl

events-add_event :
    (tl : HostTimeline) (e : TimelineEvent)
    → length tl.events ≤ 50
    → (add_event tl e).events ≡ last 50 (tl.events ++ e ∷ [])
unfolding add_event
events-add_event tl e h = elim (Bool-cases (leb 50 (length tl.events))) [
  | inl k ↦ rw k (
      sym (
        last_over 50 (tl.events ++ e ∷ [])
          (omega (arith, length-append tl.events (e ∷ []), leb→le 50 (length tl.events) k))
        ∙ drop-append 1 tl.events (e ∷ []) (omega (arith, leb→le 50 (length tl.events) k))))
  | inr k ↦ rw k (
      sym (
        last_fits 50 (tl.events ++ e ∷ [])
          (omega (arith, length-append tl.events (e ∷ []), leb-false 50 (length tl.events) k))))
]

events-add_events :
    (tl : HostTimeline) (es : List TimelineEvent)
    → length tl.events ≤ 50
    → (add_events tl es).events ≡ last 50 (tl.events ++ es)
unfolding add_events
events-add_events tl [] h = sym (rw append-nil (last_fits 50 tl.events h))
events-add_events tl (e ∷ es) h =
    events-add_events (add_event tl e) es (
      subst (λ l. length l ≤ 50) (sym (events-add_event tl e h))
        (length-last 50 (tl.events ++ e ∷ [])))
    ∙ rw (events-add_event tl e h, last-last, append_assoc)

-- No timeline holds more than fifty events.
pub record IsBounded (st : StoryTracker) : Type 0 where
  pub at_host : (ip : String) → length (host_events st ip) ≤ 50

host_events-put :
    (st : StoryTracker) (ip j : String) (tl : HostTimeline)
    → host_events (record st { timelines = put st.timelines ip tl }) j
      ≡ (if ip == j then tl.events else host_events st j)
host_events-put st ip j tl = rw get-put (if_app events_in (ip == j) (some tl) (get st.timelines j))

host_events-record_from :
    (st : StoryTracker) (pkt : PacketInfo) (src : Option String) (j : String)
    → IsBounded st
    → host_events (record_from st pkt src) j ≡ elim src [
      | none ↦ host_events st j
      | some ip ↦
          if ip == j then last 50 (host_events st ip ++ packet_events pkt ip) else host_events st j
    ]
unfolding record_from
host_events-record_from st pkt none j b = refl
host_events-record_from st pkt (some ip) j b =
    host_events-put st ip j (add_events (touch st ip pkt.timestamp) (packet_events pkt ip))
    ∙ rw (
      events-add_events (touch st ip pkt.timestamp) (packet_events pkt ip)
          (rw events-touch (b.at_host ip)),
      events-touch,
    )

-- `RecordPacket` appends the packet's events to its source host and keeps the last fifty; every
-- other host, and every host if the packet has no source, keeps its events.
pub host_events-record_packet :
    (st : StoryTracker) (pkt : PacketInfo) (j : String)
    → IsBounded st
    → host_events (record_packet st pkt) j ≡ elim pkt.src_ip [
      | none ↦ host_events st j
      | some ip ↦
          if ip == j then last 50 (host_events st ip ++ packet_events pkt ip) else host_events st j
    ]
unfolding record_packet
host_events-record_packet st pkt j b = host_events-record_from st pkt pkt.src_ip j b

-- `RecordAnomaly` appends one alert to its host, unless the event names none.
pub host_events-record_anomaly :
    (st : StoryTracker) (evt : AnomalyEvent) (j : String)
    → IsBounded st
    → host_events (record_anomaly st evt) j ≡ (
        if not (evt.source_ip == "") && evt.source_ip == j
        then last 50 (host_events st j ++ anomaly_event evt ∷ [])
        else host_events st j)
unfolding record_anomaly
host_events-record_anomaly st evt j b = elim (Bool-cases (evt.source_ip == "")) [
  | inl h ↦ rw h
  | inr h ↦
      rw
        (
          h,
          host_events-put,
          events-add_event (touch st evt.source_ip evt.timestamp) (anomaly_event evt)
              (rw events-touch (b.at_host evt.source_ip)),
          events-touch,
        )
        (ground (arith, string_eq.same_iff evt.source_ip j))
]

new-IsBounded : IsBounded new_story_tracker
unfolding get
new-IsBounded = record { at_host = λ ip. omega arith }

-- One call of `RecordPacket` or `RecordAnomaly`.
pub data Record : Type 0 where
  packet : PacketInfo → Record
  anomaly : AnomalyEvent → Record

abbrev pub record_all : StoryTracker → List Record → StoryTracker
record_all st [] = st
record_all st (packet pkt ∷ rs) = record_all (record_packet st pkt) rs
record_all st (anomaly evt ∷ rs) = record_all (record_anomaly st evt) rs

record_packet-IsBounded :
    (st : StoryTracker) (pkt : PacketInfo) → IsBounded st → IsBounded (record_packet st pkt)
record_packet-IsBounded st pkt b = record {
  at_host = λ j.
      subst (λ l. length l ≤ 50) (sym (host_events-record_packet st pkt j b)) (at pkt.src_ip j);
}
  where
    at :
        (src : Option String) (j : String)
        → length (elim src [
          | none ↦ host_events st j
          | some ip ↦
              if ip == j
              then last 50 (host_events st ip ++ packet_events pkt ip)
              else host_events st j
        ])
          ≤ 50
    at none j = b.at_host j
    at (some ip) j = elim (Bool-cases (ip == j)) [
      | inl h ↦ rw h (length-last 50 (host_events st ip ++ packet_events pkt ip))
      | inr h ↦ rw h (b.at_host j)
    ]

record_anomaly-IsBounded :
    (st : StoryTracker) (evt : AnomalyEvent) → IsBounded st → IsBounded (record_anomaly st evt)
record_anomaly-IsBounded st evt b = record {
  at_host = λ j. elim (Bool-cases (not (evt.source_ip == "") && evt.source_ip == j)) [
    | inl h ↦
        rw (host_events-record_anomaly st evt j b, h)
          (length-last 50 (host_events st j ++ anomaly_event evt ∷ []))
    | inr h ↦ rw (host_events-record_anomaly st evt j b, h) (b.at_host j)
  ];
}

-- From timelines of at most fifty events, however packets and anomalies arrive, no host comes to
-- hold more than fifty.
pub record_all-IsBounded :
    (st : StoryTracker) (rs : List Record) → IsBounded st → IsBounded (record_all st rs)
record_all-IsBounded st [] b = b
record_all-IsBounded st (packet pkt ∷ rs) b =
    record_all-IsBounded (record_packet st pkt) rs (record_packet-IsBounded st pkt b)
record_all-IsBounded st (anomaly evt ∷ rs) b =
    record_all-IsBounded (record_anomaly st evt) rs (record_anomaly-IsBounded st evt b)

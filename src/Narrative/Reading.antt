-- ===== src/Narrative/Reading.antt =====
-- `GenerateNarrative` without redaction only reads.
use undertow.Base.{
  ◌≡◌, refl, ◌∙◌, inl, inr, String, false, Option, none, some, List, [], ◌∷◌, Bool-cases, length,
  nat_eq,
}
use undertow.Base.Eq.{◌==◌, string_eq}
use undertow.Base.Dict.{get}
use undertow.Base.Sort.{sort, asc}
use undertow.Packet.{Time}
use undertow.Narrative.{
  EventType, dns_query, tcp_handshake, tcp_close, tcp_reset, large_data, security_alert,
  TimelineEvent, HostTimeline, StoryTracker, format_ip,
}
use undertow.Narrative.Story.{
  Gathered, tell, gather, nothing_yet, tell_story, story_from, generate_narrative,
}

tracker-format_ip : (st : StoryTracker) (ip : String) → (format_ip st ip false).1 ≡ st
unfolding format_ip
tracker-format_ip st ip = elim (Bool-cases (ip == "")) [ inl h ↦ rw h | inr h ↦ rw h ]

module _ (clock : Time → String) where
  tracker-tell :
      (g : Gathered) (evt : TimelineEvent) (dst : String) (type : EventType)
      → (tell clock g evt dst type).tracker ≡ g.tracker
  unfolding tell
  tracker-tell g evt dst dns_query = refl
  tracker-tell g evt dst tcp_handshake = refl
  tracker-tell g evt dst tcp_close = refl
  tracker-tell g evt dst tcp_reset = refl
  tracker-tell g evt dst large_data = refl
  tracker-tell g evt dst security_alert = refl

  tracker-gather :
      (g : Gathered) (events : List TimelineEvent)
      → (gather clock false g events).tracker ≡ g.tracker
  unfolding gather
  tracker-gather g [] = refl
  tracker-gather g (evt ∷ events) =
      tracker-gather
        (tell clock (record g { tracker = (format_ip g.tracker evt.dst_ip false).1 }) evt
          (format_ip g.tracker evt.dst_ip false).0 evt.type)
        events
      ∙ tracker-tell (record g { tracker = (format_ip g.tracker evt.dst_ip false).1 }) evt
          (format_ip g.tracker evt.dst_ip false).0 evt.type
      ∙ tracker-format_ip g.tracker evt.dst_ip

  tracker-nothing_yet : (st : StoryTracker) (ip : String) → (nothing_yet clock st ip false).1 ≡ st
  unfolding nothing_yet
  tracker-nothing_yet st ip = tracker-format_ip st ip

  tracker-tell_story :
      (st : StoryTracker) (tl : HostTimeline) (ip : String)
      → (tell_story clock st tl ip false).1 ≡ st
  unfolding tell_story
  tracker-tell_story st tl ip =
      tracker-gather _ (sort (asc (λ (e : TimelineEvent). e.timestamp)) tl.events)
      ∙ tracker-format_ip st ip

  -- Without redaction GenerateNarrative leaves the tracker as it was, for a host it knows and for any
  -- other.
  pub generate_narrative-reads :
      (st : StoryTracker) (ip : String) → (generate_narrative clock st ip false).1 ≡ st
  unfolding generate_narrative
  generate_narrative-reads st ip = from (get st.timelines ip)
    where
      from : (o : Option HostTimeline) → (story_from clock st ip false o).1 ≡ st
      from none = unfold story_from in tracker-nothing_yet st ip
      from (some tl) = elim (Bool-cases (nat_eq (length tl.events) 0)) [
        | inl h ↦ unfold story_from in rw h (tracker-nothing_yet st ip)
        | inr h ↦ unfold story_from in rw h (tracker-tell_story st tl ip)
      ]

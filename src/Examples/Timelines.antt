-- ===== src/Examples/Timelines.antt =====
-- The story tracker at concrete inputs.
use undertow.Base.{false, ◌≡◌, ◌++◌, refl, String, true, [], ◌∷◌, arith, last}
use undertow.Base.Eq.{string_eq}
use undertow.Base.Dict.{get}
use undertow.Narrative.{
  StoryTracker, new_story_tracker, packet_events, record_packet, record_anomaly, anomaly_event,
  format_ip,
}
use undertow.Narrative.Timeline.{
  IsBounded, host_events, packet, anomaly, record_all, record_all-IsBounded,
  host_events-record_packet, host_events-record_anomaly,
}
use undertow.Narrative.Story.{generate_narrative}
use undertow.Narrative.Reading.{generate_narrative-reads}
use undertow.Narrative.Alias.{redact_all, format_ip_stable, redaction_collides}
use undertow.Examples.Data.{first, second, alert}

empty-IsBounded : IsBounded new_story_tracker
unfolding get
empty-IsBounded = record { at_host = λ ip. omega arith }

host_events-record_packet_example :
    host_events (record_packet new_story_tracker first) "10.0.0.1"
    ≡ last 50 (host_events new_story_tracker "10.0.0.1" ++ packet_events first "10.0.0.1")
host_events-record_packet_example =
    host_events-record_packet new_story_tracker first "10.0.0.1" empty-IsBounded

host_events-record_anomaly_example :
    host_events (record_anomaly new_story_tracker alert) "10.0.0.1"
    ≡ last 50 (host_events new_story_tracker "10.0.0.1" ++ anomaly_event alert ∷ [])
host_events-record_anomaly_example =
    host_events-record_anomaly new_story_tracker alert "10.0.0.1" empty-IsBounded

record_all-IsBounded_example :
    IsBounded (record_all new_story_tracker (packet first ∷ anomaly alert ∷ packet second ∷ []))
record_all-IsBounded_example =
    record_all-IsBounded new_story_tracker (packet first ∷ anomaly alert ∷ packet second ∷ [])
      empty-IsBounded

abbrev later : StoryTracker
later = record new_story_tracker { alias_seq = 26 }

format_ip_stable_example :
    ◌≡◌ {A = String × StoryTracker}
      (format_ip
        (redact_all (format_ip new_story_tracker "10.0.0.1" true).1 ("10.0.0.2" ∷ "10.0.0.3" ∷ []))
        "10.0.0.1"
        true)
      (
        (format_ip new_story_tracker "10.0.0.1" true).0,
        redact_all (format_ip new_story_tracker "10.0.0.1" true).1 ("10.0.0.2" ∷ "10.0.0.3" ∷ []),
      )
format_ip_stable_example =
    format_ip_stable new_story_tracker "10.0.0.1" ("10.0.0.2" ∷ "10.0.0.3" ∷ [])

redaction_collides_example :
    (format_ip new_story_tracker "10.0.0.1" true).0 ≡ (format_ip later "10.0.0.27" true).0
unfolding get
redaction_collides_example =
    redaction_collides new_story_tracker later "10.0.0.1" "10.0.0.27"
      (ground (arith, string_eq.same_iff "10.0.0.1" ""))
      (ground (arith, string_eq.same_iff "10.0.0.27" "")) refl refl refl

abbrev after_first : StoryTracker
after_first = record_packet new_story_tracker first

generate_narrative-reads_example :
    (generate_narrative (λ t. "12:00:00") after_first "10.0.0.1" false).1 ≡ after_first
generate_narrative-reads_example = generate_narrative-reads (λ t. "12:00:00") after_first "10.0.0.1"

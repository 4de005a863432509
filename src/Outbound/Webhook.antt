-- ===== src/Outbound/Webhook.antt =====
-- internal/webhook/sender.go: alerts to a webhook. JSON and the HTTP client are parameters.
use undertow.Base.{ℕ, String, Option, none, some, [], ◌∷◌, leb, if◌then◌else◌}
use undertow.Base.Eq.{◌==◌, string_eq}
use undertow.Base.Text.{concat, dec}
use undertow.Packet.{Time, AnomalyEvent}

pub record WebhookPayload : Type 0 where
  pub timestamp : String
  pub event_type : String
  pub anomaly : AnomalyEvent
  pub message : String

pub record Sender : Type 0 where
  pub webhook_url : String

-- `NewSender`
unfoldable new_sender : String → Sender
new_sender url = record { webhook_url = url }

-- The payload as JSON or an error, the error of making a request, and the status or the error of
-- putting it.
pub record WebhookOps : Type 0 where
  pub marshal : WebhookPayload → String × Option String
  pub request_error : String → Option String
  pub put : String → String → ℕ × Option String

-- `stamp` is `Format(time.RFC3339)`.
unfoldable payload_of : (Time → String) → AnomalyEvent → WebhookPayload
payload_of stamp evt = record {
  timestamp = stamp evt.timestamp;
  event_type = "ANOMALY_ALERT";
  anomaly = evt;
  message =
      concat
        ("[" ∷ evt.kind ∷ "] Security Alert: " ∷ evt.detail ∷ " (Src: " ∷ evt.source_ip ∷ ")" ∷ []);
}

abbrev answer_of : String → ℕ × Option String → Option String
answer_of url (code, some err) = some (concat ("sending webhook to " ∷ url ∷ ": " ∷ err ∷ []))
answer_of url (code, none) =
    if leb 400 code
    then some (concat ("webhook endpoint " ∷ url ∷ " returned status " ∷ dec code ∷ []))
    else none

abbrev put_request : WebhookOps → String → String → Option String → Option String
put_request O url body (some err) = some err
put_request O url body none = answer_of url (O.put url body)

abbrev post_json : WebhookOps → String → String × Option String → Option String
post_json O url (body, some err) = some err
post_json O url (body, none) = put_request O url body (O.request_error url)

-- `SendAnomalyAlert`: its error
unfoldable send_anomaly_alert : WebhookOps → (Time → String) → Sender → AnomalyEvent → Option String
unfolding payload_of
send_anomaly_alert O stamp s evt =
    if s.webhook_url == ""
    then none
    else post_json O s.webhook_url (O.marshal (payload_of stamp evt))

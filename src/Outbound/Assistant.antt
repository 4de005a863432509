-- ===== src/Outbound/Assistant.antt =====
-- internal/ai/ollama.go: the question to the AI engine, and the summary that stands in for its answer.
-- JSON and the HTTP client are parameters.
pub mod Answer
use undertow.Base.{
  ℕ, String, Bool, true, false, not, Option, none, some, List, [], ◌∷◌, ◌++◌, map, ltb, nat_eq,
  if◌then◌else◌, length,
}
use undertow.Base.Eq.{◌==◌, string_eq}
use undertow.Base.Text.{concat, dec}
use undertow.Base.Strings.{trim_suffix}
use undertow.Packet.{AnomalyEvent}

pub record OllamaRequest : Type 0 where
  pub model : String
  pub prompt : String
  pub stream : Bool

pub record OllamaResponse : Type 0 where
  pub response : String
  pub done : Bool

pub record Client : Type 0 where
  pub endpoint : String
  pub model : String

abbrev or_default : String → String → String
or_default s d = if s == "" then d else s

-- `NewClient`
unfoldable new_client : String → String → Client
new_client endpoint model = record {
  endpoint = or_default endpoint "http://localhost:11434";
  model = or_default model "llama3";
}

-- The request as JSON or an error, the error of making a request, and the status with the body that
-- could be read, or none where putting it fails; the body as a response, none where it is none.
pub record OllamaOps : Type 0 where
  pub marshal : OllamaRequest → String × Option String
  pub request_error : String → Option String
  pub put : String → String → Option (ℕ × Option String)
  pub unmarshal : String → Option OllamaResponse

abbrev anomaly_note : AnomalyEvent → String
anomaly_note a = concat ("- [" ∷ a.kind ∷ "] " ∷ a.source_ip ∷ ": " ∷ a.detail ∷ "\n" ∷ [])

unfoldable anomaly_notes : List AnomalyEvent → String
anomaly_notes anomalies =
    if nat_eq (length anomalies) 0
    then "No 3-sigma or security anomalies flagged for this host."
    else concat (map anomaly_note anomalies)

unfoldable pub prompt_of : String → String → List AnomalyEvent → String
unfolding anomaly_notes
prompt_of target_host flow_story anomalies = concat (
    "You are a Tier-3 Cyber Security Analyst conducting an incident response audit.\nAnalyze the following network flow narrative and anomaly events for host '"
    ∷ target_host
    ∷ "' and output a concise, structured incident report in plain English:\n\n[HOST NETWORK FLOW NARRATIVE]\n"
    ∷ flow_story
    ∷ "\n\n[FLAGGED ANOMALY LOGS]\n"
    ∷ anomaly_notes anomalies
    ∷ "\n\nProvide:\n1. Executive Assessment\n2. Risk Level (Low/Medium/High/Critical)\n3. Recommended Mitigation Actions"
    ∷ [])

unfoldable risk_level : ℕ → String
risk_level n = if ltb 3 n then "CRITICAL" else if ltb 0 n then "HIGH" else "LOW"

abbrev assessment : List AnomalyEvent → String
assessment [] =
    "Traffic flow observed normal baseline communication patterns with no severe deviations.\n\n"
assessment (a ∷ as') =
    concat (
      dec (length (a ∷ as')) ∷ " anomalous events were detected including " ∷ a.kind ∷ ".\n\n" ∷ [])

abbrev detected_line : AnomalyEvent → String
detected_line a = concat ("   ⚠\u{fe0f}  [" ∷ a.kind ∷ "] " ∷ a.detail ∷ "\n" ∷ [])

abbrev detected : List AnomalyEvent → String
detected anomalies =
    if ltb 0 (length anomalies)
    then concat (map detected_line anomalies)
    else "   ✓ No anomalous port scans, DGA entropy spikes, or 3-sigma deviations.\n"

abbrev actions : String → String
actions risk =
    if not (risk == "LOW")
    then "   - Isolate host network interface for forensic packet inspection.\n   - Correlate process PID with endpoint EDR telemetry.\n"
    else "   - Continue standard continuous network monitoring.\n"

-- `generateLocalFallbackSummary`
unfoldable pub fallback_summary : Client → String → List AnomalyEvent → String
unfolding risk_level
fallback_summary c target_host anomalies = concat (
    concat ("🤖 UNDERTOW INCIDENT RESPONSE AI SUMMARY (Host: " ∷ target_host ∷ ")\n" ∷ [])
    ∷ "======================================================================\n\n"
    ∷ concat ("• Risk Level: " ∷ risk_level (length anomalies) ∷ "\n" ∷ [])
    ∷ concat (
        "• Offline Intelligence Mode: Local Rule Synthesizer (Ollama offline at " ∷ c.endpoint
        ∷ ")\n\n" ∷ [])
    ∷ "1. EXECUTIVE ASSESSMENT:\n"
    ∷ concat ("   Host " ∷ target_host ∷ " was monitored during the active capture window. " ∷ [])
    ∷ assessment anomalies
    ∷ "2. DETECTED ANOMALIES & BEHAVIOR:\n"
    ∷ detected anomalies
    ∷ "\n3. RECOMMENDED ACTIONS:\n"
    ∷ actions (risk_level (length anomalies))
    ∷ [])

module _ (O : OllamaOps) where
  abbrev pub parsed_answer : String → Option OllamaResponse → String
  parsed_answer fallback none = fallback
  parsed_answer fallback (some r) = if r.response == "" then fallback else r.response

  abbrev read_answer : String → Option String → String
  read_answer fallback none = fallback
  read_answer fallback (some body) = parsed_answer fallback (O.unmarshal body)

  abbrev pub put_answer : String → Option (ℕ × Option String) → String
  put_answer fallback none = fallback
  put_answer fallback (some (code, body)) =
      if not (nat_eq code 200) then fallback else read_answer fallback body

  abbrev put_request : String → String → String → Option String → String × Option String
  put_request fallback url body (some err) = ("", some err)
  put_request fallback url body none = (put_answer fallback (O.put url body), none)

  abbrev put_json : String → String → String × Option String → String × Option String
  put_json fallback url (body, some err) = ("", some err)
  put_json fallback url (body, none) = put_request fallback url body (O.request_error url)

  -- `GenerateIncidentSummary`: the text and the error
  unfoldable pub generate_incident_summary :
      Client → String → String → List AnomalyEvent → String × Option String
  generate_incident_summary c target_host flow_story anomalies =
      put_json (fallback_summary c target_host anomalies)
        (concat (trim_suffix b'/' c.endpoint ∷ "/api/generate" ∷ []))
        (O.marshal (record {
          model = c.model;
          prompt = prompt_of target_host flow_story anomalies;
          stream = false;
        }))

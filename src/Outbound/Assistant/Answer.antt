-- ===== src/Outbound/Assistant/Answer.antt =====
-- What comes of a question.
use text.Mathlib.TextLemmas.{append-eq-nil_iff}
use undertow.Base.{
  ℕ, ◌≡◌, ◌≢◌, refl, inl, inr, String, false, Option, none, some, List, [], ◌∷◌, sym, if_app, arith,
  nat_eq, if◌then◌else◌, Bool-cases,
}
use undertow.Base.Eq.{◌==◌, string_eq}
use undertow.Base.Text.{concat}
use undertow.Base.Dict.{or_else}
use undertow.Base.Strings.{trim_suffix}
use undertow.Packet.{AnomalyEvent}
use undertow.Outbound.Assistant.{
  OllamaRequest, OllamaResponse, Client, OllamaOps, fallback_summary, prompt_of,
  generate_incident_summary, put_answer, parsed_answer,
}

fallback_summary-ne-nil :
    (c : Client) (host : String) (anomalies : List AnomalyEvent)
    → fallback_summary c host anomalies ≢ ""
unfolding fallback_summary concat
fallback_summary-ne-nil c host anomalies e =
    let first = (append-eq-nil_iff.0 e).0 in
    let title = (append-eq-nil_iff.0 first).0 in
    ground (arith, string_eq.same_iff "🤖 UNDERTOW INCIDENT RESPONSE AI SUMMARY (Host: " "", title)

-- The answer that can be used: of a request that got through, with status 200 and a body that is a
-- response with a text.
abbrev used : Option OllamaResponse → Option String
used none = none
used (some r) = if r.response == "" then none else some r.response

abbrev pub usable : OllamaOps → Option (ℕ × Option String) → Option String
usable O none = none
usable O (some (code, none)) = none
usable O (some (code, some body)) = if nat_eq code 200 then used (O.unmarshal body) else none

abbrev url_of : Client → String
url_of c = concat (trim_suffix b'/' c.endpoint ∷ "/api/generate" ∷ [])

abbrev request_of : Client → String → String → List AnomalyEvent → OllamaRequest
request_of c host story anomalies = record {
  model = c.model;
  prompt = prompt_of host story anomalies;
  stream = false;
}

module _ (O : OllamaOps) where
  put_answer-usable :
      (fallback : String) (answer : Option (ℕ × Option String))
      → put_answer O fallback answer ≡ or_else (usable O answer) fallback
  put_answer-usable fallback none = refl
  put_answer-usable fallback (some (code, none)) = elim (Bool-cases (nat_eq code 200)) [
    | inl e ↦ rw e
    | inr e ↦ rw e
  ]
  put_answer-usable fallback (some (code, some body)) = elim (Bool-cases (nat_eq code 200)) [
    | inl e ↦ rw e (text (O.unmarshal body))
    | inr e ↦ rw e
  ]
    where
      text : (r : Option OllamaResponse) → parsed_answer O fallback r ≡ or_else (used r) fallback
      text none = refl
      text (some r) =
          sym (if_app (λ o. or_else o fallback) (r.response == "") none (some r.response))

  usable-ne-nil :
      (answer : Option (ℕ × Option String)) (fallback : String)
      → fallback ≢ ""
      → or_else (usable O answer) fallback ≢ ""
  usable-ne-nil none fallback h = h
  usable-ne-nil (some (code, none)) fallback h = h
  usable-ne-nil (some (code, some body)) fallback h = elim (Bool-cases (nat_eq code 200)) [
    | inl e ↦ rw e (text (O.unmarshal body))
    | inr e ↦ rw e h
  ]
    where
      text : (r : Option OllamaResponse) → or_else (used r) fallback ≢ ""
      text none = h
      text (some r) = elim (Bool-cases (r.response == "")) [
        | inl e ↦ rw e h
        | inr e ↦ rw e (λ q. ground (arith, e, string_eq.same_iff r.response "", q))
      ]

  -- Where the request becomes JSON and can be made, the question has no error and its summary is not
  -- empty: it is the text of the engine's answer, if the request got through with status 200 and a
  -- body that is a response with a text, and else the local summary.
  pub summary_given :
      (c : Client) (host story : String) (anomalies : List AnomalyEvent) (json : String)
      → O.marshal (request_of c host story anomalies) ≡ (json, none)
      → O.request_error (url_of c) ≡ none
      → (generate_incident_summary O c host story anomalies
          ≡ (or_else (usable O (O.put (url_of c) json)) (fallback_summary c host anomalies), none))
        × ((generate_incident_summary O c host story anomalies).0 ≢ "")
  unfolding generate_incident_summary
  summary_given c host story anomalies json m e =
      rw (m, e, put_answer-usable (fallback_summary c host anomalies) (O.put (url_of c) json))
        (
          refl,
          usable-ne-nil (O.put (url_of c) json) (fallback_summary c host anomalies)
              (fallback_summary-ne-nil c host anomalies),
        )

-- ===== src/Remote/Guard.antt =====
-- Who sees what through the web view.
use undertow.Base.{
  ℕ, ◌≡◌, refl, ap, inl, inr, String, Bool, true, false, not, ◌||◌, none, some, List, [], ◌∷◌,
  if◌then◌else◌, Bool-cases,
}
use undertow.Base.Eq.{◌==◌, string_eq}
use undertow.Remote.{
  Server, Reply, error, header, status, write, flush, handle_index, StreamEvent, ended, tick, frame,
  stream, handle_stream,
}

-- What a response discloses: the bodies that are written.
abbrev pub bodies : List Reply → List String
bodies [] = []
bodies (error text code ∷ rest) = bodies rest
bodies (header key value ∷ rest) = bodies rest
bodies (status code ∷ rest) = bodies rest
bodies (write text ∷ rest) = text ∷ bodies rest
bodies (flush ∷ rest) = bodies rest

-- The part of the stream before the request ends or a write fails.
abbrev ends : StreamEvent → Bool
ends ended = true
ends (tick none written) = false
ends (tick (some data_) written) = not written

abbrev before_end : List StreamEvent → List StreamEvent
before_end [] = []
before_end (e ∷ es) = if ends e then [] else e ∷ before_end es

abbrev frames : List StreamEvent → List String
frames [] = []
frames (ended ∷ es) = frames es
frames (tick none written ∷ es) = frames es
frames (tick (some data_) written ∷ es) = frame data_ ∷ frames es

bodies-stream : (evs : List StreamEvent) → bodies (stream evs) ≡ frames (before_end evs)
unfolding stream
bodies-stream [] = refl
bodies-stream (ended ∷ evs) = refl
bodies-stream (tick none written ∷ evs) = bodies-stream evs
bodies-stream (tick (some data_) true ∷ evs) = ap (λ l. frame data_ ∷ l) (bodies-stream evs)
bodies-stream (tick (some data_) false ∷ evs) = refl

-- The codes of the errors that a response answers with.
abbrev pub refusals : List Reply → List ℕ
refusals [] = []
refusals (error text code ∷ rest) = code ∷ refusals rest
refusals (header key value ∷ rest) = refusals rest
refusals (status code ∷ rest) = refusals rest
refusals (write text ∷ rest) = refusals rest
refusals (flush ∷ rest) = refusals rest

refusals-stream : (evs : List StreamEvent) → refusals (stream evs) ≡ []
unfolding stream
refusals-stream [] = refl
refusals-stream (ended ∷ evs) = refl
refusals-stream (tick none written ∷ evs) = refusals-stream evs
refusals-stream (tick (some data_) true ∷ evs) = refusals-stream evs
refusals-stream (tick (some data_) false ∷ evs) = refl

-- Only at a server without a token, or with the server's token, a request gets anything: from the
-- index the page, and from the stream, where it can be flushed, a frame for every snapshot that
-- became JSON until the request ends or a write fails. Every other request gets the answer 401 from
-- both and nothing written, whatever happens.
pub guarded :
    (viewer_html : String) (s : Server) (query_token : String) (evs : List StreamEvent)
    → let granted = s.token == "" || query_token == s.token in
      let index = handle_index viewer_html s query_token in
      let live = handle_stream s query_token true evs in
      (bodies index ≡ (if granted then viewer_html ∷ [] else []))
      × (refusals index ≡ (if granted then [] else 401 ∷ []))
      × (bodies live ≡ (if granted then frames (before_end evs) else []))
      × (refusals live ≡ (if granted then [] else 401 ∷ []))
unfolding handle_index handle_stream
guarded viewer_html s query_token evs = elim (Bool-cases (s.token == "")) [
  | inl e ↦ rw e (refl, refl, bodies-stream evs, refusals-stream evs)
  | inr e ↦ elim (Bool-cases (query_token == s.token)) [
    | inl k ↦ rw (e, k) (refl, refl, bodies-stream evs, refusals-stream evs)
    | inr k ↦ rw (e, k) (refl, refl, refl, refl)
  ]
]

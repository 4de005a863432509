-- ===== src/Remote.antt =====
-- internal/remote/server.go: the read-only web view. A handler's writes to its response are the list
-- of its replies; what `select` takes in the stream is a list of events. Start, which listens and
-- shuts down, is left out.
pub mod Guard
use undertow.Base.{
  ℕ, String, Bool, true, false, not, Option, none, some, List, [], ◌∷◌, ◌++◌, if◌then◌else◌,
}
use undertow.Base.Eq.{◌==◌, string_eq}
use undertow.Base.Text.{concat}

pub record Server : Type 0 where
  pub addr : String
  pub token : String

-- `http.Error`, a header that is set, the status, a write to the body, and a flush.
pub data Reply : Type 0 where
  error : String → ℕ → Reply
  header : String → String → Reply
  status : ℕ → Reply
  write : String → Reply
  flush : Reply

-- `NewServer`
unfoldable new_server : String → String → Server
new_server addr token = record { addr = addr; token = token }

-- `authenticate`, on the value of the query's `token`, which is empty where there is none
unfoldable authenticate : Server → String → Bool
authenticate s query_token = if s.token == "" then true else query_token == s.token

abbrev unauthorized : List Reply
unauthorized = error "401 Unauthorized: Valid ?token= required" 401 ∷ []

-- `handleIndex`; `viewer_html` is the embedded page.
unfoldable pub handle_index : String → Server → String → List Reply
unfolding authenticate
handle_index viewer_html s query_token =
    if not (authenticate s query_token)
    then unauthorized
    else header "Content-Type" "text/html; charset=utf-8" ∷ status 200 ∷ write viewer_html ∷ []

-- The request ends, or a tick with the snapshot as JSON, none where that fails, and whether the
-- write succeeds.
pub data StreamEvent : Type 0 where
  ended : StreamEvent
  tick : Option String → Bool → StreamEvent

abbrev pub frame : String → String
frame data_ = concat ("data: " ∷ data_ ∷ "\n\n" ∷ [])

abbrev sent_frame : String → Bool → List Reply → List Reply
sent_frame data_ true rest = write (frame data_) ∷ flush ∷ rest
sent_frame data_ false rest = []

-- The loop of `handleStream`. A write that fails reaches nobody.
unfoldable pub stream : List StreamEvent → List Reply
stream [] = []
stream (ended ∷ evs) = []
stream (tick none written ∷ evs) = stream evs
stream (tick (some data_) written ∷ evs) = sent_frame data_ written (stream evs)

abbrev stream_headers : List Reply
stream_headers =
    header "Content-Type" "text/event-stream"
    ∷ header "Cache-Control" "no-cache"
    ∷ header "Connection" "keep-alive"
    ∷ header "Access-Control-Allow-Origin" "*"
    ∷ []

-- `handleStream`; `flushes` is whether the response is a `Flusher`.
unfoldable pub handle_stream : Server → String → Bool → List StreamEvent → List Reply
unfolding authenticate stream
handle_stream s query_token flushes evs =
    if not (authenticate s query_token)
    then unauthorized
    else if not flushes
    then error "Streaming unsupported" 500 ∷ []
    else stream_headers ++ stream evs

-- ===== src/Runtime/LogLimiter.antt =====
-- src/runtime/httpServerEvents.ts: `HttpServerLogLimiter`, the classes of client errors, and the
-- handler of a client error. The map of the limiter's states is a function of the event.
pub mod Laws
use news_api.Base.{
  ℕ, ◌+◌, String, Bool, true, false, not, ◌||◌, Option, none, some, ltb, leb, if◌then◌else◌, str_is,
}

pub data HttpServerEvent : Type 0 where
  client_error request_timeout header_overflow chunk_extensions_overflow dropped_request :
      HttpServerEvent

abbrev pub same_event : HttpServerEvent → HttpServerEvent → Bool
same_event client_error client_error = true
same_event request_timeout request_timeout = true
same_event header_overflow header_overflow = true
same_event chunk_extensions_overflow chunk_extensions_overflow = true
same_event dropped_request dropped_request = true
same_event _ _ = false

pub record HttpServerLogState : Type 0 where
  pub window_started_at : ℕ
  pub emitted : ℕ
  pub suppressed : ℕ

pub record HttpServerLogDecision : Type 0 where
  pub emit : Bool
  pub suppressed : ℕ

-- `this.states`; `none` is an event that is not in the map.
abbrev pub LogStates : Type 0
LogStates = HttpServerEvent → Option HttpServerLogState

abbrev pub set_state : HttpServerEvent → HttpServerLogState → LogStates → LogStates
set_state e v states k = if same_event e k then some v else states k

module _ (burst window_ms : ℕ) where
  abbrev pub take_new : ℕ → ℕ → HttpServerLogState × HttpServerLogDecision
  take_new now pending = (
    record { window_started_at = now; emitted = 1; suppressed = 0 },
    record { emit = true; suppressed = pending },
  )

  -- The new state of the event and the decision, from its state so far. The clock can have gone
  -- back: `currentTime - windowStartedAt` is then below any window.
  unfoldable pub take_state :
      ℕ → Option HttpServerLogState → HttpServerLogState × HttpServerLogDecision
  take_state now none = take_new now 0
  take_state now (some s) =
      if leb (s.window_started_at + window_ms) now
      then take_new now s.suppressed
      else if ltb s.emitted burst
      then (record s { emitted = s.emitted + 1 }, record { emit = true; suppressed = 0 })
      else (record s { suppressed = s.suppressed + 1 }, record { emit = false; suppressed = 0 })

  -- `take(event)` at the time `now`.
  unfoldable pub take : ℕ → HttpServerEvent → LogStates → LogStates × HttpServerLogDecision
  unfolding take_state
  take now e states =
      let (s, decision) = take_state now (states e) in (set_state e s states, decision)

-- `classifyHttpClientError(error)`, by the error's `code`.
unfoldable pub classify_http_client_error : Option String → HttpServerEvent
classify_http_client_error code =
    if str_is code "ERR_HTTP_REQUEST_TIMEOUT"
    then request_timeout
    else if str_is code "HPE_HEADER_OVERFLOW"
    then header_overflow
    else if str_is code "HPE_CHUNK_EXTENSIONS_OVERFLOW"
    then chunk_extensions_overflow
    else client_error

-- The status line of `CLIENT_ERROR_RESPONSES`. A dropped request is answered by Node, not here.
unfoldable pub client_error_status : HttpServerEvent → ℕ
client_error_status client_error = 400
client_error_status request_timeout = 408
client_error_status header_overflow = 431
client_error_status chunk_extensions_overflow = 413
client_error_status dropped_request = 400

-- What the handler reads of a socket.
pub record Socket : Type 0 where
  pub destroyed : Bool
  pub writable : Bool
  pub header_sent : Bool

-- What the handler does: the event counted, what was logged with how many suppressed before, or
-- that a log line was suppressed, and the status written. The socket is destroyed in every case.
pub record Handled : Type 0 where
  pub counted : HttpServerEvent
  pub logged : Option ℕ
  pub suppressed_counted : Bool
  pub written : Option ℕ

-- `handleHttpClientError(error, socket, limiter)`; `warns` says that the logger's level lets
-- warnings through.
unfoldable pub handle_http_client_error :
    ℕ → ℕ → Bool → ℕ → Option String → Socket → LogStates → LogStates × Handled
unfolding classify_http_client_error client_error_status take
handle_http_client_error burst window_ms warns now code socket states =
    let event = classify_http_client_error code in
    let (states', decision) = take burst window_ms now event states in
    let written =
      if socket.destroyed || not socket.writable || socket.header_sent
      then none
      else some (client_error_status event) in
    if not warns
    then (
      states,
      record { counted = event; logged = none; suppressed_counted = false; written = written },
    )
    else if decision.emit
    then (
      states',
      record {
        counted = event;
        logged = some decision.suppressed;
        suppressed_counted = false;
        written = written;
      },
    )
    else (
      states',
      record { counted = event; logged = none; suppressed_counted = true; written = written },
    )

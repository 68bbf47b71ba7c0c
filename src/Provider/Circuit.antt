-- ===== src/Provider/Circuit.antt =====
-- src/providers/gnewsProvider.ts: the circuit breaker. The module's variable `circuit` is a state
-- that each function takes and returns, with the events counted so far, the newest first. The
-- threshold and the cooldown are the settings that `failureThreshold` and `cooldownMs` read; the
-- clock in milliseconds is an argument.
pub mod Laws
use news_api.Js.Decimal.{show}
use news_api.Js.Number.{max_safe}
use news_api.Config.Numbers.{resolve_positive_integer_env}
use news_api.Errors.{
  ErrorClass, Result, Thrown, axios_error, error, ok, throw, http_error_of,
  is_request_aborted_error, no_error,
}
use news_api.Http.RetryAfter.{max_retry_after_seconds}
use news_api.Js.Text.{Text}
use news_api.Base.{
  ℕ, ◌+◌, ◌-◌, ◌/◌, min, max, Bool, true, false, not, ◌&&◌, ◌||◌, Option, none, some, List, ◌∷◌,
  ltb, leb, ◌==◌, if◌then◌else◌, is_some,
}

pub record CircuitState : Type 0 where
  pub failures : ℕ
  pub opened_at : Option ℕ
  pub half_open_in_flight : Bool

pub data CircuitRequestState : Type 0 where
  closed half_open : CircuitRequestState

-- The labels of `upstreamCircuitEventsTotal`.
pub data CircuitEvent : Type 0 where
  short_circuit half_opened circuit_closed circuit_opened : CircuitEvent

pub record CircuitWorld : Type 0 where
  pub circuit : CircuitState
  pub events : List CircuitEvent

abbrev pub initial_circuit : CircuitState
initial_circuit = record { failures = 0; opened_at = none; half_open_in_flight = false }

unfoldable pub failure_threshold : Option Text → ℕ
failure_threshold raw = resolve_positive_integer_env raw 3 max_safe

unfoldable pub cooldown_ms : Option Text → ℕ
cooldown_ms raw = resolve_positive_integer_env raw 30_000 300_000

abbrev pub count_event : CircuitEvent → CircuitWorld → CircuitWorld
count_event e w = record w { events = e ∷ w.events }

abbrev pub is_open : CircuitState → Bool
is_open c = is_some c.opened_at

module _ (cooldown : ℕ) where
  -- `circuitRetryAfter(now)`: a remaining time below zero gives one second.
  unfoldable pub circuit_retry_after : Option ℕ → ℕ → ℕ
  circuit_retry_after none now = 1
  circuit_retry_after (some opened) now =
      min (max 1 ((opened + cooldown - now + 999) / 1000)) max_retry_after_seconds

  abbrev pub short_circuited : CircuitWorld → ℕ → CircuitWorld × Result CircuitRequestState
  short_circuited w now = (
    count_event short_circuit w,
    throw (
        http_error_of 503 "Upstream news service temporarily unavailable" "upstream_circuit_open"
          (some (show (circuit_retry_after w.circuit.opened_at now)))),
  )

  abbrev pub admit : CircuitWorld → ℕ → Option ℕ → Bool → CircuitWorld × Result CircuitRequestState
  admit w now none true = short_circuited w now
  admit w now none false = (w, ok closed)
  admit w now (some opened) probing =
      if ltb now (opened + cooldown) then short_circuited w now else (
        count_event half_opened (record w {
          circuit = record (w.circuit) { opened_at = none; half_open_in_flight = true };
        }),
        ok half_open,
      )

  -- `assertCircuitAllowsRequest(now)`.
  unfoldable pub assert_circuit_allows_request :
      CircuitWorld → ℕ → CircuitWorld × Result CircuitRequestState
  unfolding circuit_retry_after
  assert_circuit_allows_request w now =
      admit w now w.circuit.opened_at w.circuit.half_open_in_flight

-- `closeCircuit()`.
unfoldable pub close_circuit : CircuitWorld → CircuitWorld
close_circuit w =
    let reset = record w { circuit = initial_circuit } in
    if ltb 0 w.circuit.failures || is_open w.circuit || w.circuit.half_open_in_flight
    then count_event circuit_closed reset
    else reset

-- `recordProviderFailure()` at the time `now`.
unfoldable pub record_provider_failure : ℕ → ℕ → CircuitWorld → CircuitWorld
record_provider_failure threshold now w =
    let counted = record (w.circuit) {
      half_open_in_flight = false;
      failures = w.circuit.failures + 1;
    } in
    if leb threshold counted.failures && not (is_open w.circuit)
    then count_event circuit_opened (record w { circuit = record counted { opened_at = some now } })
    else record w { circuit = counted }

-- `recordCanceledProbe(circuitState)` at the time `now`.
unfoldable pub record_canceled_probe : CircuitRequestState → ℕ → CircuitWorld → CircuitWorld
record_canceled_probe closed now w = w
record_canceled_probe half_open now w = count_event circuit_opened (record w {
  circuit = record (w.circuit) { half_open_in_flight = false; opened_at = some now };
})

-- The statuses at which the provider counts as failing.
abbrev pub is_failing_status : ℕ → Bool
is_failing_status s = s == 408 || s == 425 || s == 429 || leb 500 s

abbrev pub class_records_failure : ErrorClass → Bool
class_records_failure (axios_error (some response)) = is_failing_status response.status
class_records_failure _ = true

-- `shouldRecordProviderFailure(error)`.
unfoldable pub should_record_provider_failure : Thrown → Bool
should_record_provider_failure no_error = true
should_record_provider_failure (error e) =
    not (is_request_aborted_error (error e)) && class_records_failure e.cls

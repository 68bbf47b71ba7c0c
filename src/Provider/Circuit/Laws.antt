-- ===== src/Provider/Circuit/Laws.antt =====
-- What each operation of the circuit breaker does, and sequences of them.
use mathlib.Core.List.{[]}
use news_api.Js.Decimal.{show}
use news_api.Http.RetryAfter.{max_retry_after_seconds}
use news_api.Errors.{Result, throw, http_error_of, ok}
use news_api.Provider.Circuit.{
  CircuitWorld, assert_circuit_allows_request, circuit_retry_after, Result, max_retry_after_seconds,
  short_circuited, CircuitRequestState, short_circuit, show, CircuitState, close_circuit,
  record_provider_failure, half_open, is_open, count_event, half_opened, initial_circuit,
}
use news_api.Base.{
  ℕ, ◌+◌, ◌≤◌, ◌<◌, ◌≡◌, refl, Option, none, some, ◌∷◌, arith, lt→ltb, List, length, leb, ltb,
  false, true, ◌∙◌, ap,
}

-- The operations name the settings of one process, which do not change while it runs.
module _ (cooldown : ℕ) where
  -- A request that is turned away leaves the circuit as it was, is counted once, and answers 503
  -- with a number of seconds from one to a day.
  pub record IsShortCircuit (w : CircuitWorld) (r : CircuitWorld × Result CircuitRequestState)
      : Type 0 where
    pub circuit : r.0.circuit ≡ w.circuit
    pub counted : r.0.events ≡ short_circuit ∷ w.events
    pub seconds : ℕ
    pub positive : 0 < seconds
    pub bounded : seconds ≤ max_retry_after_seconds
    pub answer :
        r.1
        ≡ throw (
            http_error_of 503 "Upstream news service temporarily unavailable"
              "upstream_circuit_open"
              (some (show seconds)))

  circuit_retry_after_bounds :
      (opened : Option ℕ) (now : ℕ)
      → (0 < circuit_retry_after cooldown opened now)
        × (circuit_retry_after cooldown opened now ≤ max_retry_after_seconds)
  unfolding circuit_retry_after
  circuit_retry_after_bounds none now = omega arith
  circuit_retry_after_bounds (some opened) now = omega arith

  short_circuited-IsShortCircuit :
      (w : CircuitWorld) (now : ℕ) → IsShortCircuit w (short_circuited cooldown w now)
  short_circuited-IsShortCircuit w now =
      let b = circuit_retry_after_bounds w.circuit.opened_at now in
      record {
        circuit = refl;
        counted = refl;
        seconds = circuit_retry_after cooldown w.circuit.opened_at now;
        positive = b.0;
        bounded = b.1;
        answer = refl;
      }

  -- While the circuit is open, until the cooldown has passed, every request is turned away.
  pub assert_circuit_open :
      (w : CircuitWorld) (opened now : ℕ)
      → w.circuit.opened_at ≡ some opened
      → now < opened + cooldown
      → IsShortCircuit w (assert_circuit_allows_request cooldown w now)
  unfolding assert_circuit_allows_request
  assert_circuit_open w opened now e h =
      rw (e, lt→ltb now (opened + cooldown) h) (rw e at (short_circuited-IsShortCircuit w now))

  -- After the cooldown exactly one request is let through as a probe: the next one, at whatever
  -- time, is turned away while the probe runs.
  pub assert_circuit_probe :
      (w : CircuitWorld) (opened now later : ℕ)
      → w.circuit.opened_at ≡ some opened
      → opened + cooldown ≤ now
      → (w' : CircuitWorld) × (assert_circuit_allows_request cooldown w now ≡ (w', ok half_open))
        × IsShortCircuit w' (assert_circuit_allows_request cooldown w' later)
  unfolding assert_circuit_allows_request
  assert_circuit_probe w opened now later e h =
      let passed : ltb now (opened + cooldown) ≡ false = ground arith in
      let probing : CircuitWorld = count_event half_opened (record w {
        circuit = record (w.circuit) { opened_at = none; half_open_in_flight = true };
      }) in
      (probing, rw (e, passed), short_circuited-IsShortCircuit probing later)

-- Failures one after another, at the given times.
abbrev pub fail_at : ℕ → List ℕ → CircuitWorld → CircuitWorld
fail_at threshold [] w = w
fail_at threshold (now ∷ times) w =
    fail_at threshold times (record_provider_failure threshold now w)

-- Where the failures and the opening of a circuit stand in relation, without cancelled probes.
abbrev pub OpensAt : ℕ → CircuitState → Type 0
OpensAt threshold c = is_open c ≡ leb threshold c.failures

record_provider_failure-OpensAt :
    (threshold now : ℕ) (w : CircuitWorld)
    → OpensAt threshold w.circuit
    → OpensAt threshold (record_provider_failure threshold now w).circuit
      × ((record_provider_failure threshold now w).circuit.failures ≡ w.circuit.failures + 1)
unfolding record_provider_failure
record_provider_failure-OpensAt threshold now w h = ground arith

fail_at-OpensAt :
    (threshold : ℕ) (times : List ℕ) (w : CircuitWorld)
    → OpensAt threshold w.circuit
    → OpensAt threshold (fail_at threshold times w).circuit
      × ((fail_at threshold times w).circuit.failures ≡ w.circuit.failures + length times)
fail_at-OpensAt threshold [] w h = (h, omega arith)
fail_at-OpensAt threshold (now ∷ times) w h =
    let (o, n) = record_provider_failure-OpensAt threshold now w h in
    let (o', n') = fail_at-OpensAt threshold times _ o in (o', omega (arith, n, n'))

-- Whatever stood before, a success resets the circuit.
pub close_circuit-circuit : (w : CircuitWorld) → (close_circuit w).circuit ≡ initial_circuit
unfolding close_circuit
close_circuit-circuit w = ground arith

-- From a circuit that a success has closed, failures in a row have it open exactly if there are
-- at least as many as the threshold, which is positive.
pub close_circuit-fail_at :
    (threshold : ℕ) (times : List ℕ) (w : CircuitWorld)
    → 0 < threshold
    → is_open (fail_at threshold times (close_circuit w)).circuit ≡ leb threshold (length times)
close_circuit-fail_at threshold times w pos =
    let e = close_circuit-circuit w in
    let start : OpensAt threshold (close_circuit w).circuit = rw e (ground arith) in
    let (o, n) = fail_at-OpensAt threshold times (close_circuit w) start in
    let all_counted : (fail_at threshold times (close_circuit w)).circuit.failures ≡ length times =
      n ∙ rw e (omega arith) in
    o ∙ ap (leb threshold) all_counted

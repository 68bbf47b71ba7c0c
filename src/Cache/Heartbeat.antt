-- ===== src/Cache/Heartbeat.antt =====
-- src/cache/coordinator.ts, `startLeaseHeartbeat` for a store that can renew: the timer that renews a
-- lease while its owner loads. The replies of the store arrive as steps of their own.
pub mod Laws
use news_api.Errors.{Result, ok, throw}
use news_api.Base.{ℕ, suc, ◌-◌, Bool, true, false, ◌||◌, List, [], ◌∷◌, if◌then◌else◌, ltb}

-- The events that a renewal is counted as.
pub data RenewalEvent : Type 0 where
  renewed lost renewal_error : RenewalEvent

-- The variables of the function, with the number of calls of `renewLease` so far, of those that the
-- store has not answered yet, and the events counted, the newest first.
pub record Heartbeat : Type 0 where
  pub stopped : Bool
  pub renewal_in_flight : Bool
  pub timer : Bool
  pub sent : ℕ
  pub pending : ℕ
  pub events : List RenewalEvent

abbrev pub start_lease_heartbeat : Heartbeat
start_lease_heartbeat = record {
  stopped = false;
  renewal_in_flight = false;
  timer = true;
  sent = 0;
  pending = 0;
  events = [];
}

unfoldable pub stop : Heartbeat → Heartbeat
stop h = record h { stopped = true; timer = false }

-- `renew()` up to the answer of the store; `aborted` says whether the signal is.
unfoldable pub renew : (aborted : Bool) → Heartbeat → Heartbeat
renew aborted h =
    if h.stopped || aborted || h.renewal_in_flight
    then h
    else record h { renewal_in_flight = true; sent = suc h.sent; pending = suc h.pending }

abbrev pub count_event : RenewalEvent → Heartbeat → Heartbeat
count_event e h = record h { events = e ∷ h.events }

-- What `renew()` does with the answer, before its `finally` block.
abbrev pub renewal_answer : Result Bool → Heartbeat → Heartbeat
renewal_answer (ok true) h = count_event renewed h
renewal_answer (ok false) h = stop (count_event lost h)
renewal_answer (throw e) h = count_event renewal_error h

-- `renew()` from the answer of the store on.
unfoldable pub settle_renewal : Result Bool → Heartbeat → Heartbeat
unfolding stop
settle_renewal reply h =
    let answered = if h.stopped then h else renewal_answer reply h in
    record answered { renewal_in_flight = false; pending = h.pending - 1 }

-- What happens to a heartbeat: its timer fires, the store answers, the owner stops it.
pub data HeartbeatEvent : Type 0 where
  fire : (aborted : Bool) → HeartbeatEvent
  answer : Result Bool → HeartbeatEvent
  stop_call : HeartbeatEvent

-- A timer that is cleared does not fire, and the store answers only calls that were made.
abbrev pub heartbeat_step : HeartbeatEvent → Heartbeat → Heartbeat
heartbeat_step (fire aborted) h = if h.timer then renew aborted h else h
heartbeat_step (answer reply) h = if ltb 0 h.pending then settle_renewal reply h else h
heartbeat_step stop_call h = stop h

unfoldable pub run_heartbeat : List HeartbeatEvent → Heartbeat → Heartbeat
unfolding stop renew settle_renewal
run_heartbeat [] h = h
run_heartbeat (e ∷ es) h = run_heartbeat es (heartbeat_step e h)

-- ===== src/Cache/Heartbeat/Laws.antt =====
-- At most one renewal is under way, and a heartbeat that was stopped or lost its lease is silent.
use mathlib.Core.List.{[]}
use news_api.Errors.{Result}
use news_api.Cache.Heartbeat.{
  Heartbeat, RenewalEvent, run_heartbeat, settle_renewal, stop, HeartbeatEvent, Result, renew,
  heartbeat_step, fire, ok, lost, answer, throw, stop_call, start_lease_heartbeat,
}
use news_api.Base.{
  List, Bool, ℕ, ◌≡◌, true, ◌<◌, ◌∷◌, false, arith, Bool-cases, ltb, inl, ltb→lt, inr,
  if◌then◌else◌, not, ◌+◌, length, ◌≤◌, refl,
}

-- The events of a kind.
abbrev pub is_lost : RenewalEvent → Bool
is_lost lost = true
is_lost _ = false

abbrev pub losses : List RenewalEvent → ℕ
losses [] = 0
losses (e ∷ es) = (if is_lost e then 1 else 0) + losses es

pub record IsHeartbeat (h : Heartbeat) : Type 0 where
  pub single : h.pending ≡ (if h.renewal_in_flight then 1 else 0)
  pub timer_iff : h.timer ≡ not h.stopped
  pub counted : length h.events + h.pending ≤ h.sent
  pub lost_once : losses h.events ≤ (if h.stopped then 1 else 0)

renewal_answer-IsHeartbeat :
    (reply : Result Bool) (h : Heartbeat)
    → IsHeartbeat h
    → 0 < h.pending
    → IsHeartbeat (settle_renewal reply h)
unfolding settle_renewal stop
renewal_answer-IsHeartbeat (ok true) h i p = record {
  single = ground (arith, i.single);
  timer_iff = ground (arith, i.timer_iff);
  counted = ground (arith, i.counted);
  lost_once = ground (arith, i.lost_once);
}
renewal_answer-IsHeartbeat (ok false) h i p = record {
  single = ground (arith, i.single);
  timer_iff = ground (arith, i.timer_iff);
  counted = ground (arith, i.counted);
  lost_once = ground (arith, i.lost_once);
}
renewal_answer-IsHeartbeat (throw e) h i p = record {
  single = ground (arith, i.single);
  timer_iff = ground (arith, i.timer_iff);
  counted = ground (arith, i.counted);
  lost_once = ground (arith, i.lost_once);
}

heartbeat_step-IsHeartbeat :
    (e : HeartbeatEvent) (h : Heartbeat) → IsHeartbeat h → IsHeartbeat (heartbeat_step e h)
unfolding stop renew
heartbeat_step-IsHeartbeat (fire aborted) h i = record {
  single = ground (arith, i.single);
  timer_iff = ground (arith, i.timer_iff);
  counted = ground (arith, i.counted);
  lost_once = ground (arith, i.lost_once);
}
heartbeat_step-IsHeartbeat (answer reply) h i = elim (Bool-cases (ltb 0 h.pending)) [
  | inl waiting ↦ rw waiting (renewal_answer-IsHeartbeat reply h i (ltb→lt 0 h.pending waiting))
  | inr idle ↦ rw idle i
]
heartbeat_step-IsHeartbeat stop_call h i = record {
  single = i.single;
  timer_iff = refl;
  counted = i.counted;
  lost_once = ground (arith, i.lost_once);
}

run_heartbeat-IsHeartbeat :
    (es : List HeartbeatEvent) (h : Heartbeat) → IsHeartbeat h → IsHeartbeat (run_heartbeat es h)
unfolding run_heartbeat
run_heartbeat-IsHeartbeat [] h i = i
run_heartbeat-IsHeartbeat (e ∷ es) h i =
    run_heartbeat-IsHeartbeat es (heartbeat_step e h) (heartbeat_step-IsHeartbeat e h i)

-- At every moment of a heartbeat at most one renewal is unanswered, the timer is set until it is
-- stopped, no more events are counted than renewals were answered, and a lease is lost at most once
-- and only by a heartbeat that is stopped since.
pub start_lease_heartbeat-IsHeartbeat :
    (es : List HeartbeatEvent) → IsHeartbeat (run_heartbeat es start_lease_heartbeat)
start_lease_heartbeat-IsHeartbeat es =
    run_heartbeat-IsHeartbeat es start_lease_heartbeat
      (record { single = refl; timer_iff = refl; counted = omega arith; lost_once = omega arith })

-- Once a heartbeat has stopped it stays so.
pub record IsSilent (h h' : Heartbeat) : Type 0 where
  pub still_stopped : h'.stopped ≡ true
  pub no_timer : h'.timer ≡ false
  pub same_sent : h'.sent ≡ h.sent
  pub same_events : h'.events ≡ h.events

heartbeat_step-IsSilent :
    (e : HeartbeatEvent) (h h' : Heartbeat) → IsSilent h h' → IsSilent h (heartbeat_step e h')
unfolding stop renew settle_renewal
heartbeat_step-IsSilent (fire aborted) h h' s = record {
  still_stopped = ground (arith, s.still_stopped, s.no_timer);
  no_timer = ground (arith, s.no_timer);
  same_sent = ground (arith, s.same_sent, s.no_timer);
  same_events = ground (arith, s.same_events, s.no_timer);
}
heartbeat_step-IsSilent (answer reply) h h' s = record {
  still_stopped = ground (arith, s.still_stopped);
  no_timer = ground (arith, s.no_timer, s.still_stopped);
  same_sent = ground (arith, s.same_sent, s.still_stopped);
  same_events = ground (arith, s.same_events, s.still_stopped);
}
heartbeat_step-IsSilent stop_call h h' s = record {
  still_stopped = refl;
  no_timer = refl;
  same_sent = s.same_sent;
  same_events = s.same_events;
}

run_heartbeat-IsSilent :
    (es : List HeartbeatEvent) (h h' : Heartbeat) → IsSilent h h' → IsSilent h (run_heartbeat es h')
unfolding run_heartbeat
run_heartbeat-IsSilent [] h h' s = s
run_heartbeat-IsSilent (e ∷ es) h h' s =
    run_heartbeat-IsSilent es h (heartbeat_step e h') (heartbeat_step-IsSilent e h h' s)

-- A heartbeat that was stopped, by its owner or because its lease was lost, sends no further renewal
-- and counts no further event, whatever fires or is answered later.
pub stopped_heartbeat-IsSilent :
    (es later : List HeartbeatEvent)
    → (run_heartbeat es start_lease_heartbeat).stopped ≡ true
    → IsSilent
        (run_heartbeat es start_lease_heartbeat)
        (run_heartbeat later (run_heartbeat es start_lease_heartbeat))
stopped_heartbeat-IsSilent es later halted =
    let i = start_lease_heartbeat-IsHeartbeat es in
    run_heartbeat-IsSilent later _ _ (record {
      still_stopped = halted;
      no_timer = ground (arith, i.timer_iff);
      same_sent = refl;
      same_events = refl;
    })

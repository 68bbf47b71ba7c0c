-- ===== src/Runtime/LogLimiter/Laws.antt =====
-- The budget of log lines, over any sequence of one event.
use LogLimiter.{client_error}
use news_api.Runtime.LogLimiter.{
  HttpServerLogDecision, HttpServerLogState, take_state, HttpServerEvent, take_new, LogStates,
  same_event,
}
use news_api.Runtime.LogLimiter
use news_api.Base.{
  ℕ, ◌+◌, ◌≤◌, ◌<◌, ◌≡◌, refl, ◌≢◌, inl, inr, true, false, Option, none, some, List, [], ◌∷◌, arith,
  ltb, leb, if◌then◌else◌, Bool-cases, All,
}

abbrev pub pending : Option HttpServerLogState → ℕ
pending none = 0
pending (some s) = s.suppressed

module _ (burst window_ms : ℕ) where
  -- The decisions on one event at the given times, and its state after them.
  unfoldable pub run :
      List ℕ → Option HttpServerLogState → Option HttpServerLogState × List HttpServerLogDecision
  run [] s = (s, [])
  run (now ∷ times) s =
      let (s', decision) = take_state burst window_ms now s in
      let (final, decisions) = run times (some s') in (final, decision ∷ decisions)

-- The lines that were held back, those that later lines reported, and the lines written.
abbrev pub held_back : List HttpServerLogDecision → ℕ
held_back [] = 0
held_back (d ∷ ds) = (if d.emit then 0 else 1) + held_back ds

abbrev pub reported : List HttpServerLogDecision → ℕ
reported [] = 0
reported (d ∷ ds) = d.suppressed + reported ds

abbrev pub written : List HttpServerLogDecision → ℕ
written [] = 0
written (d ∷ ds) = (if d.emit then 1 else 0) + written ds

module _ (burst window_ms : ℕ) where
  take_state-conserves :
      (now : ℕ) (s : Option HttpServerLogState)
      → let r = take_state burst window_ms now s in
        pending s + (if r.1.emit then 0 else 1) ≡ r.1.suppressed + r.0.suppressed
  unfolding take_state
  take_state-conserves now none = refl
  take_state-conserves now (some s) = ground arith

  -- No held back line is forgotten or reported twice: those held back, with those pending at the
  -- start, are those reported by later lines and those still pending.
  pub run-conserves :
      (times : List ℕ) (s : Option HttpServerLogState)
      → let r = run burst window_ms times s in
        pending s + held_back r.1 ≡ reported r.1 + pending r.0
  unfolding run
  run-conserves [] s = omega arith
  run-conserves (now ∷ times) s = omega (
    arith,
    take_state-conserves now s,
    run-conserves times (some (take_state burst window_ms now s).0),
  )

  -- The times lie before the end of the window that starts at `start`.
  abbrev pub AreWithin : ℕ → List ℕ → Type 0
  AreWithin start times = All (λ t. t < start + window_ms) times

  written-le-rest :
      (times : List ℕ) (s : HttpServerLogState)
      → AreWithin s.window_started_at times
      → s.emitted ≤ burst
      → written (run burst window_ms times (some s)).1 + s.emitted ≤ burst
  unfolding run take_state
  written-le-rest [] s h room = omega arith
  written-le-rest (now ∷ times) s h room = elim (Bool-cases (ltb s.emitted burst)) [
    | inl more ↦
        let open_ : leb (s.window_started_at + window_ms) now ≡ false = ground arith in
        let rest =
          written-le-rest times (record s { emitted = s.emitted + 1 }) h.1 (ground arith) in
        rw (open_, more) (omega (arith, rest))
    | inr full ↦
        let open_ : leb (s.window_started_at + window_ms) now ≡ false = ground arith in
        let rest = written-le-rest times (record s { suppressed = s.suppressed + 1 }) h.1 room in
        rw (open_, full) (omega (arith, rest))
  ]

  -- The event has no window, or the one it has is over at the time.
  abbrev pub IsOver : ℕ → Option HttpServerLogState → Type 0
  IsOver start none = Unit
  IsOver start (some s) = s.window_started_at + window_ms ≤ start

  take_state_of_IsOver :
      (start : ℕ) (s : Option HttpServerLogState)
      → IsOver start s
      → take_state burst window_ms start s ≡ take_new burst window_ms start (pending s)
  unfolding take_state
  take_state_of_IsOver start none h = refl
  take_state_of_IsOver start (some s) h =
      let ended : leb (s.window_started_at + window_ms) start ≡ true = ground arith in rw ended

  -- From the line that opens a window on, at most `burst` lines, if that is positive, are written
  -- before it ends.
  pub written-le-burst :
      (start : ℕ) (times : List ℕ) (s : Option HttpServerLogState)
      → 0 < burst
      → IsOver start s
      → AreWithin start times
      → written (run burst window_ms (start ∷ times) s).1 ≤ burst
  unfolding run
  written-le-burst start times s pos over h =
      let opened : HttpServerLogState = record {
        window_started_at = start;
        emitted = 1;
        suppressed = 0;
      } in
      rw (take_state_of_IsOver start s over) (omega (arith, written-le-rest times opened h pos))

same_event_of : (e k : HttpServerEvent) → same_event e k ≡ true → e ≡ k
same_event_of client_error k h = ground arith
same_event_of _ k h = ground arith

-- A decision on one event leaves the budgets of the others alone.
pub take-other_event :
    (burst window_ms now : ℕ) (e k : HttpServerEvent) (states : LogStates)
    → e ≢ k
    → (LogLimiter.take burst window_ms now e states).0 k ≡ states k
unfolding LogLimiter.take
take-other_event burst window_ms now e k states h = ground (arith, same_event_of e k)

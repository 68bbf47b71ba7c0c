-- ===== src/Runtime/Signals.antt =====
-- src/runtime/requestCancellation.ts, the signals: the combination of several, a deadline, and the
-- signal of a request whose client may go away. What happens to signals, timers and responses arrives
-- as steps. Where the platform has `AbortSignal.any`, it stands in for the combination.
pub mod Laws
use news_api.Base.{
  ℕ, suc, Bool, true, false, ◌||◌, Option, none, some, List, [], ◌∷◌, ◌==◌, if◌then◌else◌, any,
  ◌&&◌,
}

-- Which of the signals of the program are aborted, by number.
abbrev pub Signals : Type 0
Signals = ℕ → Bool

abbrev pub abort : ℕ → Signals → Signals
abort i signals k = i == k || signals k

-- `signals.filter((signal) => signal !== undefined)`.
abbrev pub active_signals : List (Option ℕ) → List ℕ
active_signals [] = []
active_signals (none ∷ os) = active_signals os
active_signals (some i ∷ os) = i ∷ active_signals os

-- What a combination is: a signal of its own that nothing aborts, one of the given signals, or the
-- signal of a controller, which listens to the given signals until it is aborted.
pub data CombinedSignal : Type 0 where
  own_signal : CombinedSignal
  given_signal : ℕ → CombinedSignal
  controller_signal : (active : List ℕ) (aborted listening : Bool) → CombinedSignal

abbrev pub combine_active : Signals → List ℕ → CombinedSignal
combine_active signals [] = own_signal
combine_active signals (i ∷ []) = given_signal i
combine_active signals (i ∷ j ∷ is) =
    if any signals (i ∷ j ∷ is)
    then controller_signal (i ∷ j ∷ is) true false
    else controller_signal (i ∷ j ∷ is) false true

-- `combineAbortSignals(...signals)`.
unfoldable pub combine_abort_signals : Signals → List (Option ℕ) → CombinedSignal
combine_abort_signals signals os = combine_active signals (active_signals os)

-- `combined.aborted`.
abbrev pub is_aborted : Signals → CombinedSignal → Bool
is_aborted signals own_signal = false
is_aborted signals (given_signal i) = signals i
is_aborted signals (controller_signal active aborted listening) = aborted

-- The listener `abort`, when signal `i` is aborted.
unfoldable pub on_signal_abort : ℕ → CombinedSignal → CombinedSignal
on_signal_abort i (controller_signal active aborted listening) =
    if listening && any (λ k. i == k) active
    then controller_signal active true false
    else controller_signal active aborted listening
on_signal_abort i combined = combined

-- Signals are aborted one after another.
unfoldable pub abort_all : List ℕ → Signals × CombinedSignal → Signals × CombinedSignal
unfolding on_signal_abort
abort_all [] w = w
abort_all (i ∷ is) w = abort_all is (abort i w.0, on_signal_abort i w.1)

-- The signal of a request, with what the response and its listeners are at, and the count of the
-- cancellations by a client that went away.
pub record RequestSignal : Type 0 where
  pub writable_ended : Bool
  pub aborted : Bool
  pub on_close : Bool
  pub on_finish : Bool
  pub cancellations : ℕ

-- `createRequestAbortSignal(res)`, of a response that has not ended.
unfoldable pub create_request_abort_signal : RequestSignal
create_request_abort_signal = record {
  writable_ended = false;
  aborted = false;
  on_close = true;
  on_finish = true;
  cancellations = 0;
}

unfoldable pub abort_on_premature_close : RequestSignal → RequestSignal
abort_on_premature_close s =
    if s.writable_ended || s.aborted
    then s
    else record s { aborted = true; cancellations = suc s.cancellations }

-- The program ends the response, the response has been handed over, its connection is closed.
pub data ResponseEvent : Type 0 where
  ends finishes closes : ResponseEvent

abbrev pub response_step : ResponseEvent → RequestSignal → RequestSignal
response_step ends s = record s { writable_ended = true }
response_step finishes s =
    if s.on_finish then record s { on_close = false; on_finish = false } else s
response_step closes s =
    if s.on_close then abort_on_premature_close (record s { on_close = false }) else s

unfoldable pub run_response : List ResponseEvent → RequestSignal → RequestSignal
unfolding abort_on_premature_close
run_response [] s = s
run_response (e ∷ es) s = run_response es (response_step e s)

-- `createAbortDeadline(timeoutMs)`: a signal, and whether its timer is set.
pub record AbortDeadline : Type 0 where
  pub aborted : Bool
  pub timer : Bool

abbrev pub create_abort_deadline : AbortDeadline
create_abort_deadline = record { aborted = false; timer = true }

-- The timer fires, which it does not once it is cleared, and `cancel()`.
unfoldable pub fire_deadline : AbortDeadline → AbortDeadline
fire_deadline d = if d.timer then record { aborted = true; timer = false } else d

unfoldable pub cancel_deadline : AbortDeadline → AbortDeadline
cancel_deadline d = record d { timer = false }

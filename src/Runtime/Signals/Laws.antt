-- ===== src/Runtime/Signals/Laws.antt =====
-- When a combined signal and the signal of a request are aborted.
use mathlib.Core.Path.{subst}
use news_api.Runtime.Signals.{
  closes, ends, finishes, abort_on_premature_close, create_request_abort_signal,
}
use news_api.Runtime.Signals.{
  Signals, on_signal_abort, CombinedSignal, abort, combine_active, controller_signal, own_signal,
  given_signal, RequestSignal, ResponseEvent, abort_all, combine_abort_signals, is_aborted,
  run_response, active_signals, response_step,
}
use news_api.Base.{
  ℕ, ◌≡◌, refl, ◌∙◌, Bool, true, false, not, ◌&&◌, ◌||◌, Option, List, [], ◌∷◌, arith, ◌==◌,
  if◌then◌else◌, any,
}

-- A combination is right if it is aborted exactly when one of its signals is, and still listens if
-- none is.
pub data IsCombination (signals : Signals) : List ℕ → CombinedSignal → Type 0 where
  of_none : IsCombination signals [] own_signal
  of_one : (i : ℕ) → IsCombination signals (i ∷ []) (given_signal i)
  of_many :
      (active : List ℕ)
      → IsCombination signals active
          (controller_signal active (any signals active) (not (any signals active)))

combine_active-IsCombination :
    (signals : Signals) (active : List ℕ)
    → IsCombination signals active (combine_active signals active)
combine_active-IsCombination signals [] = of_none
combine_active-IsCombination signals (i ∷ []) = of_one i
combine_active-IsCombination signals (i ∷ j ∷ is) =
    subst (λ c. IsCombination signals (i ∷ j ∷ is) c) (many (any signals (i ∷ j ∷ is)))
      (of_many (i ∷ j ∷ is))
  where
    many :
        (b : Bool)
        → controller_signal (i ∷ j ∷ is) b (not b) ≡ (
            if b
            then controller_signal (i ∷ j ∷ is) true false
            else controller_signal (i ∷ j ∷ is) false true)
    many true = refl
    many false = refl

any-abort :
    (i : ℕ) (signals : Signals) (active : List ℕ)
    → any (abort i signals) active ≡ (any (λ k. i == k) active || any signals active)
any-abort i signals [] = refl
any-abort i signals (k ∷ ks) = ground (arith, any-abort i signals ks)

on_signal_abort-IsCombination :
    (i : ℕ) (signals : Signals) (active : List ℕ) (c : CombinedSignal)
    → IsCombination signals active c
    → IsCombination (abort i signals) active (on_signal_abort i c)
unfolding on_signal_abort
on_signal_abort-IsCombination i signals _ _ of_none = of_none
on_signal_abort-IsCombination i signals _ _ (of_one k) = of_one k
on_signal_abort-IsCombination i signals _ _ (of_many active) =
    subst (λ c. IsCombination (abort i signals) active c)
      (step (any (λ k. i == k) active) (any signals active) (any-abort i signals active))
      (of_many active)
  where
    step :
        (hit aborted : Bool)
        → any (abort i signals) active ≡ (hit || aborted)
        → controller_signal active
            (any (abort i signals) active)
            (not (any (abort i signals) active))
          ≡ (if not aborted && hit
              then controller_signal active true false
              else controller_signal active aborted (not aborted))
    step true true h = rw h
    step true false h = rw h
    step false true h = rw h
    step false false h = rw h

abort_all-IsCombination :
    (is : List ℕ) (active : List ℕ) (w : Signals × CombinedSignal)
    → IsCombination w.0 active w.1
    → IsCombination (abort_all is w).0 active (abort_all is w).1
unfolding abort_all
abort_all-IsCombination [] active w h = h
abort_all-IsCombination (i ∷ is) active w h =
    abort_all-IsCombination is active (abort i w.0, on_signal_abort i w.1)
      (on_signal_abort-IsCombination i w.0 active w.1 h)

aborted_of :
    (signals : Signals) (active : List ℕ) (c : CombinedSignal)
    → IsCombination signals active c
    → is_aborted signals c ≡ any signals active
aborted_of signals _ _ of_none = refl
aborted_of signals _ _ (of_one i) = ground arith
aborted_of signals _ _ (of_many active) = refl

-- However many signals are combined, and whichever are aborted before and after and in whatever
-- order, the combination is aborted exactly when one of the signals that were given is.
pub combine_abort_signals-abort_all :
    (signals : Signals) (given : List (Option ℕ)) (is : List ℕ)
    → is_aborted
        (abort_all is (signals, combine_abort_signals signals given)).0
        (abort_all is (signals, combine_abort_signals signals given)).1
      ≡ any (abort_all is (signals, combine_abort_signals signals given)).0 (active_signals given)
unfolding combine_abort_signals
combine_abort_signals-abort_all signals given is = aborted_of _ (active_signals given) _ (
    abort_all-IsCombination is (active_signals given) _
      (combine_active-IsCombination signals (active_signals given)))

-- Whether the events of a response begin with its connection's close, before the program ends it or
-- it has been handed over.
abbrev pub closes_early : List ResponseEvent → Bool
closes_early (closes ∷ es) = true
closes_early _ = false

-- A request signal that no event changes any more: the listener is gone, or does nothing.
abbrev is_over : RequestSignal → Bool
is_over s = not s.on_close || s.writable_ended

step_of_over :
    (e : ResponseEvent) (s : RequestSignal)
    → is_over s ≡ true
    → (is_over (response_step e s) ≡ true)
      × ((response_step e s).aborted ≡ s.aborted)
      × ((response_step e s).cancellations ≡ s.cancellations)
unfolding abort_on_premature_close
step_of_over ends s o = (ground arith, refl, refl)
step_of_over finishes s o = (ground arith, ground arith, ground arith)
step_of_over closes s o = (ground arith, ground arith, ground arith)

over_stays :
    (es : List ResponseEvent) (s : RequestSignal)
    → is_over s ≡ true
    → ((run_response es s).aborted ≡ s.aborted)
      × ((run_response es s).cancellations ≡ s.cancellations)
unfolding run_response
over_stays [] s o = (refl, refl)
over_stays (e ∷ es) s o =
    let (still, a, c) = step_of_over e s o in
    let (a', c') = over_stays es (response_step e s) still in (a' ∙ a, c' ∙ c)

-- Whatever happens to a response and how often, the signal of its request is aborted exactly if its
-- connection is closed before the program ends the response and before it has been handed over, and a
-- cancellation is counted once then and never otherwise.
pub run_response-closes_early :
    (es : List ResponseEvent)
    → ((run_response es create_request_abort_signal).aborted ≡ closes_early es)
      × ((run_response es create_request_abort_signal).cancellations
          ≡ (if closes_early es then 1 else 0))
unfolding run_response create_request_abort_signal abort_on_premature_close
run_response-closes_early [] = (refl, refl)
run_response-closes_early (closes ∷ es) =
    over_stays es (response_step closes create_request_abort_signal) refl
run_response-closes_early (ends ∷ es) =
    over_stays es (response_step ends create_request_abort_signal) refl
run_response-closes_early (finishes ∷ es) =
    over_stays es (response_step finishes create_request_abort_signal) refl

-- ===== src/Runtime/Tests.antt =====
-- Shutdowns and log budgets at concrete events.
use news_api.Runtime.Signals.Laws.{
  closes_early, combine_abort_signals-abort_all, run_response-closes_early,
}
use news_api.Runtime.Signals.{
  is_aborted, run_response, abort_all, closes, combine_abort_signals, ends,
  create_request_abort_signal, active_signals,
}
use news_api.Runtime.LogLimiter.Laws.{held_back, run, reported, pending, run-conserves}
use news_api.Runtime.Shutdown.{
  ShutdownState, handle_signal, initial_shutdown, finish, force_exit, settle_cleanup, start_cleanup,
  begin_draining,
}
use news_api.Runtime.Shutdown.Laws.{
  Reach, here, next, signal, closed, cleaned_up, exit_once, exit_by_timer,
}
use news_api.Base.{
  ℕ, ◌+◌, ◌≡◌, refl, true, false, ◌||◌, none, List, [], ◌∷◌, if◌then◌else◌, length, Option, some,
  any,
}

-- A signal, the server's callback, and the end of the cleanup.
abbrev graceful_end : ShutdownState
graceful_end = settle_cleanup false (finish false (handle_signal false initial_shutdown))

graceful-Reach : Reach initial_shutdown graceful_end
unfolding handle_signal finish settle_cleanup start_cleanup begin_draining
graceful-Reach =
    next (next (next here (signal false)) (closed false refl)) (cleaned_up false refl refl)

abbrev signalled : ShutdownState
signalled = handle_signal false initial_shutdown

signalled-Reach : Reach initial_shutdown signalled
signalled-Reach = next here (signal false)

exit_once_example :
    length graceful_end.exits
    ≡ (if graceful_end.forced || graceful_end.cleanup_completed then 1 else 0)
exit_once_example = exit_once graceful-Reach

exit_by_timer_example :
    (signalled.timer_pending ≡ true)
    × ((force_exit (record signalled { timer_pending = false })).exits ≡ 1 ∷ [])
unfolding handle_signal
exit_by_timer_example = exit_by_timer signalled-Reach refl refl

-- Two lines in a window of 60 seconds with a budget of one, then one in the next window.
abbrev line_times : List ℕ
line_times = 1_000 ∷ 2_000 ∷ 70_000 ∷ []

run-conserves_example :
    0 + held_back (run 1 60_000 line_times none).1
    ≡ reported (run 1 60_000 line_times none).1 + pending (run 1 60_000 line_times none).0
run-conserves_example = run-conserves 1 60_000 line_times none

-- Two signals, of which the second is aborted later.
abbrev two_signals : List (Option ℕ)
two_signals = some 1 ∷ none ∷ some 2 ∷ []

combine_abort_signals-abort_all_example :
    is_aborted
      (abort_all (2 ∷ []) ((λ k. false), combine_abort_signals (λ k. false) two_signals)).0
      (abort_all (2 ∷ []) ((λ k. false), combine_abort_signals (λ k. false) two_signals)).1
    ≡ any
        (abort_all (2 ∷ []) ((λ k. false), combine_abort_signals (λ k. false) two_signals)).0
        (active_signals two_signals)
combine_abort_signals-abort_all_example =
    combine_abort_signals-abort_all (λ k. false) two_signals (2 ∷ [])

-- A connection that is closed before the response has ended.
run_response-closes_early_example :
    ((run_response (closes ∷ ends ∷ []) create_request_abort_signal).aborted
      ≡ closes_early (closes ∷ ends ∷ []))
    × ((run_response (closes ∷ ends ∷ []) create_request_abort_signal).cancellations
        ≡ (if closes_early (closes ∷ ends ∷ []) then 1 else 0))
run_response-closes_early_example = run_response-closes_early (closes ∷ ends ∷ [])

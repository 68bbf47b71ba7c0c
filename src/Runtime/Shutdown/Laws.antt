-- ===== src/Runtime/Shutdown/Laws.antt =====
-- What holds of a shutdown, whatever the order of its signals, callbacks and timers.
use news_api.Runtime.Shutdown.{
  ShutdownState, finish, force_exit, handle_signal, initial_shutdown, settle_cleanup,
}
use news_api.Base.{
  if◌then◌else◌, ℕ, ◌≡◌, Bool, true, false, ◌||◌, Option, some, List, [], ◌∷◌, arith, is_some,
  length, sym, ◌∙◌,
}

-- The events of the process: a signal; the server's callback, once `close` has been called; the
-- timer, while it is pending; and the end of the cleanup, once it has started.
pub data Step (s : ShutdownState) : ShutdownState → Type 0 where
  signal : (close_throws : Bool) → Step s (handle_signal close_throws s)
  closed : (failed : Bool) → s.closing ≡ true → Step s (finish failed s)
  timed_out : s.timer_pending ≡ true → Step s (force_exit (record s { timer_pending = false }))
  cleaned_up :
      (failed : Bool)
      → s.cleanup_started ≡ true
      → s.cleanup_completed ≡ false
      → Step s (settle_cleanup failed s)

pub data Reach (s : ShutdownState) : ShutdownState → Type 0 where
  here : Reach s s
  next : {t u : ShutdownState} → Reach s t → Step t u → Reach s u

-- The calls of the exit function, by the state.
abbrev pub expected_exits : Bool → Bool → Option ℕ → List ℕ
expected_exits true completed code = 1 ∷ []
expected_exits false true (some code) = code ∷ []
expected_exits false _ _ = []

pub record IsOrderly (s : ShutdownState) : Type 0 where
  pub exits : s.exits ≡ expected_exits s.forced s.cleanup_completed s.exit_code
  pub watched : s.started ≡ true → (s.timer_pending || s.forced || s.cleanup_completed) ≡ true
  pub begun : s.started ≡ false → (s.closing || s.finalized || s.timer_pending || s.forced) ≡ false
  pub final : (s.cleanup_started || s.forced) ≡ s.finalized
  pub completed : s.cleanup_completed ≡ true → s.cleanup_started ≡ true
  pub coded : s.cleanup_started ≡ true → (is_some s.exit_code || s.forced) ≡ true
  pub drains : s.draining ≡ s.started
  pub idle : s.started ≡ false → s.cleanup_started ≡ false

initial-IsOrderly : IsOrderly initial_shutdown
initial-IsOrderly = ground arith

handle_signal-IsOrderly :
    (throws : Bool) (s : ShutdownState) → IsOrderly s → IsOrderly (handle_signal throws s)
unfolding handle_signal
handle_signal-IsOrderly throws s h = ground arith

finish-IsOrderly :
    (failed : Bool) (s : ShutdownState)
    → s.closing ≡ true
    → IsOrderly s
    → IsOrderly (finish failed s)
unfolding finish
finish-IsOrderly failed s c h = ground arith

force_exit-IsOrderly :
    (s : ShutdownState)
    → s.timer_pending ≡ true
    → IsOrderly s
    → IsOrderly (force_exit (record s { timer_pending = false }))
unfolding force_exit
force_exit-IsOrderly s t h = ground arith

settle_cleanup-IsOrderly :
    (failed : Bool) (s : ShutdownState)
    → s.cleanup_started ≡ true
    → s.cleanup_completed ≡ false
    → IsOrderly s
    → IsOrderly (settle_cleanup failed s)
unfolding settle_cleanup
settle_cleanup-IsOrderly failed s c d h = ground arith

Step-IsOrderly : {s t : ShutdownState} → Step s t → IsOrderly s → IsOrderly t
Step-IsOrderly (signal throws) h = handle_signal-IsOrderly throws _ h
Step-IsOrderly (closed failed c) h = finish-IsOrderly failed _ c h
Step-IsOrderly (timed_out t) h = force_exit-IsOrderly _ t h
Step-IsOrderly (cleaned_up failed c d) h = settle_cleanup-IsOrderly failed _ c d h

Reach-IsOrderly : {s t : ShutdownState} → IsOrderly s → Reach s t → IsOrderly t
Reach-IsOrderly h here = h
Reach-IsOrderly h (next r step) = Step-IsOrderly step (Reach-IsOrderly h r)

length-expected_exits :
    (forced completed : Bool) (code : Option ℕ) (started : Bool)
    → (started ≡ true → (is_some code || forced) ≡ true)
    → (completed ≡ true → started ≡ true)
    → length (expected_exits forced completed code) ≡ (if forced || completed then 1 else 0)
length-expected_exits forced completed code started coded done = ground arith

-- In whatever order signals, the server's callback, the timer and the cleanup come, the process
-- exits at most once: exactly once if the timer has forced it or the cleanup has ended, and not
-- before.
pub exit_once :
    {s : ShutdownState}
    → Reach initial_shutdown s
    → length s.exits ≡ (if s.forced || s.cleanup_completed then 1 else 0)
exit_once {s} r =
    let h = Reach-IsOrderly initial-IsOrderly r in
    rw h.exits (
      length-expected_exits s.forced s.cleanup_completed s.exit_code s.cleanup_started h.coded
        h.completed)

-- A shutdown cannot hang: after a signal, and as long as the process has not exited, the timer is
-- pending, and when it fires the process exits with code 1.
pub exit_by_timer :
    {s : ShutdownState}
    → Reach initial_shutdown s
    → s.started ≡ true
    → s.exits ≡ []
    → (s.timer_pending ≡ true) × ((force_exit (record s { timer_pending = false })).exits ≡ 1 ∷ [])
unfolding force_exit
exit_by_timer {s} r began silent =
    let h = Reach-IsOrderly initial-IsOrderly r in
    let live =
      not-ended s.forced s.cleanup_completed s.exit_code s.cleanup_started h.coded h.completed
        (sym h.exits ∙ silent) in
    (ground (arith, h.watched began), ground arith)
  where
    not-ended :
        (forced completed : Bool) (code : Option ℕ) (started : Bool)
        → (started ≡ true → (is_some code || forced) ≡ true)
        → (completed ≡ true → started ≡ true)
        → expected_exits forced completed code ≡ []
        → (forced ≡ false) × (completed ≡ false)
    not-ended forced completed code started coded done e = ground arith

-- Exit code 0 is that of a server that closed in time: not after the timer has fired, and with the
-- cleanup ended.
pub exit_zero_is_graceful :
    {s : ShutdownState}
    → Reach initial_shutdown s
    → s.exits ≡ 0 ∷ []
    → (s.forced ≡ false) × (s.cleanup_completed ≡ true) × (s.exit_code ≡ some 0)
exit_zero_is_graceful {s} r e =
    let h = Reach-IsOrderly initial-IsOrderly r in
    graceful s.forced s.cleanup_completed s.exit_code (sym h.exits ∙ e)
  where
    graceful :
        (forced completed : Bool) (code : Option ℕ)
        → expected_exits forced completed code ≡ 0 ∷ []
        → (forced ≡ false) × (completed ≡ true) × (code ≡ some 0)
    graceful forced completed code e = ground arith

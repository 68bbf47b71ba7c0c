-- ===== src/Runtime/Shutdown.antt =====
-- src/runtime/shutdown.ts with the process state of src/runtime/lifecycle.ts: the handler's
-- variables are a state, and each callback that the handler registers is a function on it. The
-- cleanup is a promise that settles later, at most once.
pub mod Laws
use news_api.Base.{ℕ, Bool, true, false, ◌||◌, Option, none, some, List, [], ◌∷◌, if◌then◌else◌}

-- The optional callbacks, and the calls of the server, in the order of the calls.
pub data Callback : Type 0 where
  on_start on_repeat on_forced on_close_error on_closed on_cleanup_error : Callback
  close_all_connections run_cleanup : Callback

pub record ShutdownState : Type 0 where
  pub started : Bool
  pub finalized : Bool
  pub cleanup_started : Bool
  pub cleanup_completed : Bool
  pub forced : Bool
  pub timer_pending : Bool
  pub closing : Bool
  pub exit_code : Option ℕ
  pub draining : Bool
  pub aborted : Bool
  pub exits : List ℕ
  pub log : List Callback

abbrev pub initial_shutdown : ShutdownState
initial_shutdown = record {
  started = false;
  finalized = false;
  cleanup_started = false;
  cleanup_completed = false;
  forced = false;
  timer_pending = false;
  closing = false;
  exit_code = none;
  draining = false;
  aborted = false;
  exits = [];
  log = [];
}

abbrev pub note : Callback → ShutdownState → ShutdownState
note c s = record s { log = c ∷ s.log }

-- `exit(code)`, as the option that does not end the process.
abbrev pub exit : ℕ → ShutdownState → ShutdownState
exit code s = record s { exits = code ∷ s.exits }

-- `beginDraining()` and `abortShutdown()` of lifecycle.ts; their results are not used here.
unfoldable pub begin_draining : ShutdownState → ShutdownState × Bool
begin_draining s = if s.draining then (s, false) else (record s { draining = true }, true)

unfoldable pub abort_shutdown : ShutdownState → ShutdownState × Bool
abort_shutdown s = if s.aborted then (s, false) else (record s { aborted = true }, true)

-- `startCleanup(exitCode)`, up to the first turn of its promise.
unfoldable pub start_cleanup : Option ℕ → ShutdownState → ShutdownState
start_cleanup code s =
    if s.cleanup_started
    then s
    else note run_cleanup (record s { cleanup_started = true; exit_code = code })

-- The end of the promise: `catch`, if the cleanup failed, and `finally`.
unfoldable pub settle_cleanup : Bool → ShutdownState → ShutdownState
settle_cleanup failed s =
    let done = record (if failed then note on_cleanup_error s else s) {
      cleanup_completed = true;
      timer_pending = false;
    } in
    elim s.exit_code [ none ↦ done | some code ↦ if s.forced then done else exit code done ]

-- `forceExit`, when the timer fires.
unfoldable pub force_exit : ShutdownState → ShutdownState
unfolding start_cleanup abort_shutdown
force_exit s =
    if s.forced || s.cleanup_completed
    then s
    else exit 1 (
        start_cleanup none (
          note on_forced (
            note close_all_connections
              (abort_shutdown (record s { forced = true; finalized = true })).0)))

-- `finish(error)`, with whether there is an error.
unfoldable pub finish : Bool → ShutdownState → ShutdownState
unfolding start_cleanup
finish failed s =
    if s.finalized
    then s
    else if failed
    then start_cleanup (some 1) (note on_close_error (record s { finalized = true }))
    else start_cleanup (some 0) (note on_closed (record s { finalized = true }))

-- The handler of a signal; `close_throws` says that `server.close` throws at once.
unfoldable pub handle_signal : Bool → ShutdownState → ShutdownState
unfolding finish begin_draining
handle_signal close_throws s =
    if s.started
    then note on_repeat s
    else (let armed = record (note on_start (begin_draining (record s { started = true })).0) {
      timer_pending = true;
    } in
        if close_throws then finish true armed else record armed { closing = true })

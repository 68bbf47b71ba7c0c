-- ===== src/Redis/CommandRunner.antt =====
-- src/redis/commandRunner.ts: a command waits until the connection is ready, ends or has taken too
-- long. The events of the client and the timer arrive as steps.
pub mod Laws
use news_api.Errors.{Thrown, Result, error, plain, ok, throw}
use news_api.Base.{ℕ, String, Bool, true, false, List, [], ◌∷◌, Option, none, some, if◌then◌else◌}

-- `client.status`: "ready", "end", or any other.
pub data ClientStatus : Type 0 where
  ready ended other_status : ClientStatus

-- What settles a wait: the connection is ready, or it is not, with the message of the error.
pub data WaitOutcome : Type 0 where
  is_ready : WaitOutcome
  not_ready : String → WaitOutcome

-- A wait: its variables, whether the two listeners and the timer are set, and the calls of `resolve`
-- and `reject`, the newest first.
pub record Wait : Type 0 where
  pub settled : Bool
  pub on_ready : Bool
  pub on_end : Bool
  pub timer : Bool
  pub calls : List WaitOutcome

unfoldable pub finish : WaitOutcome → Wait → Wait
finish outcome w = if w.settled then w else record w {
  settled = true;
  timer = false;
  on_ready = false;
  on_end = false;
  calls = outcome ∷ w.calls;
}

abbrev pub waiting : Wait
waiting = record { settled = false; on_ready = true; on_end = true; timer = true; calls = [] }

abbrev pub settled_with : WaitOutcome → Wait
settled_with outcome = record {
  settled = true;
  on_ready = false;
  on_end = false;
  timer = false;
  calls = outcome ∷ [];
}

abbrev pub after_listening : ClientStatus → Wait
after_listening ready = finish is_ready waiting
after_listening _ = waiting

-- `waitForReady()`: the status is read first, and again once the listeners are set.
unfoldable pub wait_for_ready : ClientStatus → ClientStatus → Wait
unfolding finish
wait_for_ready ready again = settled_with is_ready
wait_for_ready ended again = settled_with (not_ready "Redis connection is closed")
wait_for_ready other_status again = after_listening again

pub data WaitEvent : Type 0 where
  ready_event end_event timeout_event : WaitEvent

-- A listener that is off and a timer that is cleared do nothing.
abbrev pub wait_step : WaitEvent → Wait → Wait
wait_step ready_event w = if w.on_ready then finish is_ready w else w
wait_step end_event w = if w.on_end then finish (not_ready "Redis connection closed") w else w
wait_step timeout_event w = if w.timer then finish (not_ready "Redis connection timed out") w else w

unfoldable pub run_wait : List WaitEvent → Wait → Wait
unfolding finish
run_wait [] w = w
run_wait (e ∷ es) w = run_wait es (wait_step e w)

abbrev pub connection_error : String → Thrown
connection_error message = error (record {
  cls = plain;
  name = "Error";
  message = message;
  code = none;
  status_code = none;
  retry_after = none;
  body_type = none;
})

-- The command: it is sent once the wait has resolved, and not at all if it has rejected; `none` while
-- the wait goes on. The count is that of the commands sent.
unfoldable pub run_command : {A : Type 0} → Wait → Result A → Option (Result A) × ℕ
run_command w reply = elim w.calls [
  | [] ↦ (none, 0)
  | is_ready ∷ _ ↦ (some reply, 1)
  | not_ready message ∷ _ ↦ (some (throw (connection_error message)), 0)
]

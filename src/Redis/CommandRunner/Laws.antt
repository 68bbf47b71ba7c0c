-- ===== src/Redis/CommandRunner/Laws.antt =====
-- How a wait ends.
use news_api.Redis.CommandRunner.{run_command, waiting}
use news_api.Errors.{Result, throw}
use news_api.Redis.CommandRunner.{
  ClientStatus, WaitEvent, WaitOutcome, run_wait, wait_for_ready, Wait, is_ready, not_ready, ready,
  settled_with, ended, ready_event, waiting, connection_error, end_event, other_status,
  timeout_event,
}
use news_api.Base.{ℕ, ◌≡◌, refl, ◌≢◌, Option, none, some, List, [], ◌∷◌}

-- The outcome that an event stands for.
abbrev pub outcome_of : WaitEvent → WaitOutcome
outcome_of ready_event = is_ready
outcome_of end_event = not_ready "Redis connection closed"
outcome_of timeout_event = not_ready "Redis connection timed out"

-- What the statuses and the events say of the wait, without its listeners: a status that is known
-- decides, else the first event, and else the wait goes on.
abbrev pub decided : ClientStatus → ClientStatus → List WaitEvent → Option WaitOutcome
decided ready again es = some is_ready
decided ended again es = some (not_ready "Redis connection is closed")
decided other_status ready es = some is_ready
decided other_status _ [] = none
decided other_status _ (e ∷ es) = some (outcome_of e)

abbrev pub wait_of : Option WaitOutcome → Wait
wait_of none = waiting
wait_of (some o) = settled_with o

settled_stays :
    (es : List WaitEvent) (o : WaitOutcome) → run_wait es (settled_with o) ≡ settled_with o
unfolding run_wait
settled_stays [] o = refl
settled_stays (ready_event ∷ es) o = settled_stays es o
settled_stays (end_event ∷ es) o = settled_stays es o
settled_stays (timeout_event ∷ es) o = settled_stays es o

waiting_run :
    (es : List WaitEvent) (s : ClientStatus)
    → s ≢ ready
    → run_wait es waiting ≡ wait_of (decided other_status s es)
unfolding run_wait
waiting_run es ready h = absurd (h refl)
waiting_run [] ended h = refl
waiting_run [] other_status h = refl
waiting_run (ready_event ∷ es) ended h = settled_stays es _
waiting_run (ready_event ∷ es) other_status h = settled_stays es _
waiting_run (end_event ∷ es) ended h = settled_stays es _
waiting_run (end_event ∷ es) other_status h = settled_stays es _
waiting_run (timeout_event ∷ es) ended h = settled_stays es _
waiting_run (timeout_event ∷ es) other_status h = settled_stays es _

-- Whatever happens to the connection and in whatever order, a wait settles at most once and stays so:
-- as ready or closed if the status says so when it starts, otherwise with the first of the
-- connection's being ready, its end and the timer, and it leaves no listener and no timer behind.
pub run_wait-decided :
    (first again : ClientStatus) (es : List WaitEvent)
    → run_wait es (wait_for_ready first again) ≡ wait_of (decided first again es)
unfolding wait_for_ready
run_wait-decided ready again es = settled_stays es _
run_wait-decided ended again es = settled_stays es _
run_wait-decided other_status ready es = settled_stays es _
run_wait-decided other_status ended es = waiting_run es ended (λ e. cc e)
run_wait-decided other_status other_status es = waiting_run es other_status (λ e. cc e)

-- The reply of the command, or the error of the wait.
abbrev pub answered : {A : Type 0} → Result A → Option WaitOutcome → Option (Result A) × ℕ
answered reply none = (none, 0)
answered reply (some is_ready) = (some reply, 1)
answered reply (some (not_ready message)) = (some (throw (connection_error message)), 0)

run_command_of :
    {A : Type 0} (reply : Result A) (o : Option WaitOutcome)
    → run_command (wait_of o) reply ≡ answered reply o
unfolding run_command
run_command_of reply none = refl
run_command_of reply (some is_ready) = refl
run_command_of reply (some (not_ready message)) = refl

-- A command is sent exactly once if its wait was decided by a ready connection, and never otherwise;
-- it fails with the error of the connection or of the timer if one of these came first.
pub run_command-decided :
    {A : Type 0} (first again : ClientStatus) (es : List WaitEvent) (reply : Result A)
    → run_command (run_wait es (wait_for_ready first again)) reply
      ≡ answered reply (decided first again es)
run_command-decided first again es reply =
    rw (run_wait-decided first again es) (run_command_of reply (decided first again es))

-- ===== src/Redis/Tests.antt =====
-- A wait that the timer ends before the connection is ready.
use news_api.Redis.CommandRunner.Laws.{answered}
use news_api.Redis.CommandRunner.Laws.{decided, run_command-decided}
use news_api.Base.{ℕ, ◌≡◌, [], ◌∷◌}
use news_api.Redis.CommandRunner.{
  run_command, run_wait, timeout_event, ready_event, wait_for_ready, other_status, ended,
}
use news_api.Errors.{ok, Result}

abbrev five : Result ℕ
five = ok 5

run_command-decided_example :
    run_command
      (run_wait (timeout_event ∷ ready_event ∷ []) (wait_for_ready other_status ended))
      five
    ≡ answered five (decided other_status ended (timeout_event ∷ ready_event ∷ []))
run_command-decided_example =
    run_command-decided other_status ended (timeout_event ∷ ready_event ∷ []) five

-- ===== src/Provider/Tests.antt =====
-- The circuit, the retries and the settlements at concrete requests.
use news_api.Provider.Search.Laws.{
  IsProviderError, late_cancel_defeats_probe, settle_error-IsProviderError, IsSuccess,
  settle-IsSuccess,
}
use news_api.Provider.Retry.Laws.{IsRetryRun, with_upstream_retries-IsRetryRun}
use news_api.Base.Int.{ℤ}
use news_api.Provider.Circuit.Laws.{fail_at, close_circuit-fail_at}
use news_api.Types.Article.{Json, obj, field, is_article_list, arr, get_field, nil, end}
use news_api.Provider.Retry.{Attempt, Run, with_upstream_retries}
use news_api.Provider.Search.{Signals, settle, normalize_articles, settle_error}
use news_api.Errors.{
  ErrorObject, Result, is_request_aborted_error, Thrown, axios_error, ok, throw, error,
  throw_if_aborted,
}
use news_api.Js.Text.{Text}
use news_api.Provider.Search.Reach.{here, next, admitted, settled, IsSound, Process, Reach-IsSound}
use news_api.Provider.Circuit.{
  closed, half_open, CircuitWorld, assert_circuit_allows_request, is_open, half_opened,
  record_canceled_probe, close_circuit, record_provider_failure,
}
use news_api.Base.{ℕ, zero, suc, ◌≡◌, refl, true, false, Option, none, some, [], ◌∷◌, arith, leb}

abbrev no_date : Text → Option ℤ
no_date s = none

-- The circuit opened at the time 0 by three failures.
abbrev open_world : CircuitWorld
open_world = record {
  circuit = record { failures = 3; opened_at = some 0; half_open_in_flight = false };
  events = [];
}

abbrev open_process : Process
open_process = record { world = open_world; outstanding = [] }

open_process-IsSound : IsSound open_process
open_process-IsSound = record { not_both = refl; has_probe = λ h. absurd (ground arith) }

abbrev probe_world : CircuitWorld
probe_world = record {
  circuit = record { failures = 3; opened_at = none; half_open_in_flight = true };
  events = half_opened ∷ [];
}

abbrev probing_process : Process
probing_process = record { world = probe_world; outstanding = half_open ∷ [] }

-- The provider answers 503.
abbrev unavailable : ErrorObject
unavailable = record {
  cls = axios_error (some (record { status = 503; headers = none }));
  name = "AxiosError";
  message = "Request failed with status code 503";
  code = none;
  status_code = none;
  retry_after = none;
  body_type = none;
}

abbrev no_signals : Signals
no_signals = record { deadline = false; request = false; process = false }

abbrev failed_process : Process
failed_process = record {
  world =
      (settle no_date 3 half_open 31_000 no_signals (throw (error unavailable)) probe_world).world;
  outstanding = [];
}

Reach-IsSound_example : IsSound failed_process
unfolding assert_circuit_allows_request
Reach-IsSound_example = Reach-IsSound no_date 3 30_000 open_process-IsSound (
    next (next here (admitted 30_000 probe_world half_open refl))
      (settled [] [] half_open 31_000 no_signals (throw (error unavailable)) refl))

abbrev first_unavailable : ℕ → Result ℕ
first_unavailable zero = throw (error unavailable)
first_unavailable (suc k) = ok 7

abbrev retry_world : ℕ → Attempt ℕ
retry_world k = record {
  aborted_before = false;
  result = first_unavailable k;
  aborted_after = false;
  random = 5;
  aborted_in_sleep = false;
}

with_upstream_retries-IsRetryRun_example :
    (r : Run ℕ) × (with_upstream_retries 1 100 retry_world ≡ some r)
    × IsRetryRun 1 100 retry_world r
with_upstream_retries-IsRetryRun_example =
    with_upstream_retries-IsRetryRun 1 100 retry_world (λ k. omega arith)

abbrev empty_body : Json
empty_body = obj (field "articles" (arr nil) end)

settle-IsSuccess_example :
    IsSuccess no_date 3 no_signals []
      (settle no_date 3 half_open 31_000 no_signals (ok empty_body) probe_world)
unfolding settle normalize_articles is_article_list throw_if_aborted get_field
settle-IsSuccess_example =
    settle-IsSuccess no_date 3 half_open 31_000 no_signals (ok empty_body) probe_world [] refl

settle_error-IsProviderError_example :
    (e : Thrown) × ((settle_error no_date 3 closed 5 no_signals
        (error unavailable)
        open_world).result
      ≡ throw e)
    × IsProviderError e
unfolding is_request_aborted_error
settle_error-IsProviderError_example =
    settle_error-IsProviderError no_date 3 closed 5 no_signals unavailable
      (some (record { status = 503; headers = none })) open_world refl refl (ground arith)

close_circuit-fail_at_example :
    is_open (fail_at 3 (1 ∷ 2 ∷ 3 ∷ []) (close_circuit open_world)).circuit ≡ leb 3 (3)
close_circuit-fail_at_example = close_circuit-fail_at 3 (1 ∷ 2 ∷ 3 ∷ []) open_world (omega arith)

late_cancel_defeats_probe_example :
    (w' : CircuitWorld) × (assert_circuit_allows_request 30_000
        (record_canceled_probe half_open 31_000 (close_circuit probe_world))
        61_000
      ≡ (w', ok half_open))
    × (is_open (record_canceled_probe half_open 31_000 (close_circuit probe_world)).circuit ≡ true)
    × (is_open (record_provider_failure 3 62_000 w').circuit ≡ false)
late_cancel_defeats_probe_example =
    late_cancel_defeats_probe 3 30_000 31_000 61_000 62_000 probe_world (omega arith) (omega arith)

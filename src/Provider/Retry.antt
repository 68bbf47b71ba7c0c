-- ===== src/Provider/Retry.antt =====
-- src/providers/retry.ts: transient failures of the provider are tried again. What the world does
-- during a round of the loop is an argument: the results of the calls, the state of the signal at
-- the points where it is read, and the draws of `Math.random`.
pub mod Laws
use news_api.Config.Numbers.{resolve_non_negative_integer_env, resolve_positive_integer_env}
use news_api.Js.Text.{Text}
use news_api.Errors.{
  ErrorClass, Thrown, request_aborted_error, axios_error, error, is_request_aborted_error, ok,
  throw, as_aborted, no_error, Result,
}
use news_api.Base.{
  ℕ, zero, suc, ◌+◌, ◌*◌, ◌/◌, ◌^◌, min, max, String, ◌⊎◌, inl, inr, Bool, false, not, ◌||◌, Option,
  none, some, List, [], ◌∷◌, reverse, leb, ◌==◌, str_eq, if◌then◌else◌, any,
}

-- `RETRYABLE_STATUS_CODES.has(status)`.
unfoldable pub is_retryable_status : ℕ → Bool
is_retryable_status s = s == 408 || s == 425 || s == 500 || s == 502 || s == 503 || s == 504

-- `RETRYABLE_ERROR_CODES`.
abbrev pub retryable_error_codes : List String
retryable_error_codes =
    "ECONNABORTED" ∷ "ECONNRESET" ∷ "EAI_AGAIN" ∷ "EHOSTUNREACH" ∷ "ENETUNREACH" ∷ "ETIMEDOUT"
    ∷ "ERR_NETWORK" ∷ []

-- `typeof error.code === "string" && RETRYABLE_ERROR_CODES.has(error.code)`.
unfoldable pub is_retryable_code : Option String → Bool
is_retryable_code none = false
is_retryable_code (some code) = any (str_eq code) retryable_error_codes

abbrev pub is_retryable_class : ErrorClass → Option String → Bool
is_retryable_class (axios_error (some response)) code = is_retryable_status response.status
is_retryable_class (axios_error none) code = is_retryable_code code
is_retryable_class _ code = false

-- `isRetryableUpstreamError(error)`.
unfoldable pub is_retryable_upstream_error : Thrown → Bool
is_retryable_upstream_error no_error = false
is_retryable_upstream_error (error e) = is_retryable_class e.cls e.code

abbrev pub max_retry_delay_ms : ℕ
max_retry_delay_ms = 2_000

unfoldable pub retry_attempts : Option Text → ℕ
retry_attempts raw = resolve_non_negative_integer_env raw 1 3

unfoldable pub retry_base_delay_ms : Option Text → ℕ
retry_base_delay_ms raw = resolve_positive_integer_env raw 100 2_000

-- The draws of `Math.random` are the multiples of 2 ^ -53 from 0 up to 1.
abbrev pub random_range : ℕ
random_range = 2 ^ 53

-- `Math.round(delay * (0.5 + random))`, in exact arithmetic: the draw is r / 2 ^ 53.
unfoldable pub jittered : ℕ → ℕ → ℕ
jittered delay r = (2 * (delay * (random_range / 2 + r)) + random_range) / (2 * random_range)

-- `retryDelayMs(attempt)`.
unfoldable pub retry_delay_ms : ℕ → ℕ → ℕ → ℕ
unfolding jittered
retry_delay_ms base attempt r = max 1 (jittered (min (base * 2 ^ attempt) max_retry_delay_ms) r)

-- What happens in one round: whether the signal is aborted before the call, after a failed one
-- and during the delay, the result of the call, and the draw.
pub record Attempt (A : Type 0) : Type 0 where
  pub aborted_before : Bool
  pub result : Result A
  pub aborted_after : Bool
  pub random : ℕ
  pub aborted_in_sleep : Bool

-- The result of the loop, with the calls of the operation made and the delays slept, in order.
pub record Run (A : Type 0) : Type 0 where
  pub result : Result A
  pub calls : ℕ
  pub delays : List ℕ

module _ {A : Type 0} (max_retries base : ℕ) (world : ℕ → Attempt A) where
  -- The `catch` block of a round: `inl` leaves the loop with an error, `inr` goes on after a
  -- delay.
  abbrev pub on_error : ℕ → Thrown → Thrown ⊎ ℕ
  on_error attempt e =
      if (world attempt).aborted_after || is_request_aborted_error e
      then inl (as_aborted e)
      else if leb max_retries attempt || not (is_retryable_upstream_error e)
      then inl e
      else inr (retry_delay_ms base attempt (world attempt).random)

  abbrev pub failed : ℕ → List ℕ → Thrown → Option (Run A)
  failed calls delays e = some (record { result = throw e; calls = calls; delays = delays })

  -- The rounds from `attempt` on; `delays` are those slept so far, the latest first.
  unfoldable pub retry_loop : ℕ → ℕ → List ℕ → Option (Run A)
  retry_loop zero attempt delays = none
  retry_loop (suc f) attempt delays =
      if (world attempt).aborted_before
      then failed attempt (reverse delays) request_aborted_error
      else elim (world attempt).result [
        | ok a ↦ some (record { result = ok a; calls = attempt + 1; delays = reverse delays })
        | throw e ↦ elim (on_error attempt e) [
          | inl e' ↦ failed (attempt + 1) (reverse delays) e'
          | inr delay ↦
              if (world attempt).aborted_in_sleep
              then failed (attempt + 1) (reverse (delay ∷ delays)) request_aborted_error
              else retry_loop f (attempt + 1) (delay ∷ delays)
        ]
      ]

  -- `withUpstreamRetries(operation, signal)`: each round but the last one raises `attempt` below
  -- `max_retries`, so one round more than that is fuel enough.
  unfoldable pub with_upstream_retries : Option (Run A)
  with_upstream_retries = retry_loop (suc max_retries) 0 []

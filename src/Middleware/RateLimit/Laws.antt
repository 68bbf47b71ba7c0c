-- ===== src/Middleware/RateLimit/Laws.antt =====
-- What a limited request is answered, and when the readiness of the store can hold.
use news_api.Errors.{Result, http_error_of, is_request_aborted_error, Thrown}
use news_api.Js.Text.{Text, text_is, codes}
use news_api.Middleware.RateLimit.{
  Environment, Limited, is_rate_limit_store_ready, LimiterModule, Result, Text,
  create_api_rate_limiter, over_limit, Passed, api_rate_limiter, disconnect_rate_limit_store,
  rate_limit_exceeded, check_rate_limit_store_readiness, limiter_next, passes, fails, is_exceeded,
  no_client, resolve_store, store_unavailable, is_pong, request_source, trimmed_url,
}
use news_api.Middleware.ErrorHandler.{answered, error_handler, body_of, is_http_error}
use news_api.Base.{
  if◌then◌else◌, Bool, String, not, false, ◌≤◌, none, ℕ, ◌<◌, ◌&&◌, ◌≡◌, Bool-cases, is_some, some,
  true, inl, le→leb, refl, arith, inr, lt→ltb,
}

abbrev pub too_many : String
too_many = "Too many requests, please try again later."

-- A limiter is configured with an error's status.
abbrev pub HasErrorStatus : Limited → Type 0
HasErrorStatus (over_limit status) = (400 ≤ status) × (status < 600)
HasErrorStatus _ = Unit

module _ (uses_structured_errors : Bool) (request_id : Text) where
  -- What the middleware and the error handler make of what the limiter does: the error that goes to
  -- `next`, if one does, with the answer to it, and whether an error of the store is counted.
  pub data IsDecided : Limited → Passed → Type 0 where
    let_through : IsDecided passes (record { err = none; counted = none })
    refused :
        (status : ℕ) (err : Thrown)
        → error_handler uses_structured_errors request_id false err
          ≡ answered status none
              (body_of uses_structured_errors request_id (some "rate_limit_exceeded") too_many)
        → IsDecided (over_limit status) (record { err = some err; counted = none })
    relayed :
        (err : Thrown)
        → is_exceeded err ≡ true
        → IsDecided (fails err) (record { err = some err; counted = none })
    unavailable :
        (cause err : Thrown)
        → is_exceeded cause ≡ false
        → error_handler uses_structured_errors request_id false err
          ≡ answered 503 none (
              body_of uses_structured_errors request_id
                (some "rate_limit_store_unavailable")
                "Rate limit store unavailable")
        → IsDecided (fails cause) (record { err = some err; counted = some request_source })

  exceeded_answer :
      (status : ℕ)
      → 400 ≤ status
      → status < 600
      → error_handler uses_structured_errors request_id false (rate_limit_exceeded status)
        ≡ answered status none
            (body_of uses_structured_errors request_id (some "rate_limit_exceeded") too_many)
  unfolding error_handler rate_limit_exceeded http_error_of is_http_error is_request_aborted_error
  exceeded_answer status lo hi = rw (le→leb 400 status lo, lt→ltb status 600 hi)

  exceeded_self : (status : ℕ) → is_exceeded (rate_limit_exceeded status) ≡ true
  unfolding rate_limit_exceeded http_error_of
  exceeded_self status = refl

  unavailable_answer :
      error_handler uses_structured_errors request_id false store_unavailable
      ≡ answered 503 none (
          body_of uses_structured_errors request_id
            (some "rate_limit_store_unavailable")
            "Rate limit store unavailable")
  unfolding error_handler http_error_of is_http_error is_request_aborted_error
  unavailable_answer = refl

  -- A request that is not skipped goes on only if the limiter lets it pass. One over its limit is
  -- answered the limiter's status and the code "rate_limit_exceeded"; one that the limiter fails for,
  -- with any other error, is counted and answered 503 and the code "rate_limit_store_unavailable",
  -- and nothing of the store's error. The limiter's status is one of an error.
  pub api_rate_limiter-IsDecided :
      (limited : Limited)
      → HasErrorStatus limited
      → IsDecided limited (api_rate_limiter false limited)
  unfolding api_rate_limiter limiter_next
  api_rate_limiter-IsDecided passes h = let_through
  api_rate_limiter-IsDecided (over_limit status) h =
      rw (exceeded_self status)
        (refused status (rate_limit_exceeded status) (exceeded_answer status h.0 h.1))
  api_rate_limiter-IsDecided (fails err) h = elim (Bool-cases (is_exceeded err)) [
    | inl same ↦ rw same (relayed err same)
    | inr other ↦ rw other (unavailable err store_unavailable other unavailable_answer)
  ]

-- The variables of the module after the limiter of the program has been made, and after the store
-- has been disconnected as well.
abbrev pub started : Environment → LimiterModule
started env = (create_api_rate_limiter env false none none no_client).1

abbrev pub disconnected : Environment → Result (Unit {0}) → LimiterModule
disconnected env quit = (disconnect_rate_limit_store (started env) quit).0

-- Whether limits are enforced on Redis.
abbrev pub needs_store : Environment → Bool
needs_store env =
    not (text_is env.disable_rate_limit (codes "1")) && is_some (trimmed_url env.redis_url)

-- The program never reports a store as missing that it has configured: once the limiter is made the
-- store is ready exactly if none is needed or the ping is answered, and once it is disconnected,
-- however that ends, it is ready exactly if none is needed.
pub is_rate_limit_store_ready_iff :
    (env : Environment) (ping : Result Text) (quit : Result (Unit {0}))
    → (is_rate_limit_store_ready env (started env) ping
        ≡ (if needs_store env then is_pong ping else true))
      × (is_rate_limit_store_ready env (disconnected env quit) ping ≡ not (needs_store env))
unfolding is_rate_limit_store_ready create_api_rate_limiter disconnect_rate_limit_store
    check_rate_limit_store_readiness resolve_store
is_rate_limit_store_ready_iff env ping quit =
    elim (Bool-cases (is_some (trimmed_url env.redis_url))) [
      | inl url ↦ rw url (ground arith, ground arith)
      | inr none_ ↦ rw none_ (ground arith, ground arith)
    ]

-- ===== src/Middleware/RateLimit.antt =====
-- src/middleware/rateLimit.ts: who is limited, what a request that is over its limit or whose count is
-- unknown gets, and the readiness of the store. express-rate-limit and rate-limit-redis are packages:
-- what a limiter does with a request is an argument. Log lines are left out.
pub mod Laws
use news_api.Config.Numbers.{resolve_positive_integer_env}
use news_api.Errors.{
  ErrorClass, Result, Thrown, http_error, error, no_error, http_error_of, ok, throw,
}
use news_api.Js.Text.{Text, codes, text_is, text_eq, trim}
use news_api.Base.{
  ℕ, Bool, true, false, not, ◌&&◌, ◌||◌, Option, none, some, ◌==◌, str_is, if◌then◌else◌, length,
  is_some, get_or, [],
}

-- The environment variables that the module reads.
pub record Environment : Type 0 where
  pub node_env : Option Text
  pub vitest : Option Text
  pub disable_rate_limit : Option Text
  pub redis_url : Option Text
  pub rate_limit_window_ms : Option Text
  pub rate_limit_max : Option Text

-- `process.env.REDIS_URL?.trim()`, if it is not empty.
abbrev pub trimmed_url : Option Text → Option Text
trimmed_url none = none
trimmed_url (some url) = if length (trim url) == 0 then none else some (trim url)

abbrev pub is_unlimited_path : Text → Bool
is_unlimited_path path =
    text_eq path (codes "/health")
    || text_eq path (codes "/ready")
    || text_eq path (codes "/openapi.yaml")
    || text_eq path (codes "/metrics")

-- `skipRateLimit(req)`, from `req.path`.
unfoldable pub skip_rate_limit : Environment → Option Text → Bool
unfolding text_eq
skip_rate_limit env path =
    if text_is env.node_env (codes "test")
      || text_is env.vitest (codes "true")
      || text_is env.disable_rate_limit (codes "1")
    then true
    else is_unlimited_path (get_or path [])

-- The labels of `rateLimitStoreErrorsTotal`.
pub data StoreErrorSource : Type 0 where
  lifecycle connection request_source : StoreErrorSource

-- What the limiter of the package does with a request: it calls its `next` with nothing or with an
-- error, or it calls the handler that it was given, with the configured status.
pub data Limited : Type 0 where
  passes : Limited
  over_limit : (status_code : ℕ) → Limited
  fails : Thrown → Limited

-- What reaches `next` of the middleware, and the errors of the store that are counted.
pub record Passed : Type 0 where
  pub err : Option Thrown
  pub counted : Option StoreErrorSource

-- The handler's error.
unfoldable pub rate_limit_exceeded : ℕ → Thrown
rate_limit_exceeded status_code =
    http_error_of status_code "Too many requests, please try again later." "rate_limit_exceeded"
      none

abbrev pub store_unavailable : Thrown
store_unavailable =
    http_error_of 503 "Rate limit store unavailable" "rate_limit_store_unavailable" none

abbrev pub is_http_class : ErrorClass → Bool
is_http_class http_error = true
is_http_class _ = false

-- `err instanceof HttpError && err.code === "rate_limit_exceeded"`.
abbrev pub is_exceeded : Thrown → Bool
is_exceeded no_error = false
is_exceeded (error e) = is_http_class e.cls && str_is e.code "rate_limit_exceeded"

-- The callback that the middleware gives the limiter.
unfoldable pub limiter_next : Option Thrown → Passed
limiter_next none = record { err = none; counted = none }
limiter_next (some err) =
    if is_exceeded err
    then record { err = some err; counted = none }
    else record { err = some store_unavailable; counted = some request_source }

-- The middleware of `createApiRateLimiter`; a request that is skipped passes.
unfoldable pub api_rate_limiter : Bool → Limited → Passed
unfolding limiter_next rate_limit_exceeded
api_rate_limiter true limited = limiter_next none
api_rate_limiter false passes = limiter_next none
api_rate_limiter false (over_limit status_code) =
    limiter_next (some (rate_limit_exceeded status_code))
api_rate_limiter false (fails err) = limiter_next (some err)

-- The module's variables: whether there is a client, with its runner of commands.
pub record LimiterModule : Type 0 where
  pub redis_client : Bool
  pub redis_command_runner : Bool

abbrev pub no_client : LimiterModule
no_client = record { redis_client = false; redis_command_runner = false }

-- The options of a limiter, of which the window and the limit may be given.
pub record LimiterSettings : Type 0 where
  pub window_ms : ℕ
  pub limit : ℕ
  pub on_redis : Bool

abbrev pub max_safe_integer : ℕ
max_safe_integer = 9_007_199_254_740_991

-- `resolveStore(store)`: whether it makes a store on Redis, and the variables after it.
unfoldable pub resolve_store : Environment → (given : Bool) → LimiterModule → Bool × LimiterModule
unfolding trim
resolve_store env true m = (false, m)
resolve_store env false m =
    if is_some (trimmed_url env.redis_url)
    then (true, record { redis_client = true; redis_command_runner = true })
    else (false, m)

-- The settings of `createApiRateLimiter(options)`.
unfoldable pub create_api_rate_limiter :
    Environment
    → (store_given : Bool) → Option ℕ
    → Option ℕ
    → LimiterModule
    → LimiterSettings × LimiterModule
unfolding resolve_store resolve_positive_integer_env
create_api_rate_limiter env store_given window_ms limit m =
    let (on_redis, m') = resolve_store env store_given m in
    (
      record {
        window_ms =
            get_or window_ms
              (resolve_positive_integer_env env.rate_limit_window_ms 60_000 max_safe_integer);
        limit = get_or limit (resolve_positive_integer_env env.rate_limit_max 120 max_safe_integer);
        on_redis = on_redis;
      },
      m',
    )

abbrev pub is_pong : Result Text → Bool
is_pong (ok reply) = text_eq reply (codes "PONG")
is_pong (throw e) = false

-- `checkRateLimitStoreReadiness`: the last argument is the result of the command `ping`.
unfoldable pub check_rate_limit_store_readiness :
    (required : Bool) → LimiterModule → Result Text → Bool
unfolding text_eq
check_rate_limit_store_readiness required m ping =
    if not required
    then true
    else if not m.redis_client || not m.redis_command_runner
    then false
    else is_pong ping

unfoldable pub is_rate_limit_store_ready : Environment → LimiterModule → Result Text → Bool
unfolding check_rate_limit_store_readiness trim
is_rate_limit_store_ready env m ping =
    check_rate_limit_store_readiness
      (not (text_is env.disable_rate_limit (codes "1")) && is_some (trimmed_url env.redis_url)) m
      ping

-- `disconnectRateLimitStore()`, with the result of `quit`: whatever it is, the variables are reset.
unfoldable pub disconnect_rate_limit_store :
    LimiterModule → Result (Unit {0}) → LimiterModule × Result (Unit {0})
disconnect_rate_limit_store m quit = if not m.redis_client then (m, ok tt) else (no_client, quit)

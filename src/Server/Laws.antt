-- ===== src/Server/Laws.antt =====
-- What is left after the cleanup of a shutdown.
use news_api.Middleware.RateLimit.{disconnect_rate_limit_store}
use news_api.Cache.Store.{disconnect_cache_store}
use news_api.Server.{
  Resources, cleanup, disconnect_cache_store, disconnect_rate_limit_store, shutdown_tracing,
}
use news_api.Base.{ℕ, ◌+◌, ◌≡◌, Bool, true, false, ◌&&◌, arith, if◌then◌else◌, length}
use news_api.Errors.{ok, throw, Result}

abbrev pub is_failure : Result (Unit {0}) → Bool
is_failure (ok u) = false
is_failure (throw e) = true

-- The number of failures among the parts that had something to release.
abbrev pub failures : (quit_cache quit_limiter shut : Result (Unit {0})) → Resources → ℕ
failures quit_cache quit_limiter shut r =
    (if r.cache.redis_client && is_failure quit_cache then 1 else 0)
    + (if r.limiter.redis_client && is_failure quit_limiter then 1 else 0)
    + (if r.sdk && is_failure shut then 1 else 0)

-- Everything that the cleanup leaves.
pub record IsReleased (before after : Resources) (failed : ℕ) (shut : Result (Unit {0}))
    : Type 0 where
  pub no_cache_client : after.cache.redis_client ≡ false
  pub no_limiter_client : after.limiter.redis_client ≡ false
  pub no_sdk : after.sdk ≡ (before.sdk && is_failure shut)
  pub logged : length after.errors ≡ length before.errors + failed

-- Whichever of the three parts fails to be released, the others are released all the same: no client
-- of Redis is left in either module, no tracing is left that could be shut down, and each failure is
-- logged once.
pub cleanup-IsReleased :
    (quit_cache quit_limiter shut : Result (Unit {0})) (r : Resources)
    → IsReleased r
        (cleanup quit_cache quit_limiter shut r)
        (failures quit_cache quit_limiter shut r)
        shut
unfolding cleanup disconnect_cache_store disconnect_rate_limit_store shutdown_tracing
cleanup-IsReleased quit_cache quit_limiter shut r = record {
  no_cache_client = ground arith;
  no_limiter_client = ground arith;
  no_sdk = ground arith;
  logged = ground arith;
}

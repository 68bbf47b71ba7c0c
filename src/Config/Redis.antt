-- ===== src/Config/Redis.antt =====
-- src/config/redis.ts: the options of the two Redis clients. The command and connect timeouts of
-- the two have the same defaults and maxima in the source.
use news_api.Base.{ℕ, Bool, true, false, Option}
use news_api.Js.Text.{Text}
use news_api.Config.Numbers.{resolve_positive_integer_env}

unfoldable pub resolve_cache_redis_command_timeout_ms : Option Text → ℕ
resolve_cache_redis_command_timeout_ms raw = resolve_positive_integer_env raw 500 1_000

unfoldable pub resolve_cache_redis_connect_timeout_ms : Option Text → ℕ
resolve_cache_redis_connect_timeout_ms raw = resolve_positive_integer_env raw 1_000 5_000

unfoldable pub resolve_rate_limit_redis_command_timeout_ms : Option Text → ℕ
resolve_rate_limit_redis_command_timeout_ms raw = resolve_positive_integer_env raw 500 1_000

unfoldable pub resolve_rate_limit_redis_connect_timeout_ms : Option Text → ℕ
resolve_rate_limit_redis_connect_timeout_ms raw = resolve_positive_integer_env raw 1_000 5_000

pub record RedisOptions : Type 0 where
  pub command_timeout : ℕ
  pub connect_timeout : ℕ
  pub max_retries_per_request : ℕ
  pub enable_offline_queue : Bool
  pub enable_ready_check : Bool
  pub lazy_connect : Bool

unfoldable pub resolve_cache_redis_options : Option Text → Option Text → RedisOptions
resolve_cache_redis_options command_raw connect_raw = record {
  command_timeout = resolve_cache_redis_command_timeout_ms command_raw;
  connect_timeout = resolve_cache_redis_connect_timeout_ms connect_raw;
  max_retries_per_request = 1;
  enable_offline_queue = false;
  enable_ready_check = true;
  lazy_connect = false;
}

unfoldable pub resolve_rate_limit_redis_options : Option Text → Option Text → RedisOptions
resolve_rate_limit_redis_options command_raw connect_raw = record {
  command_timeout = resolve_rate_limit_redis_command_timeout_ms command_raw;
  connect_timeout = resolve_rate_limit_redis_connect_timeout_ms connect_raw;
  max_retries_per_request = 1;
  enable_offline_queue = false;
  enable_ready_check = true;
  lazy_connect = false;
}

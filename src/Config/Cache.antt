-- ===== src/Config/Cache.antt =====
-- src/config/cache.ts: the timing of cache leases.
use news_api.Base.{ℕ, ◌/◌, min, max, Option}
use news_api.Js.Text.{Text}
use news_api.Config.Numbers.{resolve_positive_integer_env}

abbrev pub max_cache_lease_ttl_ms : ℕ
max_cache_lease_ttl_ms = 30_000

abbrev pub max_cache_lease_wait_ms : ℕ
max_cache_lease_wait_ms = 5_000

abbrev pub max_cache_lease_poll_ms : ℕ
max_cache_lease_poll_ms = 500

abbrev pub max_cache_lease_heartbeat_ms : ℕ
max_cache_lease_heartbeat_ms = 15_000

unfoldable pub resolve_cache_lease_ttl_ms : Option Text → ℕ
resolve_cache_lease_ttl_ms raw = resolve_positive_integer_env raw 5_000 max_cache_lease_ttl_ms

unfoldable pub resolve_cache_lease_wait_ms : Option Text → ℕ
resolve_cache_lease_wait_ms raw = resolve_positive_integer_env raw 750 max_cache_lease_wait_ms

unfoldable pub resolve_cache_lease_poll_ms : Option Text → ℕ
resolve_cache_lease_poll_ms raw = resolve_positive_integer_env raw 50 max_cache_lease_poll_ms

unfoldable pub resolve_cache_lease_heartbeat_ms : Option Text → ℕ → ℕ
resolve_cache_lease_heartbeat_ms raw lease_ttl_ms =
    let maximum = min max_cache_lease_heartbeat_ms (max 1 (lease_ttl_ms / 2)) in
    let fallback = max 1 (lease_ttl_ms / 2) in
    min (resolve_positive_integer_env raw fallback maximum) maximum

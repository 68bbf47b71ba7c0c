-- ===== src/Config/Bounds.antt =====
-- What the settings can be, whatever the environment holds.
use news_api.Base.{
  ℕ, ◌≤◌, ◌<◌, ◌/◌, ◌*◌, min, max, ◌≡◌, ◌⊎◌, true, false, Option, none, some, arith, ◌==◌, length,
}
use news_api.Js.Text.{Text, trim}
use news_api.Js.Decimal.{show, show-cons, show-IsDigits}
use news_api.Js.Number.{
  Number, nan, integer, is_safe_integer, max_safe, to_number, to_number-show, trim_of_IsDigits,
}
use news_api.Config.Numbers.{
  is_negative, magnitude, check_number, resolve_non_negative_integer_env,
  resolve_positive_integer_env,
}
use news_api.Config.Cache.{max_cache_lease_heartbeat_ms, resolve_cache_lease_heartbeat_ms}
use news_api.Config.Server.{
  ServerEnv, HttpServerSettings, resolve_server_request_timeout_ms,
  resolve_server_headers_timeout_ms, resolve_server_keep_alive_timeout_ms,
  resolve_server_max_requests_per_socket, resolve_server_max_header_size_bytes,
  resolve_http_server_settings,
}

check_number-le :
    (v : Number) (fallback maximum : ℕ)
    → fallback ≤ maximum
    → check_number v fallback maximum ≤ maximum
unfolding is_safe_integer is_negative magnitude
check_number-le nan f m h = h
check_number-le (integer neg n) f m h = ground arith
check_number-le _ f m h = h

-- The value never exceeds the maximum, if the fallback does not.
pub resolve_non_negative-le :
    (raw : Option Text) (fallback maximum : ℕ)
    → fallback ≤ maximum
    → resolve_non_negative_integer_env raw fallback maximum ≤ maximum
unfolding resolve_non_negative_integer_env
resolve_non_negative-le none f m h = check_number-le (integer false f) f m h
resolve_non_negative-le (some raw) f m h = ground (arith, check_number-le (to_number raw) f m h)

-- Whatever the variable holds, a positive setting lies between 1 and its maximum, if its fallback
-- does.
pub resolve_positive_bounds :
    (raw : Option Text) (fallback maximum : ℕ)
    → 0 < fallback
    → fallback ≤ maximum
    → (0 < resolve_positive_integer_env raw fallback maximum)
      × (resolve_positive_integer_env raw fallback maximum ≤ maximum)
unfolding resolve_positive_integer_env
resolve_positive_bounds raw f m pos h = ground (arith, resolve_non_negative-le raw f m h)

-- A positive fallback makes the setting positive, also where the fallback is above the maximum.
resolve_positive_pos :
    (raw : Option Text) (fallback maximum : ℕ)
    → 0 < fallback
    → 0 < resolve_positive_integer_env raw fallback maximum
unfolding resolve_positive_integer_env
resolve_positive_pos raw f m h = ground arith

show-trim : (n : ℕ) → (length (trim (show n)) == 0) ≡ false
show-trim n =
    let (c, s, e) = show-cons n in rw (trim_of_IsDigits _ (show-IsDigits n), e) (ground arith)

-- A setting written as a positive decimal, at most the greatest safe integer, is used as it is up
-- to its maximum, if that is positive.
pub resolve_positive-show :
    (n fallback maximum : ℕ)
    → 0 < n
    → n ≤ max_safe
    → 0 < maximum
    → resolve_positive_integer_env (some (show n)) fallback maximum ≡ min n maximum
unfolding resolve_positive_integer_env is_safe_integer is_negative magnitude
resolve_positive-show n f m pos safe room = rw (show-trim n, to_number-show n safe) (ground arith)

-- A setting that reads as no number, a negative or an unsafe one falls back.
pub resolve_positive_of_invalid :
    (raw : Text) (fallback maximum : ℕ)
    → 0 < fallback
    → (is_safe_integer (to_number raw) ≡ false) ⊎ (is_negative (to_number raw) ≡ true)
    → resolve_positive_integer_env (some raw) fallback maximum ≡ fallback
unfolding resolve_positive_integer_env
resolve_positive_of_invalid raw f m pos h = ground arith

-- What an operator relies on: every server limit is positive and below its maximum, and headers
-- never get more time than the whole request.
pub record IsWithinLimits (s : HttpServerSettings) : Type 0 where
  pub request_positive : 0 < s.request_timeout
  pub request_le : s.request_timeout ≤ 120_000
  pub headers_positive : 0 < s.headers_timeout
  pub headers_le : s.headers_timeout ≤ 60_000
  pub headers-le-request : s.headers_timeout ≤ s.request_timeout
  pub keep_alive_positive : 0 < s.keep_alive_timeout
  pub keep_alive_le : s.keep_alive_timeout ≤ 120_000
  pub requests_le : s.max_requests_per_socket ≤ 10_000
  pub header_size_positive : 0 < s.max_header_size
  pub header_size_le : s.max_header_size ≤ 65_536

-- The resolved server settings are within their limits for every environment.
pub http_server_settings-IsWithinLimits :
    (env : ServerEnv) → IsWithinLimits (resolve_http_server_settings env)
unfolding resolve_http_server_settings resolve_server_request_timeout_ms
    resolve_server_headers_timeout_ms resolve_server_keep_alive_timeout_ms
    resolve_server_max_requests_per_socket resolve_server_max_header_size_bytes
http_server_settings-IsWithinLimits env =
    let req = resolve_positive_integer_env env.request_timeout_ms 75_000 120_000 in
    let q =
      resolve_positive_bounds env.request_timeout_ms 75_000 120_000 (omega arith) (omega arith) in
    let h =
      resolve_positive_bounds env.headers_timeout_ms (min 10_000 (min 60_000 req)) (min 60_000 req)
        (omega arith) (omega arith) in
    let k =
      resolve_positive_bounds env.keep_alive_timeout_ms 5_000 120_000 (omega arith) (omega arith) in
    let z =
      resolve_positive_bounds env.max_header_size_bytes 16_384 65_536 (omega arith) (omega arith) in
    record {
      request_positive = q.0;
      request_le = q.1;
      headers_positive = h.0;
      headers_le = omega (arith, h.1);
      headers-le-request = omega (arith, h.1);
      keep_alive_positive = k.0;
      keep_alive_le = k.1;
      requests_le = resolve_non_negative-le env.max_requests_per_socket 1_000 10_000 (omega arith);
      header_size_positive = z.0;
      header_size_le = z.1;
    }

-- With at least two milliseconds of lease the heartbeat is positive, at most 15 seconds, and two
-- of its periods fit in the lease.
pub cache_lease_heartbeat_bounds :
    (raw : Option Text) (ttl : ℕ)
    → 2 ≤ ttl
    → (0 < resolve_cache_lease_heartbeat_ms raw ttl)
      × (resolve_cache_lease_heartbeat_ms raw ttl ≤ max_cache_lease_heartbeat_ms)
      × (2 * resolve_cache_lease_heartbeat_ms raw ttl ≤ ttl)
unfolding resolve_cache_lease_heartbeat_ms
cache_lease_heartbeat_bounds raw ttl h =
    let top = max 1 (ttl / 2) in
    let maximum = min max_cache_lease_heartbeat_ms top in
    let pos = resolve_positive_pos raw top maximum (omega arith) in
    (omega arith, omega arith, omega arith)

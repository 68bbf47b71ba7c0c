-- ===== src/Config/Server.antt =====
-- src/config/httpServer.ts and src/config/httpBody.ts: the limits of the HTTP server.
use news_api.Base.{ℕ, ◌*◌, min, Option}
use news_api.Js.Text.{Text}
use news_api.Config.Numbers.{resolve_non_negative_integer_env, resolve_positive_integer_env}

unfoldable pub resolve_server_request_timeout_ms : Option Text → ℕ
resolve_server_request_timeout_ms raw = resolve_positive_integer_env raw 75_000 120_000

unfoldable pub resolve_server_headers_timeout_ms : Option Text → ℕ → ℕ
resolve_server_headers_timeout_ms raw request_timeout_ms =
    let maximum = min 60_000 request_timeout_ms in
    let fallback = min 10_000 maximum in resolve_positive_integer_env raw fallback maximum

unfoldable pub resolve_server_keep_alive_timeout_ms : Option Text → ℕ
resolve_server_keep_alive_timeout_ms raw = resolve_positive_integer_env raw 5_000 120_000

unfoldable pub resolve_server_max_requests_per_socket : Option Text → ℕ
resolve_server_max_requests_per_socket raw = resolve_non_negative_integer_env raw 1_000 10_000

unfoldable pub resolve_server_max_header_size_bytes : Option Text → ℕ
resolve_server_max_header_size_bytes raw = resolve_positive_integer_env raw 16_384 65_536

unfoldable pub resolve_server_transport_log_burst : Option Text → ℕ
resolve_server_transport_log_burst raw = resolve_positive_integer_env raw 10 100

unfoldable pub resolve_server_transport_log_window_ms : Option Text → ℕ
resolve_server_transport_log_window_ms raw = resolve_positive_integer_env raw 60_000 300_000

unfoldable pub resolve_server_max_json_body_bytes : Option Text → ℕ
resolve_server_max_json_body_bytes raw = resolve_positive_integer_env raw (32 * 1024) (256 * 1024)

-- The environment variables that the settings are read from.
pub record ServerEnv : Type 0 where
  pub request_timeout_ms : Option Text
  pub headers_timeout_ms : Option Text
  pub keep_alive_timeout_ms : Option Text
  pub max_requests_per_socket : Option Text
  pub max_header_size_bytes : Option Text
  pub transport_log_burst : Option Text
  pub transport_log_window_ms : Option Text

pub record HttpServerSettings : Type 0 where
  pub request_timeout : ℕ
  pub headers_timeout : ℕ
  pub keep_alive_timeout : ℕ
  pub max_requests_per_socket : ℕ
  pub max_header_size : ℕ

pub record HttpServerLogSettings : Type 0 where
  pub burst : ℕ
  pub window_ms : ℕ

unfoldable pub resolve_http_server_settings : ServerEnv → HttpServerSettings
resolve_http_server_settings env =
    let request_timeout = resolve_server_request_timeout_ms env.request_timeout_ms in
    record {
      request_timeout = request_timeout;
      headers_timeout = resolve_server_headers_timeout_ms env.headers_timeout_ms request_timeout;
      keep_alive_timeout = resolve_server_keep_alive_timeout_ms env.keep_alive_timeout_ms;
      max_requests_per_socket = resolve_server_max_requests_per_socket env.max_requests_per_socket;
      max_header_size = resolve_server_max_header_size_bytes env.max_header_size_bytes;
    }

unfoldable pub resolve_http_server_log_settings : ServerEnv → HttpServerLogSettings
resolve_http_server_log_settings env = record {
  burst = resolve_server_transport_log_burst env.transport_log_burst;
  window_ms = resolve_server_transport_log_window_ms env.transport_log_window_ms;
}

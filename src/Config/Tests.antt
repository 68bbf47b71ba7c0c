-- ===== src/Config/Tests.antt =====
-- The settings at concrete values of their variables.
use news_api.Js.Text.{codes}
use news_api.Config.Bounds.{
  IsWithinLimits, http_server_settings-IsWithinLimits, resolve_positive_bounds,
}
use news_api.Config.Server.{ServerEnv, resolve_http_server_settings}
use news_api.Config.Numbers.{resolve_positive_integer_env}
use news_api.Base.{◌≤◌, ◌<◌, none, some, arith}

resolve_positive_bounds_example :
    (0 < resolve_positive_integer_env (some (codes "12x")) 3 10)
    × (resolve_positive_integer_env (some (codes "12x")) 3 10 ≤ 10)
resolve_positive_bounds_example =
    resolve_positive_bounds (some (codes "12x")) 3 10 (omega arith) (omega arith)

abbrev unset_env : ServerEnv
unset_env = record {
  request_timeout_ms = some (codes "5000");
  headers_timeout_ms = none;
  keep_alive_timeout_ms = none;
  max_requests_per_socket = none;
  max_header_size_bytes = none;
  transport_log_burst = none;
  transport_log_window_ms = none;
}

http_server_settings-IsWithinLimits_example :
    IsWithinLimits (resolve_http_server_settings unset_env)
http_server_settings-IsWithinLimits_example = http_server_settings-IsWithinLimits unset_env

-- ===== src/App/Tests.antt =====
-- A request that is answered, and the readiness of a program, at concrete values.
use news_api.Middleware.ClientApiKey.{client_api_key_gate, parse_client_keys}
use news_api.Js.Text.{codes}
use news_api.App.Laws.{IsServed, handle_api-IsServed}
use news_api.Middleware.RateLimit.{Environment, api_rate_limiter, passes, limiter_next}
use news_api.Base.{ℕ, ◌≡◌, refl, true, none, some}
use news_api.App.{
  Incoming, Route, handle_api, get, v1_articles, replied, Environment, api_rate_limiter, codes,
  client_api_key_gate, read_only_route, Result,
}
use news_api.Errors.{ok, nullish, Result}

abbrev plain_request : Incoming
plain_request = record {
  skipped = true;
  limited = passes;
  client_api_keys = none;
  api_key = nullish;
  parsed_body = ok tt;
  method = get;
  route = some v1_articles;
}

abbrev one_handler : Route → Result ℕ
one_handler r = ok 5

plain_reply : handle_api (λ t. t) one_handler plain_request ≡ ok (replied 5)
unfolding handle_api api_rate_limiter limiter_next client_api_key_gate parse_client_keys
    read_only_route
plain_reply = refl

handle_api-IsServed_example : IsServed (λ t. t) one_handler plain_request 5
handle_api-IsServed_example = handle_api-IsServed (λ t. t) one_handler plain_request 5 plain_reply

abbrev production : Environment
production = record {
  node_env = some (codes "production");
  vitest = none;
  disable_rate_limit = none;
  redis_url = some (codes "redis://cache");
  rate_limit_window_ms = none;
  rate_limit_max = none;
}

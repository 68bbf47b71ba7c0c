-- ===== src/Middleware/Tests.antt =====
-- Answers to concrete errors.
use news_api.Middleware.RateLimit.{Environment, over_limit, api_rate_limiter}
use news_api.Middleware.RateLimit.Laws.{IsDecided, api_rate_limiter-IsDecided}
use news_api.Middleware.ClientApiKey.Laws.{client_api_key_gate-keys, is_key_of}
use news_api.Middleware.ClientApiKey.{client_api_key_gate, parse_client_keys, split_comma}
use news_api.Js.Text.{codes, Text, trim}
use news_api.Middleware.ErrorHandler.Laws.{IsErrorAnswer, error_handler-IsErrorAnswer}
use news_api.Http.BodyParser.{get_body_parser_error_contract}
use news_api.Middleware.ErrorHandler.{error_handler}
use news_api.Errors.{
  ErrorObject, is_request_aborted_error, plain, error, text, ok, throw, http_error_of,
}
use news_api.Base.{
  ◌≡◌, refl, true, false, none, some, if◌then◌else◌, length, ◌∷◌, [], ◌==◌, ◌||◌, arith,
}

abbrev too_large_body : ErrorObject
too_large_body = record {
  cls = plain;
  name = "PayloadTooLargeError";
  message = "request entity too large";
  code = none;
  status_code = some 413;
  retry_after = none;
  body_type = some "entity.too.large";
}

error_handler-IsErrorAnswer_example :
    IsErrorAnswer true (codes "r1") (error_handler true (codes "r1") false (error too_large_body))
unfolding is_request_aborted_error get_body_parser_error_contract
error_handler-IsErrorAnswer_example =
    error_handler-IsErrorAnswer true (codes "r1") (error too_large_body) refl cc

-- The digest that tells all keys apart.
abbrev plain_digest : Text → Text
plain_digest k = k

client_api_key_gate-keys_example :
    client_api_key_gate plain_digest (some (codes "a, b")) (text (codes "b")) ≡ (
      if length (parse_client_keys (some (codes "a, b"))) == 0
        || is_key_of plain_digest (text (codes "b")) (parse_client_keys (some (codes "a, b")))
      then ok tt
      else throw (http_error_of 401 "Invalid or missing API key" "invalid_api_key" none))
client_api_key_gate-keys_example =
    client_api_key_gate-keys plain_digest (some (codes "a, b")) (text (codes "b")) (λ k e. e)

-- Keys are trimmed, and empty ones are no keys.
two_keys : parse_client_keys (some (codes " a, b,, ")) ≡ codes "a" ∷ codes "b" ∷ []
unfolding parse_client_keys split_comma trim
two_keys = refl

api_rate_limiter-IsDecided_example :
    IsDecided true (codes "r") (over_limit 429) (api_rate_limiter false (over_limit 429))
api_rate_limiter-IsDecided_example =
    api_rate_limiter-IsDecided true (codes "r") (over_limit 429) (omega arith, omega arith)

abbrev on_redis_environment : Environment
on_redis_environment = record {
  node_env = none;
  vitest = none;
  disable_rate_limit = none;
  redis_url = some (codes " redis://cache ");
  rate_limit_window_ms = none;
  rate_limit_max = none;
}

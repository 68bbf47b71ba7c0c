-- ===== src/App.antt =====
-- src/app.ts, src/routes.ts and src/middleware/apiErrors.ts: which middleware a request of the API
-- passes, in their order, and the readiness of the program. Express itself, which matches paths, parses
-- bodies and takes a rejected handler to the error handler, is no code of the repository: the route
-- that a path matches and the result of the body parser are arguments.
pub mod Laws
pub mod Tests
use news_api.Base.{ℕ, Bool, false, not, ◌&&◌, ◌||◌, Option, none, some, ◌==◌, if◌then◌else◌, length}
use news_api.Middleware.RateLimit.{
  Environment, LimiterModule, Passed, Limited, api_rate_limiter, is_rate_limit_store_ready,
}
use news_api.Middleware.ClientApiKey.{client_api_key_gate}
use news_api.Middleware.ErrorHandler.{Response, error_handler}
use news_api.Errors.{◌>>=◌, ◌>>◌, ok, throw, Result, HeaderValue, Thrown, http_error_of}
use news_api.Js.Text.{Text, text_is, codes, trim}

-- The routes of the router.
pub data Route : Type 0 where
  v1_articles v1_articles_search v1_title v1_source articles title source : Route

pub data Method : Type 0 where
  get head options other_method : Method

-- An answer that is no error: of a handler, or 204 with the header `Allow`.
pub data Sent (A : Type 0) : Type 0 where
  replied : A → Sent A
  no_content : (allow : Text) → Sent A

abbrev pub read_only_allow : Text
read_only_allow = codes "GET, HEAD, OPTIONS"

-- `methodNotAllowed(req, res, next)`.
unfoldable pub method_not_allowed : {A : Type 0} → Method → Result (Sent A)
method_not_allowed options = ok (no_content read_only_allow)
method_not_allowed _ = throw (http_error_of 405 "Method not allowed" "method_not_allowed" none)

-- `apiNotFound(req, res, next)`.
unfoldable pub api_not_found : {A : Type 0} → Result A
api_not_found = throw (http_error_of 404 "API route not found" "route_not_found" none)

-- A read-only route: its handler for GET, which Express also calls for HEAD.
unfoldable pub read_only_route : {A : Type 0} → Result A → Method → Result (Sent A)
unfolding method_not_allowed
read_only_route handled get = handled >>= λ a. ok (replied a)
read_only_route handled head = handled >>= λ a. ok (replied a)
read_only_route handled method = method_not_allowed method

abbrev pub dispatch : {A : Type 0} → (Route → Result A) → Method → Option Route → Result (Sent A)
dispatch handlers method none = api_not_found
dispatch handlers method (some r) = read_only_route (handlers r) method

abbrev pub of_error : Option Thrown → Result (Unit {0})
of_error none = ok tt
of_error (some e) = throw e

-- What a request meets before the routes.
pub record Incoming : Type 0 where
  pub skipped : Bool
  pub limited : Limited
  pub client_api_keys : Option Text
  pub api_key : HeaderValue
  pub parsed_body : Result (Unit {0})
  pub method : Method
  pub route : Option Route

module _ {A : Type 0} (digest : Text → Text) (handlers : Route → Result A) where
  -- A request under /api.
  unfoldable pub handle_api : Incoming → Result (Sent A)
  unfolding api_rate_limiter client_api_key_gate read_only_route api_not_found
  handle_api req =
      of_error (api_rate_limiter req.skipped req.limited).err
      >> client_api_key_gate digest req.client_api_keys req.api_key
      >> req.parsed_body
      >> dispatch handlers req.method req.route

-- What the client gets: an answer of the chain, or that of the error handler.
pub data Answer (A : Type 0) : Type 0 where
  sent : Sent A → Answer A
  refused : Response → Answer A

abbrev pub answer_of :
    {A : Type 0} → (uses_structured_errors : Bool) → Text → Result (Sent A) → Answer A
answer_of uses_structured_errors request_id (ok s) = sent s
answer_of uses_structured_errors request_id (throw e) =
    refused (error_handler uses_structured_errors request_id false e)

-- The answer of `/ready`.
pub data Readiness : Type 0 where
  draining missing_api_key rate_limit_store_unavailable is_ready : Readiness

abbrev pub readiness_status : Readiness → ℕ
readiness_status is_ready = 200
readiness_status _ = 503

abbrev pub has_api_key : Option Text → Bool
has_api_key none = false
has_api_key (some key) = not (length (trim key) == 0)

abbrev pub is_test : Environment → Bool
is_test env = text_is env.node_env (codes "test") || text_is env.vitest (codes "true")

unfoldable pub ready :
    (is_draining : Bool)
    → Environment
    → (gnews_api_key : Option Text) → LimiterModule
    → Result Text
    → Readiness
unfolding is_rate_limit_store_ready trim
ready is_draining env gnews_api_key m ping =
    if is_draining
    then draining
    else if not (is_test env) && not (has_api_key gnews_api_key)
    then missing_api_key
    else if not (is_rate_limit_store_ready env m ping)
    then rate_limit_store_unavailable
    else is_ready

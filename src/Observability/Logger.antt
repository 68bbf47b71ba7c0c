-- ===== src/Observability/Logger.antt =====
-- src/logger.ts: the identifier that a request gets, the fields of its log line, and the level of it.
-- `uuid` is what `randomUUID()` gives. pino and pino-http are packages.
pub mod Laws
use news_api.Base.{
  ℕ, Bool, true, false, not, ◌&&◌, ◌||◌, Option, none, some, [], ◌∷◌, leb, if◌then◌else◌, is_some,
  get_or,
}
use news_api.Http.RequestId.{normalize_request_id, bounded_request_path}
use news_api.Http.Responses.{request_id}
use news_api.Http.RequestId.Laws.{
  IsRequestId, IsLoggedPath, normalize_request_id-IsRequestId, normalize_request_id_idempotent,
  bounded_request_path-IsLoggedPath,
}
use news_api.Errors.{HeaderValue, nullish, text}
use news_api.Js.Text.{Text, codes}

-- `resolveLevel()`.
unfoldable pub resolve_level : Option Text → (is_test : Bool) → Text
resolve_level none is_test = if is_test then codes "silent" else codes "info"
resolve_level (some []) is_test = if is_test then codes "silent" else codes "info"
resolve_level (some (c ∷ level)) is_test = c ∷ level

abbrev pub is_sent : HeaderValue → Bool
is_sent nullish = false
is_sent _ = true

-- `genReqId(req, res)`: the identifier, which is also sent back, and whether a rejection is counted.
unfoldable pub gen_req_id : HeaderValue → (uuid : Text) → Text × Bool
unfolding normalize_request_id
gen_req_id raw uuid = (
  get_or (normalize_request_id raw) uuid,
  is_sent raw && not (is_some (normalize_request_id raw)),
)

pub record LoggedRequest : Type 0 where
  pub id : Option Text
  pub method : Option Text
  pub path : Text

-- `originalUrl ?? url`.
abbrev pub or_url : HeaderValue → HeaderValue → HeaderValue
or_url nullish url = url
or_url original_url url = original_url

-- `serializeHttpRequest(request)`.
unfoldable pub serialize_http_request :
    HeaderValue → Option Text → (original_url url : HeaderValue) → LoggedRequest
unfolding normalize_request_id bounded_request_path
serialize_http_request id method original_url url = record {
  id = normalize_request_id id;
  method = method;
  path = bounded_request_path (or_url original_url url);
}

pub data LogLevel : Type 0 where
  error_level warn_level info_level : LogLevel

-- `customLogLevel(req, res, err)`.
unfoldable pub custom_log_level : (status : ℕ) → (has_error : Bool) → LogLevel
custom_log_level status has_error =
    if has_error || leb 500 status
    then error_level
    else if leb 400 status
    then warn_level
    else info_level

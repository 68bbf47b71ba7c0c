-- ===== src/Middleware/ErrorHandler.antt =====
-- src/middleware/errorHandler.ts: the answer to each thrown value. Log lines, which alone show the
-- details of an unexpected error, are left out, and so is the metric of body errors.
pub mod Laws
use news_api.Http.BodyParser.{TableEntry, get_body_parser_error_contract, own, missing, inherited}
use news_api.Errors.{ErrorObject, Thrown, error, is_request_aborted_error, no_error}
use news_api.Js.Text.{Text}
use news_api.Base.{
  ℕ, String, Bool, false, ◌&&◌, Option, none, some, ltb, leb, str_eq, if◌then◌else◌, get_or,
}

-- The JSON body: the structured form of /api/v1/ with a code, which JSON leaves out where it is
-- undefined, and the request's identifier, or the message alone.
pub data ErrorBody : Type 0 where
  structured : (code : Option String) (message : String) (request_id : Text) → ErrorBody
  plain_message : (message : String) → ErrorBody

-- What the handler does: nothing, `next(err)`, or an answer; its status and body are undefined
-- where an inherited member was taken for a contract.
pub data Response : Type 0 where
  ignored : Response
  passed_on : Response
  answered : (status : ℕ) (retry_after : Option Text) (body : ErrorBody) → Response
  answered_undefined : Response

abbrev pub in_range : Option ℕ → Bool
in_range none = false
in_range (some code) = leb 400 code && ltb code 600

-- `isHttpError(err)`.
unfoldable pub is_http_error : ErrorObject → Bool
is_http_error e = str_eq e.name "HttpError" && in_range e.status_code

-- `isMalformedPathError(err)`.
unfoldable pub is_malformed_path_error : ErrorObject → Bool
is_malformed_path_error e = str_eq e.name "URIError"

module _ (uses_structured_errors : Bool) (request_id : Text) where
  abbrev pub body_of : Option String → String → ErrorBody
  body_of code message =
      if uses_structured_errors then structured code message request_id else plain_message message

  abbrev pub internal_error : Response
  internal_error = answered 500 none (body_of (some "internal_error") "Internal server error")

  -- The branch of the body parser, and the ones after it.
  abbrev pub answer_entry : TableEntry → Response
  answer_entry missing = internal_error
  answer_entry (own c) = answered c.status_code none (body_of (some c.code) c.message)
  answer_entry inherited = answered_undefined

  abbrev pub answer_error : ErrorObject → Response
  answer_error e =
      if is_http_error e
      then answered (get_or e.status_code 500) e.retry_after (body_of e.code e.message)
      else if is_malformed_path_error e
      then answered 400 none
          (body_of (some "invalid_path_parameter") "Invalid URL-encoded path parameter")
      else answer_entry (get_body_parser_error_contract (error e))

  abbrev pub answer : Thrown → Response
  answer no_error = internal_error
  answer (error e) = answer_error e

  -- `errorHandler(err, req, res, next)`.
  unfoldable pub error_handler : Bool → Thrown → Response
  unfolding is_http_error is_malformed_path_error
  error_handler headers_sent err =
      if is_request_aborted_error err
      then ignored
      else if headers_sent
      then passed_on
      else answer err

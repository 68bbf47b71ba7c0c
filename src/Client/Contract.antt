-- ===== src/Client/Contract.antt =====
-- The client against the error handler of the same repository, src/middleware/errorHandler.ts: the
-- errors of the server as the client of src/client/newsApiClient.ts reads them.
use mathlib.Core.Bool.{true}
use news_api.Errors.{http_error_of, is_request_aborted_error}
use news_api.Client.Laws.{parse_text_of, read_json_of}
use news_api.Js.Text.{Text}
use news_api.Base.{
  if◌then◌else◌, ℕ, ◌≡◌, refl, ◌≢◌, Bool, false, Option, none, some, [], ◌∷◌, String, leb, ◌≤◌,
  arith, ◌&&◌, ◌<◌, ltb, le→leb, lt→ltb,
}
use news_api.Client.{
  resolved, rejected, client_error, request_failed, Platform, Text, get_json, throw_for_error,
  ClientFailure, FetchResponse, NewsApiClient, is_error_envelope, parse_text, RequestOptions,
  is_error, request,
}
use mathlib.Core.List.{[], ◌∷◌}
use news_api.Middleware.ErrorHandler.{
  answered, error_handler, ErrorBody, structured, plain_message, Response, is_http_error, body_of,
}
use news_api.Types.Article.{Json, obj, field, end, str, get_field}

-- `res.json(body)` of an error: a code that is undefined is left out. `quoted` is a text as JSON.
abbrev pub error_json : (Text → Json) → ErrorBody → Json
error_json quoted (structured (some code) message id) = obj (
    field "error"
      (obj (
        field "code" (str code)
          (field "message" (str message) (field "requestId" (quoted id) end))))
      end)
error_json quoted (structured none message id) =
    obj
      (field "error" (obj (field "message" (str message) (field "requestId" (quoted id) end))) end)
error_json quoted (plain_message message) = obj (field "error" (str message) end)

-- The client's failure for an error of the server.
abbrev pub failure_of : (Text → Json) → ℕ → Option Text → ErrorBody → ClientFailure
failure_of quoted status retry_after (structured (some code) message id) =
    client_error status (str code) (str message) (quoted id) retry_after
failure_of quoted status retry_after _ = request_failed status

-- The answer of the server, as `fetch` gives it: the text of its body is the JSON of the error.
pub record IsDelivered (P : Platform) (quoted : Text → Json) (status : ℕ)
    (retry_after : Option Text) (body : ErrorBody) (res : FetchResponse) : Type 0 where
  pub text : Text
  pub same_status : res.status ≡ status
  pub success : res.is_ok ≡ (leb 200 status && ltb status 300)
  pub same_retry_after : res.retry_after ≡ retry_after
  pub read : res.text ≡ resolved text
  pub not_empty : text ≢ []
  pub parsed : P.parse text ≡ some (error_json quoted body)

abbrev pub Delivers : Platform → (Text → Json) → Response → FetchResponse → Type 0
Delivers P quoted (answered status retry_after body) res =
    IsDelivered P quoted status retry_after body res
Delivers P quoted _ res = ⊥

error_json-failure :
    (quoted : Text → Json) (res : FetchResponse) (body : ErrorBody)
    → res.is_ok ≡ false
    → (throw_for_error res (some (error_json quoted body)))
      ≡ rejected (failure_of quoted res.status res.retry_after body)
unfolding throw_for_error is_error_envelope is_error get_field
error_json-failure quoted res (structured (some code) message id) bad = rw bad
error_json-failure quoted res (structured none message id) bad = rw bad
error_json-failure quoted res (plain_message message) bad = rw bad

read_text :
    (P : Platform) (text : Text) (v : Json)
    → text ≢ []
    → P.parse text ≡ some v
    → parse_text P text ≡ resolved (some v)
read_text P [] v h parsed = absurd (h refl)
read_text P (c ∷ s) v h parsed = parse_text_of P c s v parsed

get_json_of_delivered :
    (P : Platform) (quoted : Text → Json) (client : NewsApiClient) (path : Text)
    (options : RequestOptions) (status : ℕ) (retry_after : Option Text) (body : ErrorBody)
    (res : FetchResponse)
    → 400 ≤ status
    → request P client path options ≡ resolved res
    → IsDelivered P quoted status retry_after body res
    → get_json P client path options ≡ rejected (failure_of quoted status retry_after body)
unfolding get_json
get_json_of_delivered P quoted client path options status retry_after body res lo sent c =
    let bad : res.is_ok ≡ false = ground (arith, c.success) in
    rw (
      sent,
      read_json_of P res c.text c.read,
      read_text P c.text (error_json quoted body) c.not_empty c.parsed,
      error_json-failure quoted res body bad,
      c.same_status,
      c.same_retry_after,
    )

handled :
    (uses_structured_errors : Bool) (request_id : Text) (status : ℕ) (message code : String)
    (retry_after : Option Text)
    → 400 ≤ status
    → status < 600
    → is_request_aborted_error (http_error_of status message code retry_after) ≡ false
    → error_handler uses_structured_errors request_id false
        (http_error_of status message code retry_after)
      ≡ answered status retry_after (body_of uses_structured_errors request_id (some code) message)
unfolding error_handler http_error_of is_http_error
handled uses_structured_errors request_id status message code retry_after lo hi live =
    rw (live, le→leb 400 status lo, lt→ltb status 600 hi)

-- An `HttpError` with a status from 400 to 599 that a route of the server throws reaches the caller of
-- the client: on the versioned routes with its status, code, message and `retry-after` and with the
-- identifier of the request, on the others with its status alone. Its code is none that marks a
-- cancellation, and the server's answer to it must
-- arrive as the answer of the request, with the JSON of its body as the text.
pub get_json-error_handler :
    (P : Platform) (quoted : Text → Json) (client : NewsApiClient) (path : Text)
    (options : RequestOptions) (res : FetchResponse) (uses_structured_errors : Bool)
    (request_id : Text) (status : ℕ) (message code : String) (retry_after : Option Text)
    → 400 ≤ status
    → status < 600
    → is_request_aborted_error (http_error_of status message code retry_after) ≡ false
    → request P client path options ≡ resolved res
    → Delivers P quoted
        (error_handler uses_structured_errors request_id false
          (http_error_of status message code retry_after))
        res
    → get_json P client path options ≡ (
        if uses_structured_errors
        then rejected (client_error status (str code) (str message) (quoted request_id) retry_after)
        else rejected (request_failed status))
get_json-error_handler P quoted client path options res true id status message code retry_after lo
      hi live sent arrives =
    get_json_of_delivered P quoted client path options status retry_after _ res lo sent
      (rw (handled true id status message code retry_after lo hi live) at arrives)
get_json-error_handler P quoted client path options res false id status message code retry_after lo
      hi live sent arrives =
    get_json_of_delivered P quoted client path options status retry_after _ res lo sent
      (rw (handled false id status message code retry_after lo hi live) at arrives)

-- ===== src/Client/Tests.antt =====
-- The client against concrete answers.
use news_api.Http.Responses.{Meta, send_envelope}
use news_api.Http.Conditional.Laws.{IsOpaque}
use news_api.Client.Laws.{IsAnswer, get_json-IsAnswer}
use news_api.Client.Contract.{IsDelivered, error_json, Delivers, get_json-error_handler}
use news_api.Client.Revalidation.{answered_by, get_conditional_json-send_envelope}
use news_api.Js.Text.{Text, codes}
use news_api.Client.{
  resolved, rejected, client_error, request_failed, Platform, FetchResponse, NewsApiClient,
  RequestOptions, Text, build_url, get_conditional_json, get_json, request, Headers, codes,
  no_options, not_modified,
}
use news_api.Middleware.ErrorHandler.{error_handler, structured, is_http_error}
use news_api.Types.Article.{Json, str}
use news_api.Errors.{nullish, http_error_of, is_request_aborted_error}
use news_api.Base.{refl, arith, if◌then◌else◌, true, none, some, Option, ℕ, false, arith, ◌≡◌}
use mathlib.Core.List.{[], ◌++◌}

-- A platform whose URLs are texts and whose server gives one answer to every request.
abbrev answering : Option Json → (Option Headers → FetchResponse) → Platform
answering parsed answer = record {
  Url = Text;
  url_of = λ t. resolved t;
  set_param = λ k v u. u;
  encode_component = λ t. resolved t;
  parse = λ t. parsed;
  fetch = λ u headers. resolved (answer headers);
}

abbrev client : NewsApiClient
client = record { base_url = codes "http://host"; api_key = some (codes "key") }

abbrev quoted : Text → Json
quoted t = str "id"

abbrev failed : FetchResponse
failed = record {
  status = 429;
  is_ok = false;
  etag = none;
  retry_after = some (codes "7");
  text = resolved (codes "{}");
}

abbrev limited : Platform
limited =
    answering (some (error_json quoted (structured (some "rate_limited") "slow down" (codes "r"))))
      (λ h. failed)

limited-request : request limited client (codes "/api/v1/articles") no_options ≡ resolved failed
unfolding request build_url
limited-request = refl

get_json-IsAnswer_example :
    IsAnswer limited failed
      (codes "{}")
      (get_json limited client (codes "/api/v1/articles") no_options)
get_json-IsAnswer_example =
    get_json-IsAnswer limited client (codes "/api/v1/articles") no_options failed (codes "{}")
      limited-request refl

delivered :
    IsDelivered limited quoted 429
      (some (codes "7"))
      (structured (some "rate_limited") "slow down" (codes "r"))
      failed
delivered = record {
  text = codes "{}";
  same_status = refl;
  success = refl;
  same_retry_after = refl;
  read = refl;
  not_empty = λ e. cc e;
  parsed = refl;
}

delivers :
    Delivers limited quoted
      (error_handler true
        (codes "r")
        false
        (http_error_of 429 "slow down" "rate_limited" (some (codes "7"))))
      failed
unfolding error_handler http_error_of is_http_error is_request_aborted_error
delivers = delivered

not_aborted :
    is_request_aborted_error (http_error_of 429 "slow down" "rate_limited" (some (codes "7")))
    ≡ false
unfolding http_error_of is_request_aborted_error
not_aborted = refl

get_json-error_handler_example : get_json limited client (codes "/api/v1/articles") no_options ≡ (
    if true
    then rejected (
        client_error 429
          (str "rate_limited")
          (str "slow down")
          (quoted (codes "r"))
          (some (codes "7")))
    else rejected (request_failed 429))
get_json-error_handler_example =
    get_json-error_handler limited quoted client (codes "/api/v1/articles") no_options failed true
      (codes "r") 429 "slow down" "rate_limited" (some (codes "7")) (omega arith) (omega arith)
      not_aborted limited-request delivers

digest-IsOpaque : IsOpaque (codes "abc")
digest-IsOpaque = ground arith

-- A server with one envelope, whose digest is the same for all data.
abbrev digest : ℕ → Meta → Text
digest n meta = codes "abc"

abbrev first_tag : Text
first_tag = (send_envelope digest (codes "a") nullish 5 []).entity_tag

abbrev asking : RequestOptions
asking = record { query = []; api_key = none; if_none_match = some first_tag }

abbrev enveloping : Platform
enveloping = answering none (answered_by digest (λ b. codes "{}") (codes "b") 5 [])

get_conditional_json-send_envelope_example :
    get_conditional_json enveloping client (codes "/api/v1/articles") asking
    ≡ resolved (not_modified (some first_tag))
unfolding build_url
get_conditional_json-send_envelope_example =
    get_conditional_json-send_envelope digest (λ b. codes "{}") enveloping client
      (codes "/api/v1/articles") asking (codes "http://host" ++ (codes "/api/v1/articles"))
      (codes "a") (codes "b") nullish 5 [] [] refl (λ headers. refl) refl digest-IsOpaque refl

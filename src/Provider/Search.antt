-- ===== src/Provider/Search.antt =====
-- src/providers/gnewsProvider.ts: one search at the provider, in the two parts between which other
-- searches run: the admission by the circuit breaker, and the settlement once the retried call has
-- returned or failed. Spans and timers leave no trace in the result and are left out.
pub mod Reach
pub mod Laws
use news_api.Http.RetryAfter.{retry_after_from_headers}
use news_api.Base.Int.{ℤ}
use news_api.Provider.Circuit.{
  half_open, CircuitWorld, CircuitRequestState, record_provider_failure,
  should_record_provider_failure, record_canceled_probe, close_circuit, closed,
}
use news_api.Js.Text.{Text}
use news_api.Types.Article.{Json, arr, property, is_article_list, items}
use news_api.Errors.{
  Thrown, http_error_of, ErrorClass, Result, error, ErrorResponse, axios_error, no_error, plain,
  throw, http_error, ◌>>=◌, is_request_aborted_error, throw_if_aborted, ok, ◌>>◌, as_aborted,
}
use news_api.Base.{
  ℕ, Bool, true, false, not, ◌&&◌, ◌||◌, Option, none, some, List, ltb, ◌==◌, if◌then◌else◌, length,
}

-- `MAX_ARTICLE_COUNT` of src/constants.ts.
abbrev pub max_article_count : ℕ
max_article_count = 100

abbrev pub invalid_payload : Thrown
unfolding http_error_of
invalid_payload =
    http_error_of 502 "Invalid response from news provider" "invalid_provider_payload" none

abbrev pub articles_within_limit : Json → Result (List Json)
articles_within_limit (arr vs) =
    if not (is_article_list (arr vs)) || ltb max_article_count (length (items vs))
    then throw invalid_payload
    else ok (items vs)
articles_within_limit _ = throw invalid_payload

abbrev pub articles_property : Option Json → Result (List Json)
articles_property none = throw invalid_payload
articles_property (some v) = articles_within_limit v

-- `normalizeArticles(data)`: the value of the field `articles`, if it is a list of articles.
unfoldable pub normalize_articles : Json → Result (List Json)
normalize_articles data_ = articles_property (property "articles" data_)

module _ (date_parse : Text → Option ℤ) (now : ℕ) where
  abbrev pub error_of_response : Option ErrorResponse → Thrown
  error_of_response none =
      http_error_of 502 "Upstream news service unavailable" "upstream_unavailable" none
  error_of_response (some r) =
      if r.status == 429
      then http_error_of 429 "Upstream news service rate limit exceeded" "upstream_rate_limited"
          (retry_after_from_headers date_parse now r.headers)
      else if r.status == 503
      then http_error_of 503 "Upstream news service temporarily unavailable" "upstream_unavailable"
          (retry_after_from_headers date_parse now r.headers)
      else http_error_of 502 "Upstream news service unavailable" "upstream_unavailable" none

  -- `axios.isAxiosError(err)`, and then `mapAxiosError(err)`; any other error is thrown as it is.
  unfoldable pub map_axios_error : ErrorClass → Thrown → Thrown
  map_axios_error (axios_error response) err = error_of_response response
  map_axios_error cls err = err

-- The labels of `upstreamRequestsTotal`.
pub data UpstreamOutcome : Type 0 where
  success timeout canceled invalid_payload_outcome failed_outcome : UpstreamOutcome

-- Which of the signals that make up `requestSignal` are aborted when the call has returned.
pub record Signals : Type 0 where
  pub deadline : Bool
  pub request : Bool
  pub process : Bool

abbrev pub request_aborted_by : Signals → Bool
request_aborted_by s = s.request || s.process || s.deadline

-- The metrics and the result of a settlement, beside the circuit.
pub record Settled : Type 0 where
  pub world : CircuitWorld
  pub outcome : UpstreamOutcome
  pub result : Result (List Json)

abbrev pub class_of : Thrown → ErrorClass
class_of no_error = plain
class_of (error e) = e.cls

abbrev pub is_http_class : ErrorClass → Bool
is_http_class http_error = true
is_http_class _ = false

abbrev pub status_is : ℕ → Option ℕ → Bool
status_is n none = false
status_is n (some status) = status == n

-- `err instanceof HttpError && err.statusCode === 502`.
abbrev pub is_http_502 : Thrown → Bool
is_http_502 no_error = false
is_http_502 (error e) = is_http_class e.cls && status_is 502 e.status_code

-- The `try` block between the end of the retried call and its metrics.
abbrev pub settle_body : Signals → Result Json → Result (List Json)
settle_body s response =
    response >>= λ body. throw_if_aborted (request_aborted_by s) >> normalize_articles body

module _ (date_parse : Text → Option ℤ) (threshold : ℕ) where
  -- The last part of the `catch` block.
  abbrev pub settle_failure : CircuitRequestState → ℕ → Thrown → CircuitWorld → Settled
  settle_failure state now err w = record {
    world =
        if should_record_provider_failure err
        then record_provider_failure threshold now w
        else elim state [ closed ↦ w | half_open ↦ close_circuit w ];
    outcome = if is_http_502 err then invalid_payload_outcome else failed_outcome;
    result = throw (map_axios_error date_parse now (class_of err) err);
  }

  -- The `catch` block, for a request that was admitted in `state`.
  unfoldable pub settle_error : CircuitRequestState → ℕ → Signals → Thrown → CircuitWorld → Settled
  settle_error state now s err w =
      if s.deadline && not s.request && not s.process
      then record {
        world = record_provider_failure threshold now w;
        outcome = timeout;
        result = throw (error_of_response date_parse now none);
      }
      else if request_aborted_by s || is_request_aborted_error err
      then record {
        world = record_canceled_probe state now w;
        outcome = canceled;
        result = throw (as_aborted err);
      }
      else settle_failure state now err w

  -- The `try` block from the end of the retried call on: `response` is its result.
  unfoldable pub settle : CircuitRequestState → ℕ → Signals → Result Json → CircuitWorld → Settled
  unfolding settle_error normalize_articles
  settle state now s response w = elim (settle_body s response) [
    | ok articles ↦ record { world = close_circuit w; outcome = success; result = ok articles }
    | throw err ↦ settle_error state now s err w
  ]

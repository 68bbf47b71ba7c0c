-- ===== src/Client.antt =====
-- src/client/newsApiClient.ts: the requests that the client sends and what it makes of the answers.
-- `fetch`, URLs, `encodeURIComponent` and `JSON.parse` are the platform's, arguments of the model; a
-- header that is missing is `none`.
pub mod Calls
pub mod Laws
pub mod Contract
pub mod Revalidation
pub mod Tests
use news_api.Base.{
  ℕ, String, Bool, false, ◌&&◌, Option, none, some, List, [], ◌∷◌, ◌++◌, ◌==◌, if◌then◌else◌,
  is_some, or_else, get_or,
}
use news_api.Types.Article.{Json, property, obj, arr, null}
use news_api.Js.Text.{Text, codes}
use news_api.Js.Decimal.{show}
use news_api.Errors.{Thrown}
use mathlib.Core.List.{List, [], ◌∷◌, ◌++◌}

-- What makes a call of the client reject: its own error class, with the members of the error as they
-- came, the error for an answer of no known form, the error of `JSON.parse`, or one of the platform.
pub data ClientFailure : Type 0 where
  client_error :
      (status : ℕ) (code message request_id : Json) (retry_after : Option Text) → ClientFailure
  request_failed : (status : ℕ) → ClientFailure
  syntax_error : ClientFailure
  platform_error : Thrown → ClientFailure

pub data Outcome {ℓ} (A : Type ℓ) : Type ℓ where
  resolved : A → Outcome A
  rejected : ClientFailure → Outcome A

infixl 5 ◌>>=◌
abbrev pub ◌>>=◌ {ℓ κ} : {A : Type ℓ} {B : Type κ} → Outcome A → (A → Outcome B) → Outcome B
resolved a >>= f = f a
rejected e >>= f = rejected e

-- What the client reads of an answer: `text` is what `res.text()` gives.
pub record FetchResponse : Type 0 where
  pub status : ℕ
  pub is_ok : Bool
  pub etag : Option Text
  pub retry_after : Option Text
  pub text : Outcome Text

pub data ConditionalResult : Type 0 where
  modified : (etag : Option Text) (body : Option Json) → ConditionalResult
  not_modified : (etag : Option Text) → ConditionalResult

-- The value of a parameter of the query.
pub data QueryValue : Type 0 where
  undefined : QueryValue
  text_value : Text → QueryValue
  number_value : ℕ → QueryValue

pub record RequestOptions : Type 0 where
  pub query : List (Text × QueryValue)
  pub api_key : Option Text
  pub if_none_match : Option Text

abbrev pub no_options : RequestOptions
no_options = record { query = []; api_key = none; if_none_match = none }

abbrev pub Headers : Type 0
Headers = List (String × Text)

-- `url.searchParams.set(key, value)` is `set_param`; `url_of` and `encode_component` can throw.
pub record Platform : Type 1 where
  pub Url : Type 0
  pub url_of : Text → Outcome Url
  pub set_param : Text → Text → Url → Url
  pub encode_component : Text → Outcome Text
  pub parse : Text → Option Json
  pub fetch : Url → Option Headers → Outcome FetchResponse

abbrev pub slash : ℕ
slash = b'/'

-- `replace(/\/+$/, "")`.
unfoldable pub without_trailing_slashes : Text → Text
without_trailing_slashes [] = []
without_trailing_slashes (c ∷ s) = elim (without_trailing_slashes s) [
  | [] ↦ if c == slash then [] else c ∷ []
  | d ∷ r ↦ c ∷ d ∷ r
]

pub record NewsApiClient : Type 0 where
  pub base_url : Text
  pub api_key : Option Text

-- The constructor.
unfoldable pub new_client : Text → Option Text → NewsApiClient
unfolding without_trailing_slashes
new_client base_url api_key = record {
  base_url = without_trailing_slashes base_url;
  api_key = api_key;
}

-- A header whose value is missing or empty is not sent.
abbrev pub header : String → Option Text → Headers
header name none = []
header name (some []) = []
header name (some (c ∷ s)) = (name, c ∷ s) ∷ []

abbrev pub unless_empty : Headers → Option Headers
unless_empty [] = none
unless_empty (h ∷ hs) = some (h ∷ hs)

-- `requestHeaders(options)`.
unfoldable pub request_headers : NewsApiClient → RequestOptions → Option Headers
request_headers client options = unless_empty (
    header "X-API-Key" (or_else options.api_key client.api_key)
    ++ header "If-None-Match" options.if_none_match)

-- `isErrorEnvelope(value)`, of a body that can be undefined.
unfoldable pub is_error : Json → Bool
is_error error =
    is_some (property "code" error)
    && is_some (property "message" error)
    && is_some (property "requestId" error)

abbrev pub is_error_member : Option Json → Bool
is_error_member none = false
is_error_member (some error) = is_error error

unfoldable pub is_error_envelope : Option Json → Bool
unfolding is_error
is_error_envelope none = false
is_error_envelope (some body) = is_error_member (property "error" body)

abbrev pub member : String → Option Json → Option Json
member key none = none
member key (some v) = property key v

-- `new NewsApiClientError(status, error, retryAfter)`; the members are there, by the guard above.
abbrev pub client_error_of : ℕ → Option Json → Option Text → ClientFailure
client_error_of status error retry_after =
    client_error status (get_or (member "code" error) null) (get_or (member "message" error) null)
      (get_or (member "requestId" error) null) retry_after

-- `throwForError(res, body)`.
unfoldable pub throw_for_error : FetchResponse → Option Json → Outcome (Unit {0})
unfolding is_error_envelope
throw_for_error res body =
    if res.is_ok
    then resolved tt
    else if is_error_envelope body
    then rejected (client_error_of res.status (member "error" body) res.retry_after)
    else rejected (request_failed res.status)

module _ (P : Platform) where
  abbrev pub set_value : Text → QueryValue → P.Url → P.Url
  set_value key undefined url = url
  set_value key (text_value v) url = P.set_param key v url
  set_value key (number_value n) url = P.set_param key (show n) url

  abbrev pub set_params : List (Text × QueryValue) → P.Url → P.Url
  set_params [] url = url
  set_params (p ∷ ps) url = set_params ps (set_value p.0 p.1 url)

  -- `buildUrl(path, query)`.
  unfoldable pub build_url : NewsApiClient → Text → List (Text × QueryValue) → Outcome P.Url
  build_url client path query =
      P.url_of (client.base_url ++ path) >>= λ url. resolved (set_params query url)

  unfoldable pub request : NewsApiClient → Text → RequestOptions → Outcome FetchResponse
  unfolding build_url request_headers
  request client path options =
      build_url client path options.query >>= λ url. P.fetch url (request_headers client options)

  abbrev pub parse_text : Text → Outcome (Option Json)
  parse_text [] = resolved none
  parse_text (c ∷ s) = elim (P.parse (c ∷ s)) [
    | none ↦ rejected syntax_error
    | some v ↦ resolved (some v)
  ]

  -- `readJson(res)`.
  unfoldable pub read_json : FetchResponse → Outcome (Option Json)
  read_json res = res.text >>= parse_text

  abbrev pub json_answer : FetchResponse → Outcome (Option Json)
  json_answer res = read_json res >>= λ body. throw_for_error res body >>= λ _. resolved body

  abbrev pub conditional_answer : FetchResponse → Outcome ConditionalResult
  conditional_answer res =
      if res.status == 304
      then resolved (not_modified res.etag)
      else json_answer res >>= λ body. resolved (modified res.etag body)

  unfoldable pub get_json : NewsApiClient → Text → RequestOptions → Outcome (Option Json)
  unfolding request read_json throw_for_error
  get_json client path options = request client path options >>= json_answer

  unfoldable pub get_conditional_json :
      NewsApiClient → Text → RequestOptions → Outcome ConditionalResult
  unfolding request read_json throw_for_error
  get_conditional_json client path options = request client path options >>= conditional_answer

-- ===== src/Errors.antt =====
-- Thrown values: src/errors/HttpError.ts, the two classes that src/runtime/requestCancellation.ts
-- and src/cache/store.ts declare, and what the program asks of any other value that is thrown.
use news_api.Base.{
  ◌≢◌, ◌⊎◌, inl, inr, ℕ, String, Bool, true, false, ◌||◌, Option, none, some, List, str_eq, str_is,
  if◌then◌else◌, ◌≡◌, refl, arith,
}
use news_api.Js.Text.{Text}

-- The value of a header or of a query parameter: `undefined` or `null`, a string, an array of
-- strings, or anything else.
pub data HeaderValue : Type 0 where
  nullish : HeaderValue
  text : Text → HeaderValue
  texts : List Text → HeaderValue
  other : HeaderValue

-- The headers of the provider's answer: what its `get("retry-after")` returns, if it has such a
-- method, and the two spellings of the plain field.
pub record ResponseHeaders : Type 0 where
  pub get : Option HeaderValue
  pub retry_after : HeaderValue
  pub retry_after_title : HeaderValue

-- The provider's HTTP response to a failed call, as axios reports it.
pub record ErrorResponse : Type 0 where
  pub status : ℕ
  pub headers : Option ResponseHeaders

-- What `instanceof` and `axios.isAxiosError` tell of an error.
pub data ErrorClass : Type 0 where
  http_error request_aborted cache_corruption plain : ErrorClass
  axios_error : Option ErrorResponse → ErrorClass

-- An instance of `Error`. A property that is missing or of another type is `none`.
pub record ErrorObject : Type 0 where
  pub cls : ErrorClass
  pub name : String
  pub message : String
  pub code : Option String
  pub status_code : Option ℕ
  pub retry_after : Option Text
  pub body_type : Option String

-- Any value can be thrown.
pub data Thrown : Type 0 where
  error : ErrorObject → Thrown
  no_error : Thrown

-- What a call that may throw gives.
pub data Result {ℓ} (A : Type ℓ) : Type ℓ where
  ok : A → Result A
  throw : Thrown → Result A

infixl 5 ◌>>=◌ ◌>>◌
abbrev pub ◌>>=◌ {ℓ κ} : {A : Type ℓ} {B : Type κ} → Result A → (A → Result B) → Result B
ok a >>= f = f a
throw e >>= f = throw e

abbrev pub ◌>>◌ {ℓ κ} : {A : Type ℓ} {B : Type κ} → Result A → Result B → Result B
m >> k = m >>= λ _. k

-- A split on a computed result.
pub Result-cases {ℓ} :
    {A : Type ℓ} (r : Result A) → ((a : A) × (r ≡ ok a)) ⊎ ((e : Thrown) × (r ≡ throw e))
Result-cases (ok a) = inl (a, refl)
Result-cases (throw e) = inr (e, refl)

-- A call that threw returned nothing.
pub ok-ne-throw {ℓ} : {A : Type ℓ} (a : A) (e : Thrown) → throw e ≢ ok a
ok-ne-throw a e = cc

-- `new HttpError(statusCode, message, code, retryAfter)`.
unfoldable pub http_error_of : ℕ → String → String → Option Text → Thrown
http_error_of status message code retry_after = error (record {
  cls = http_error;
  name = "HttpError";
  message = message;
  code = some code;
  status_code = some status;
  retry_after = retry_after;
  body_type = none;
})

-- `new RequestAbortedError()`.
unfoldable pub request_aborted_error : Thrown
request_aborted_error = error (record {
  cls = request_aborted;
  name = "AbortError";
  message = "request aborted";
  code = none;
  status_code = none;
  retry_after = none;
  body_type = none;
})

abbrev pub is_aborted_class : ErrorClass → Bool
is_aborted_class request_aborted = true
is_aborted_class _ = false

-- `error instanceof RequestAbortedError`.
abbrev pub is_aborted_instance : Thrown → Bool
is_aborted_instance no_error = false
is_aborted_instance (error e) = is_aborted_class e.cls

-- `isRequestAbortedError(error)`.
unfoldable pub is_request_aborted_error : Thrown → Bool
is_request_aborted_error no_error = false
is_request_aborted_error (error e) =
    is_aborted_class e.cls
    || str_eq e.name "AbortError"
    || str_is e.code "ABORT_ERR"
    || str_is e.code "ERR_CANCELED"

-- `throwIfAborted(signal)`, for a signal that is or is not aborted.
unfoldable pub throw_if_aborted : Bool → Result (Unit {0})
throw_if_aborted aborted = if aborted then throw request_aborted_error else ok tt

-- `err instanceof RequestAbortedError ? err : new RequestAbortedError()`.
unfoldable pub as_aborted : Thrown → Thrown
as_aborted e = if is_aborted_instance e then e else request_aborted_error

-- However a cancellation is reported, it is one.
pub is_request_aborted-as_aborted : (e : Thrown) → is_request_aborted_error (as_aborted e) ≡ true
unfolding as_aborted is_request_aborted_error request_aborted_error
is_request_aborted-as_aborted no_error = refl
is_request_aborted-as_aborted (error e) = ground arith

-- A cancellation, as it is thrown, is one.
pub is_request_aborted_self : is_request_aborted_error request_aborted_error ≡ true
unfolding is_request_aborted_error request_aborted_error
is_request_aborted_self = refl

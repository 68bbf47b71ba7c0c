-- ===== src/Http/RetryAfter.antt =====
-- src/http/retryAfter.ts: provider timing as a bounded number of seconds. `Date.parse` and the
-- clock are arguments; `date_parse` gives `none` for NaN.
pub mod Laws
use news_api.Base.{
  ℕ, ◌+◌, ◌/◌, ◌*◌, min, Bool, false, not, ◌&&◌, ◌||◌, Option, none, some, [], ◌∷◌, ◌==◌,
  if◌then◌else◌, length, all,
}
use news_api.Base.Int.{ℤ, excess}
use news_api.Js.Text.{Text, trim, is_digit}
use news_api.Js.Number.{is_safe_integer, to_number}
use news_api.Js.Decimal.{show}
use news_api.Config.Numbers.{magnitude}
use news_api.Errors.{HeaderValue, nullish, text, texts, other, ResponseHeaders}

-- `MAX_RETRY_AFTER_SECONDS` of src/constants.ts.
abbrev pub max_retry_after_seconds : ℕ
max_retry_after_seconds = 24 * 60 * 60

-- `Array.isArray(value) ? value[0] : value`, if that is a string.
abbrev pub raw_text : HeaderValue → Option Text
raw_text (text s) = some s
raw_text (texts (s ∷ _)) = some s
raw_text _ = none

-- `/^\d+$/`.
unfoldable pub is_number_text : Text → Bool
unfolding is_digit
is_number_text s = not (length s == 0) && all is_digit s

-- `/^[+-]?\d+$/`.
unfoldable pub is_signed_number_text : Text → Bool
unfolding is_number_text
is_signed_number_text [] = false
is_signed_number_text (c ∷ s) =
    is_number_text (c ∷ s) || ((c == b'+' || c == b'-') && is_number_text s)

-- `a ?? b` of two header values.
abbrev pub or_value : HeaderValue → HeaderValue → HeaderValue
or_value nullish b = b
or_value a b = a

module _ (date_parse : Text → Option ℤ) (now : ℕ) where
  -- The branch of a date: the seconds from now on, rounded up, none below 0.
  unfoldable pub seconds_until : Text → Option Text
  seconds_until s = elim (date_parse s) [
    | none ↦ none
    | some retry_at ↦ some (show (min ((excess retry_at now + 999) / 1000) max_retry_after_seconds))
  ]

  abbrev pub normalize_trimmed : Text → Option Text
  normalize_trimmed s =
      if is_number_text s
      then (if is_safe_integer (to_number s)
          then some (show (min (magnitude (to_number s)) max_retry_after_seconds))
          else none)
      else if is_signed_number_text s
      then none
      else seconds_until s

  unfoldable pub normalize_retry_after : HeaderValue → Option Text
  unfolding seconds_until
  normalize_retry_after value = elim (raw_text value) [
    | none ↦ none
    | some raw ↦ normalize_trimmed (trim raw)
  ]

  -- `none` stands for headers that are no object.
  unfoldable pub retry_after_from_headers : Option ResponseHeaders → Option Text
  unfolding normalize_retry_after
  retry_after_from_headers none = none
  retry_after_from_headers (some headers) =
      let plain = normalize_retry_after (or_value headers.retry_after headers.retry_after_title) in
      elim headers.get [
        | none ↦ plain
        | some value ↦ elim (normalize_retry_after value) [
          | some normalized ↦ some normalized
          | none ↦ plain
        ]
      ]

-- ===== src/Http/RetryAfter/Laws.antt =====
-- What a normalised `Retry-After` can be.
use news_api.Base.{
  ℕ, ◌≤◌, min, ◌≡◌, refl, inl, inr, true, Option, none, some, [], ◌∷◌, arith, all, Option-cases,
  Bool-cases,
}
use news_api.Base.Int.{ℤ}
use news_api.Js.Text.{Text, trim, is_digit}
use news_api.Js.Number.{is_safe_integer, to_number, max_safe, to_number-show, trim_of_IsDigits}
use news_api.Js.Decimal.{show, IsDigits, show-IsDigits, show-cons}
use news_api.Config.Numbers.{magnitude}
use news_api.Errors.{HeaderValue, text, ResponseHeaders}
use news_api.Http.RetryAfter.{
  max_retry_after_seconds, raw_text, is_number_text, is_signed_number_text, seconds_until,
  normalize_trimmed, normalize_retry_after, or_value, retry_after_from_headers,
}

-- The decimal of a number of seconds, a day at most.
abbrev pub IsBoundedSeconds : Option Text → Type 0
IsBoundedSeconds none = Unit
IsBoundedSeconds (some s) = (n : ℕ) × (n ≤ max_retry_after_seconds) × (s ≡ show n)

all_of_All : (s : Text) → IsDigits s → all is_digit s ≡ true
all_of_All [] h = refl
all_of_All (c ∷ s) h = rw h.0 (all_of_All s h.1)

is_number_text-show : (n : ℕ) → is_number_text (show n) ≡ true
unfolding is_number_text
is_number_text-show n =
    let (c, s, e) = show-cons n in rw (all_of_All (show n) (show-IsDigits n), e) (ground arith)

module _ (date_parse : Text → Option ℤ) (now : ℕ) where
  seconds_until-IsBoundedSeconds : (s : Text) → IsBoundedSeconds (seconds_until date_parse now s)
  unfolding seconds_until
  seconds_until-IsBoundedSeconds s = elim (Option-cases (date_parse s)) [
    | inl e ↦ rw (e, IsBoundedSeconds) tt
    | inr (t, e) ↦ rw (e, IsBoundedSeconds) (_, omega arith, refl)
  ]

  normalize_trimmed-IsBoundedSeconds :
      (s : Text) → IsBoundedSeconds (normalize_trimmed date_parse now s)
  normalize_trimmed-IsBoundedSeconds s = elim (Bool-cases (is_number_text s)) [
    | inl digits ↦ elim (Bool-cases (is_safe_integer (to_number s))) [
      | inl safe ↦ rw (digits, safe) (_, omega arith, refl)
      | inr unsafe ↦ rw (digits, unsafe) tt
    ]
    | inr date ↦ elim (Bool-cases (is_signed_number_text s)) [
      | inl signed ↦ rw (date, signed) tt
      | inr free ↦ rw (date, free) (seconds_until-IsBoundedSeconds s)
    ]
  ]

  -- Whatever the provider sends, what is passed on is the decimal of at most a day of seconds.
  pub normalize_retry_after-IsBoundedSeconds :
      (value : HeaderValue) → IsBoundedSeconds (normalize_retry_after date_parse now value)
  unfolding normalize_retry_after
  normalize_retry_after-IsBoundedSeconds value = elim (Option-cases (raw_text value)) [
    | inl e ↦ rw (e, IsBoundedSeconds) tt
    | inr (raw, e) ↦ rw (e, IsBoundedSeconds) (normalize_trimmed-IsBoundedSeconds (trim raw))
  ]

  -- Whatever the headers of a response hold, the timing that is passed on is none, or the decimal
  -- of at most a day of seconds.
  pub retry_after_from_headers-IsBoundedSeconds :
      (headers : Option ResponseHeaders)
      → IsBoundedSeconds (retry_after_from_headers date_parse now headers)
  unfolding retry_after_from_headers
  retry_after_from_headers-IsBoundedSeconds none = tt
  retry_after_from_headers-IsBoundedSeconds (some h) =
      let plain =
        normalize_retry_after-IsBoundedSeconds (or_value h.retry_after h.retry_after_title) in
      elim (Option-cases h.get) [
        | inl e ↦ rw (e, IsBoundedSeconds) plain
        | inr (v, e) ↦ elim (Option-cases (normalize_retry_after date_parse now v)) [
          | inl missed ↦ rw (e, missed, IsBoundedSeconds) plain
          | inr (s, found) ↦
              rw (e, found, IsBoundedSeconds)
                (rw found at (normalize_retry_after-IsBoundedSeconds v))
        ]
      ]

  -- A header that is a number of seconds, at most the greatest safe integer, is kept up to the
  -- maximum.
  pub normalize_retry_after-show :
      (n : ℕ)
      → n ≤ max_safe
      → normalize_retry_after date_parse now (text (show n))
        ≡ some (show (min n max_retry_after_seconds))
  unfolding normalize_retry_after is_safe_integer magnitude
  normalize_retry_after-show n h =
      rw (trim_of_IsDigits (show n) (show-IsDigits n), is_number_text-show n, to_number-show n h)
        (ground arith)

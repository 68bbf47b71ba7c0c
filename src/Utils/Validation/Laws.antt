-- ===== src/Utils/Validation/Laws.antt =====
-- What a validated query can be.
-- A client's mistake: status 400 and no timing.
use news_api.Js.Decimal.{show, show-cons}
use news_api.Http.RetryAfter.{or_value}
use news_api.Config.Numbers.{is_negative, magnitude}
use news_api.Js.Number.{is_integer, max_safe, to_number-show}
use news_api.Provider.Search.{max_article_count}
use news_api.Base.Int.{ℤ}
use news_api.Js.Text.{Text, is_letter, to_lower, text_eq, codes}
use news_api.Utils.Validation.{
  is_positive_integer, is_two_letter_code, optional_string, parse_article_count, parse_sort_by,
  parse_two_letter_code, require_query_string, check_code, check_optional, check_sort, number_of, ℤ,
  ArticleSearchFilters, check_date, is_integer, max_article_count, max_search_text_length,
  parse_article_search_filters, parse_iso_date, parse_limited, FilterQuery, is_absent, is_bad_range,
  is_negative, trimmed_text, or_value, filters_with,
}
use news_api.Errors.{
  ◌>>=◌, Result, Thrown, HeaderValue, http_error_of, ok, text, throw, texts, nullish, other,
}
use news_api.Base.{
  ℕ, ◌≤◌, ◌<◌, min, String, ◌≡◌, refl, inl, inr, true, false, not, ◌&&◌, Option, none, some, [],
  ◌∷◌, arith, ltb, ◌==◌, Bool-cases, Option-cases, length, All,
}

abbrev pub IsBadRequest : Thrown → Type 0
IsBadRequest e = (message : String) × (code : String) × (e ≡ http_error_of 400 message code none)

-- A parameter is accepted with what `P` says, or answered with 400.
abbrev pub Accepts : {A : Type 0} → (A → Type 0) → Result A → Type 0
Accepts P (ok a) = P a
Accepts P (throw e) = IsBadRequest e

pub bind-Accepts :
    {A B : Type 0} (P : A → Type 0) (Q : B → Type 0) (m : Result A) (f : A → Result B)
    → Accepts P m
    → ((a : A) → P a → Accepts Q (f a))
    → Accepts Q (m >>= f)
bind-Accepts P Q (ok a) f h next = next a h
bind-Accepts P Q (throw e) f h next = h

pub parse_limited-Accepts :
    (fallback maximum : ℕ) (message code : String) (raw : HeaderValue)
    → 0 < fallback
    → fallback ≤ maximum
    → Accepts (λ n. (0 < n) × (n ≤ maximum)) (parse_limited fallback maximum message code raw)
unfolding is_positive_integer
parse_limited-Accepts fallback maximum message code raw pos le = elim (Bool-cases (is_absent raw)) [
  | inl absent ↦ rw absent (pos, le)
  | inr there ↦ elim (Bool-cases (not (is_positive_integer (number_of raw)))) [
    | inl bad ↦ rw (there, bad) (message, code, refl)
    | inr good ↦ rw (there, good) (ground arith)
  ]
]

-- A count is accepted as 1 to 100, whatever is sent, or the answer is 400.
pub parse_article_count-Accepts :
    (raw : HeaderValue) → Accepts (λ n. (0 < n) × (n ≤ max_article_count)) (parse_article_count raw)
unfolding parse_article_count
parse_article_count-Accepts raw = parse_limited-Accepts 10 100 _ _ raw (omega arith) (omega arith)

-- A count written as a positive decimal, at most the greatest safe integer, is taken as it is up
-- to 100.
pub parse_article_count-show :
    (n : ℕ)
    → 0 < n
    → n ≤ max_safe
    → parse_article_count (text (show n)) ≡ ok (min n max_article_count)
unfolding parse_article_count is_positive_integer number_of is_integer is_negative magnitude
parse_article_count-show n pos safe =
    let (c, s, e) = show-cons n in
    let there : (length (show n) == 0) ≡ false = rw e (ground arith) in
    rw (there, to_number-show n safe) (ground arith)

-- A required text is accepted without white space around it, neither empty nor longer than 256
-- characters, or the answer is 400.
pub require_query_string-Accepts :
    (value : HeaderValue) (field_name : String)
    → Accepts
        (λ s. (0 < length s) × (length s ≤ max_search_text_length) × (s ≡ trimmed_text value))
        (require_query_string value field_name)
unfolding require_query_string
require_query_string-Accepts value field_name =
    elim (Bool-cases (length (trimmed_text value) == 0)) [
      | inl empty ↦ rw empty (_, _, refl)
      | inr full ↦ elim (Bool-cases (ltb max_search_text_length (length (trimmed_text value)))) [
        | inl long ↦ rw (full, long) (_, _, refl)
        | inr short ↦ rw (full, short) (ground arith, ground arith, refl)
      ]
    ]

-- Two lower case letters.
abbrev pub IsCode : Option Text → Type 0
IsCode none = Unit
IsCode (some s) = (length s ≡ 2) × All (λ c. (b'a' ≤ c) × (c ≤ b'z')) s

to_lower-bounds : (c : ℕ) → is_letter c ≡ true → (b'a' ≤ to_lower c) × (to_lower c ≤ b'z')
unfolding is_letter to_lower
to_lower-bounds c h = ground arith

optional_string-Accepts :
    (value : HeaderValue) (field_name : String)
    → Accepts (λ o. Unit {0}) (optional_string value field_name)
unfolding optional_string
optional_string-Accepts nullish field_name = tt
optional_string-Accepts (text s) field_name = tt
optional_string-Accepts (texts ss) field_name = (_, _, refl)
optional_string-Accepts other field_name = (_, _, refl)

check_code-Accepts :
    (field_name : String) (s : Text) → Accepts (λ t. IsCode (some t)) (check_code field_name s)
unfolding is_two_letter_code
check_code-Accepts field_name [] = (_, _, refl)
check_code-Accepts field_name (a ∷ []) = (_, _, refl)
check_code-Accepts field_name (a ∷ b ∷ c ∷ s) = (_, _, refl)
check_code-Accepts field_name (a ∷ b ∷ []) = elim (Bool-cases (is_letter a && is_letter b)) [
  | inl good ↦
      rw good (refl, (to_lower-bounds a (ground arith), (to_lower-bounds b (ground arith), tt)))
  | inr bad ↦ rw bad (_, _, refl)
]

check_optional-Accepts :
    {A : Type 0} (P : Option A → Type 0) (check : Text → Result A) (o : Option Text)
    → P none
    → ((s : Text) → Accepts (λ a. P (some a)) (check s))
    → Accepts P (check_optional check o)
check_optional-Accepts P check none n h = n
check_optional-Accepts P check (some s) n h =
    bind-Accepts (λ a. P (some a)) P (check s) (λ a. ok (some a)) (h s) (λ a p. p)

parse_two_letter_code-Accepts :
    (value : HeaderValue) (field_name : String)
    → Accepts IsCode (parse_two_letter_code value field_name)
unfolding parse_two_letter_code
parse_two_letter_code-Accepts value field_name =
    bind-Accepts (λ o. Unit {0}) IsCode (optional_string value field_name) _
      (optional_string-Accepts value field_name)
      (λ o _.
        check_optional-Accepts IsCode (check_code field_name) o tt (check_code-Accepts field_name))

check_sort-Accepts : (s : Text) → Accepts (λ a. Unit {0}) (check_sort s)
check_sort-Accepts s = elim (Bool-cases (text_eq s (codes "publishedAt"))) [
  | inl newest ↦ rw newest tt
  | inr other_ ↦ elim (Bool-cases (text_eq s (codes "relevance"))) [
    | inl best ↦ rw (other_, best) tt
    | inr bad ↦ rw (other_, bad) (_, _, refl)
  ]
]

parse_sort_by-Accepts : (value : HeaderValue) → Accepts (λ o. Unit {0}) (parse_sort_by value)
unfolding parse_sort_by
parse_sort_by-Accepts value =
    bind-Accepts (λ o. Unit {0}) (λ o. Unit {0}) (optional_string value "sortBy") _
      (optional_string-Accepts value "sortBy")
      (λ o _. check_optional-Accepts (λ o. Unit {0}) check_sort o tt check_sort-Accepts)

filters_with-Accepts :
    (query : FilterQuery) (from to : Option Text)
    → Accepts
        (λ f. IsCode f.lang × IsCode f.country × (f.from ≡ from) × (f.to ≡ to))
        (filters_with query from to)
unfolding filters_with
filters_with-Accepts query from to =
    bind-Accepts (λ o. Unit {0}) _ _ _ (parse_sort_by-Accepts (or_value query.sort_by query.sortby))
      (λ sort_by _.
        bind-Accepts IsCode _ _ _ (parse_two_letter_code-Accepts query.lang "lang") (λ lang hl.
          bind-Accepts IsCode _ _ _ (parse_two_letter_code-Accepts query.country "country")
            (λ country hc. (hl, hc, refl, refl))))

weaken-Accepts :
    {A : Type 0} (P Q : A → Type 0) (m : Result A)
    → Accepts P m
    → ((a : A) → P a → Accepts Q (ok a))
    → Accepts Q m
weaken-Accepts P Q (ok a) h f = f a h
weaken-Accepts P Q (throw e) h f = h

module _ (date_parse : Text → Option ℤ) (to_iso : ℤ → Text) where
  -- A date is the ISO text of a time that was read from the parameter.
  abbrev pub IsIsoDate : Option Text → Type 0
  IsIsoDate none = Unit
  IsIsoDate (some s) = (t : ℤ) × (s ≡ to_iso t)

  -- Filters fit to be sent: codes of two lower case letters, dates in ISO form, in order.
  pub record AreValidFilters (f : ArticleSearchFilters) : Type 0 where
    pub lang_code : IsCode f.lang
    pub country_code : IsCode f.country
    pub from_date : IsIsoDate f.from
    pub to_date : IsIsoDate f.to
    pub ordered : is_bad_range date_parse to_iso f.from f.to ≡ false

  check_date-Accepts :
      (field_name : String) (s : Text)
      → Accepts (λ d. IsIsoDate (some d)) (check_date date_parse to_iso field_name s)
  check_date-Accepts field_name s = elim (Option-cases (date_parse s)) [
    | inl bad ↦ rw (Accepts, bad) (_, _, refl)
    | inr (t, read) ↦ rw (Accepts, read) (t, refl)
  ]

  parse_iso_date-Accepts :
      (value : HeaderValue) (field_name : String)
      → Accepts IsIsoDate (parse_iso_date date_parse to_iso value field_name)
  unfolding parse_iso_date
  parse_iso_date-Accepts value field_name =
      bind-Accepts (λ o. Unit {0}) IsIsoDate (optional_string value field_name) _
        (optional_string-Accepts value field_name)
        (λ o _.
          check_optional-Accepts IsIsoDate (check_date date_parse to_iso field_name) o tt
            (check_date-Accepts field_name))

  -- For every query, either the filters are fit to be sent, or the answer is 400.
  pub parse_article_search_filters-Accepts :
      (query : FilterQuery)
      → Accepts AreValidFilters (parse_article_search_filters date_parse to_iso query)
  unfolding parse_article_search_filters
  parse_article_search_filters-Accepts query =
      bind-Accepts IsIsoDate AreValidFilters (parse_iso_date date_parse to_iso query.from "from") _
        (parse_iso_date-Accepts query.from "from")
        (λ from hf.
          bind-Accepts IsIsoDate AreValidFilters (parse_iso_date date_parse to_iso query.to "to") _
            (parse_iso_date-Accepts query.to "to")
            (λ to ht. elim (Bool-cases (is_bad_range date_parse to_iso from to)) [
              | inl bad ↦ rw bad (_, _, refl)
              | inr order ↦ rw order (
                  weaken-Accepts _ AreValidFilters _ (filters_with-Accepts query from to) (λ f h.
                    record {
                      lang_code = h.0;
                      country_code = h.1;
                      from_date = rw h.2 hf;
                      to_date = rw h.3 ht;
                      ordered = rw (h.2, h.3) order;
                    }))
            ]))

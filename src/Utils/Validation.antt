-- ===== src/Utils/Validation.antt =====
-- src/utils/validation.ts: the query parameters of a search. A parameter is a `HeaderValue`;
-- `other` is an object, whose `Number` is NaN. `Date.parse` and `toISOString` are arguments.
pub mod Laws
use news_api.Http.Conditional.{join_comma}
use news_api.Http.RetryAfter.{or_value}
use news_api.Config.Numbers.{is_negative, magnitude}
use news_api.Base.Int.{ℤ, ltb_ℤ}
use news_api.Provider.Search.{max_article_count}
use news_api.Js.Text.{Text, is_letter, text_eq, codes, to_lower, trim}
use news_api.Js.Number.{Number, is_integer, nan, to_number}
use news_api.Errors.{
  HeaderValue, Result, ok, text, throw, ◌>>=◌, http_error_of, nullish, texts, other,
}
use news_api.Base.{
  ℕ, min, String, Bool, true, false, not, ◌&&◌, Option, none, some, [], ◌∷◌, map, ltb, ◌==◌,
  if◌then◌else◌, length,
}
use Prim.Native.String.{◌++◌}

abbrev pub default_article_count : ℕ
default_article_count = 10

abbrev pub default_article_page : ℕ
default_article_page = 1

abbrev pub max_article_page : ℕ
max_article_page = 100

abbrev pub max_search_text_length : ℕ
max_search_text_length = 256

abbrev pub bad_request : {A : Type 0} → String → String → Result A
bad_request message code = throw (http_error_of 400 message code none)

-- `raw === undefined || raw === null || raw === ""`.
abbrev pub is_absent : HeaderValue → Bool
is_absent nullish = true
is_absent (text s) = length s == 0
is_absent _ = false

-- `Number(raw)`: an array is joined by commas first; `null` is asked for nowhere. `other` is an
-- object that keeps the `toString` of objects: on one with a `toString` of its own, which Express 4
-- makes of `count[toString]=x`, `Number` throws a TypeError.
unfoldable pub number_of : HeaderValue → Number
number_of nullish = nan
number_of (text s) = to_number s
number_of (texts ss) = to_number (join_comma ss)
number_of other = nan

-- `!Number.isInteger(n) || n < 1` is false.
unfoldable pub is_positive_integer : Number → Bool
is_positive_integer n = is_integer n && not (is_negative n) && ltb 0 (magnitude n)

abbrev pub parse_limited : ℕ → ℕ → String → String → HeaderValue → Result ℕ
parse_limited fallback maximum message code raw =
    if is_absent raw
    then ok fallback
    else if not (is_positive_integer (number_of raw))
    then bad_request message code
    else ok (min (magnitude (number_of raw)) maximum)

unfoldable pub parse_article_count : HeaderValue → Result ℕ
parse_article_count raw =
    parse_limited default_article_count max_article_count "count must be a positive integer"
      "invalid_count" raw

unfoldable pub parse_article_page : HeaderValue → Result ℕ
parse_article_page raw =
    parse_limited default_article_page max_article_page "page must be a positive integer"
      "invalid_page" raw

-- `typeof value === "string" ? value.trim() : ""`.
abbrev pub trimmed_text : HeaderValue → Text
trimmed_text (text s) = trim s
trimmed_text _ = []

unfoldable pub require_query_string : HeaderValue → String → Result Text
require_query_string value field_name =
    let s = trimmed_text value in
    if length s == 0
    then bad_request ("Missing or empty query parameter: " ++ field_name) "missing_query_parameter"
    else if ltb max_search_text_length (length s)
    then bad_request (field_name ++ " must be at most 256 characters")
        ("invalid_" ++ field_name ++ "_length")
    else ok s

abbrev pub non_empty : Text → Option Text
non_empty [] = none
non_empty (c ∷ s) = some (c ∷ s)

-- `optionalString(value, fieldName)`.
unfoldable pub optional_string : HeaderValue → String → Result (Option Text)
optional_string nullish field_name = ok none
optional_string (text s) field_name = ok (non_empty (trim s))
optional_string _ field_name =
    bad_request (field_name ++ " must be a string") "invalid_query_parameter"

-- A check of the text of a parameter, if it has one.
abbrev pub check_optional : {A : Type 0} → (Text → Result A) → Option Text → Result (Option A)
check_optional check none = ok none
check_optional check (some s) = check s >>= λ a. ok (some a)

-- `/^[a-z]{2}$/i`.
unfoldable pub is_two_letter_code : Text → Bool
is_two_letter_code (a ∷ b ∷ []) = is_letter a && is_letter b
is_two_letter_code _ = false

abbrev pub check_code : String → Text → Result Text
check_code field_name s =
    if not (is_two_letter_code s)
    then bad_request (field_name ++ " must be a two-letter code") ("invalid_" ++ field_name)
    else ok (map to_lower s)

unfoldable pub parse_two_letter_code : HeaderValue → String → Result (Option Text)
unfolding is_two_letter_code optional_string
parse_two_letter_code value field_name =
    optional_string value field_name >>= check_optional (check_code field_name)

pub data ArticleSortBy : Type 0 where
  published_at relevance : ArticleSortBy

abbrev pub check_sort : Text → Result ArticleSortBy
check_sort s =
    if text_eq s (codes "publishedAt")
    then ok published_at
    else if text_eq s (codes "relevance")
    then ok relevance
    else bad_request "sortBy must be one of: publishedAt, relevance" "invalid_sort_by"

unfoldable pub parse_sort_by : HeaderValue → Result (Option ArticleSortBy)
unfolding optional_string
parse_sort_by value = optional_string value "sortBy" >>= check_optional check_sort

-- The parameters of a search that are filters; `sort_by` and `sortby` are its two spellings.
pub record FilterQuery : Type 0 where
  pub from : HeaderValue
  pub to : HeaderValue
  pub lang : HeaderValue
  pub country : HeaderValue
  pub sort_by : HeaderValue
  pub sortby : HeaderValue

pub record ArticleSearchFilters : Type 0 where
  pub lang : Option Text
  pub country : Option Text
  pub from : Option Text
  pub to : Option Text
  pub sort_by : Option ArticleSortBy

-- The filters other than the range of dates.
unfoldable pub filters_with : FilterQuery → Option Text → Option Text → Result ArticleSearchFilters
unfolding parse_sort_by parse_two_letter_code
filters_with query from to = parse_sort_by (or_value query.sort_by query.sortby) >>= λ sort_by.
    parse_two_letter_code query.lang "lang" >>= λ lang.
    parse_two_letter_code query.country "country" >>= λ country.
    ok (record { lang = lang; country = country; from = from; to = to; sort_by = sort_by })

module _ (date_parse : Text → Option ℤ) (to_iso : ℤ → Text) where
  -- A time value outside the range of dates cannot come from `Date.parse`.
  abbrev pub check_date : String → Text → Result Text
  check_date field_name s = elim (date_parse s) [
    | none ↦ bad_request (field_name ++ " must be an ISO 8601 date") ("invalid_" ++ field_name)
    | some timestamp ↦ ok (to_iso timestamp)
  ]

  unfoldable pub parse_iso_date : HeaderValue → String → Result (Option Text)
  unfolding optional_string
  parse_iso_date value field_name =
      optional_string value field_name >>= check_optional (check_date field_name)

  -- `Date.parse(from) > Date.parse(to)`; a comparison with NaN is false.
  abbrev pub is_after : Option ℤ → Option ℤ → Bool
  is_after (some a) (some b) = ltb_ℤ b a
  is_after _ _ = false

  -- `from && to && Date.parse(from) > Date.parse(to)`.
  abbrev pub is_bad_range : Option Text → Option Text → Bool
  is_bad_range (some a) (some b) = is_after (date_parse a) (date_parse b)
  is_bad_range _ _ = false

  unfoldable pub parse_article_search_filters : FilterQuery → Result ArticleSearchFilters
  unfolding parse_iso_date
  parse_article_search_filters query = parse_iso_date query.from "from" >>= λ from.
      parse_iso_date query.to "to" >>= λ to.
      if is_bad_range from to
      then bad_request "from must be before or equal to to" "invalid_date_range"
      else filters_with query from to

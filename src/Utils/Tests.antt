-- ===== src/Utils/Tests.antt =====
-- Queries at concrete parameters.
use news_api.Errors.{text, nullish, ok}
use news_api.Base.Int.{ℤ, pos}
use news_api.Js.Text.{Text, trim, codes, is_letter, to_lower, text_eq}
use news_api.Utils.Validation.{
  FilterQuery, parse_article_search_filters, parse_iso_date, optional_string, filters_with,
  parse_sort_by, parse_two_letter_code, is_two_letter_code, relevance,
}
use news_api.Base.{◌≡◌, refl, Option, none, some}

-- Every date is the start of the epoch.
abbrev epoch : Text → Option ℤ
epoch s = some (pos 0)

abbrev epoch_iso : ℤ → Text
epoch_iso t = codes "1970-01-01T00:00:00.000Z"

abbrev some_query : FilterQuery
some_query = record {
  from = text (codes "1970-01-01");
  to = nullish;
  lang = text (codes "EN");
  country = nullish;
  sort_by = nullish;
  sortby = text (codes "relevance");
}

-- The language is lowered, and the second spelling of the order is read.
some_query-filters :
    parse_article_search_filters epoch epoch_iso some_query
    ≡ ok (record {
      lang = some (codes "en");
      country = none;
      from = some (codes "1970-01-01T00:00:00.000Z");
      to = none;
      sort_by = some relevance;
    })
unfolding parse_article_search_filters parse_iso_date optional_string trim filters_with
    parse_sort_by parse_two_letter_code is_two_letter_code is_letter to_lower text_eq
some_query-filters = refl

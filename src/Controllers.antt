-- ===== src/Controllers.antt =====
-- src/controllers/newsController.ts, with the service as an argument: `search` is `searchArticles` of
-- src/services/newsService.ts under the signal of the request. A thrown error goes to `next`.
-- `string_of` is a text of JavaScript as a native string, `filters_text` the filters of `meta`.
pub mod Laws
pub mod Tests
use news_api.Js.Decimal.{show}
use news_api.Errors.{HeaderValue, Result, throw, ◌>>=◌, http_error_of, ok}
use news_api.Js.Text.{Text, codes}
use news_api.Base.{String, not, Option, none, some, List, [], ◌∷◌}
use news_api.Service.Cached.{ArticleSearchResult, CacheStatus, hit, miss, coalesced, stale, of_list}
use news_api.Service.Search.{fetch_articles_by_title, fetch_articles_by_source}
use news_api.Types.Article.{Json, arr}
use news_api.Http.Responses.{Meta, EnvelopeAnswer, send_envelope}
use news_api.Utils.Validation.{
  FilterQuery, ArticleSearchFilters, parse_article_search_filters, parse_article_count,
  parse_article_page, require_query_string,
}
use news_api.Base.Int.{ℤ}
use news_api.Types.Search.{ArticleSearchOptions}
use mathlib.Core.List.{List, [], ◌∷◌}

-- The parameters of a request that a controller reads: the one that names what is searched, from the
-- query or the path, and those of the query.
pub record SearchParams : Type 0 where
  pub subject : HeaderValue
  pub count : HeaderValue
  pub page : HeaderValue
  pub filters : FilterQuery

abbrev pub no_filters : ArticleSearchFilters
no_filters = record { lang = none; country = none; from = none; to = none; sort_by = none }

-- The options of `fetchArticlesByTitle`.
abbrev pub title_options : Text → ArticleSearchOptions
title_options title = record { query = title; count = 10; page = 1; filters = no_filters }

abbrev pub status_text : CacheStatus → Text
status_text hit = codes "hit"
status_text miss = codes "miss"
status_text coalesced = codes "coalesced"
status_text stale = codes "stale"

-- What Express gives a controller, apart from the parameters.
pub record RequestContext : Type 0 where
  pub id : Text
  pub if_none_match : HeaderValue

module _ (date_parse : Text → Option ℤ) (to_iso : ℤ → Text) where
  -- The checks that every search begins with, in their order; `field_name` names the subject.
  unfoldable pub search_options : String → SearchParams → Result ArticleSearchOptions
  unfolding parse_article_search_filters parse_article_count parse_article_page require_query_string
  search_options field_name params = require_query_string params.subject field_name >>= λ query.
      parse_article_count params.count >>= λ count. parse_article_page params.page >>= λ page.
      parse_article_search_filters date_parse to_iso params.filters >>= λ filters.
      ok (record { query = query; count = count; page = page; filters = filters })

  module _ (search : ArticleSearchOptions → Result ArticleSearchResult) where
    -- `fetchArticles(options, signal)`.
    unfoldable pub fetch_articles : ArticleSearchOptions → Result (List Json)
    fetch_articles options = search options >>= λ r. ok r.articles

    unfoldable pub get_articles : SearchParams → Result (List Json)
    unfolding search_options fetch_articles
    get_articles params = search_options "query" params >>= fetch_articles

    module _ (digest : Json → Meta → Text) (filters_text : ArticleSearchFilters → Text)
        (string_of : Text → String) (to_lower_case : String → String) where
      abbrev pub search_meta : String → ArticleSearchOptions → Meta → Meta
      search_meta field_name o rest =
          (field_name, o.query)
          ∷ ("count", show o.count)
          ∷ ("page", show o.page)
          ∷ ("filters", filters_text o.filters)
          ∷ rest

      unfoldable pub search_articles_v1 :
          RequestContext → SearchParams → Result (EnvelopeAnswer Json)
      unfolding search_options send_envelope
      search_articles_v1 req params = search_options "query" params >>= λ o. search o >>= λ r. ok (
          send_envelope digest req.id req.if_none_match (arr (of_list r.articles))
            (search_meta "query" o (("cache", status_text r.cache) ∷ [])))

      -- `fetchArticlesByTitle(title, signal)` after the check of the parameter.
      abbrev pub find_title : HeaderValue → Result (Text × Option Json)
      find_title param = require_query_string param "title" >>= λ title.
          fetch_articles (title_options title) >>= λ articles.
          ok (title, fetch_articles_by_title (string_of title) articles)

      -- The legacy answer: `none` is 404 with a message.
      unfoldable pub get_articles_by_title : HeaderValue → Result (Option Json)
      unfolding fetch_articles fetch_articles_by_title require_query_string
      get_articles_by_title param = find_title param >>= λ found. ok found.1

      abbrev pub title_answer : RequestContext → Text → Option Json → Result (EnvelopeAnswer Json)
      title_answer req title none =
          throw (http_error_of 404 "Article not found" "article_not_found" none)
      title_answer req title (some article) =
          ok (send_envelope digest req.id req.if_none_match article (("title", title) ∷ []))

      unfoldable pub get_articles_by_title_v1 :
          RequestContext → HeaderValue → Result (EnvelopeAnswer Json)
      unfolding fetch_articles fetch_articles_by_title require_query_string send_envelope
      get_articles_by_title_v1 req param =
          find_title param >>= λ found. title_answer req found.0 found.1

      -- `fetchArticlesBySource(source, count, filters, page, signal)`.
      abbrev pub of_source : ArticleSearchOptions → Result (List Json)
      of_source o = fetch_articles o >>= λ articles.
          ok (fetch_articles_by_source to_lower_case (string_of o.query) articles)

      unfoldable pub get_articles_by_source : SearchParams → Result (List Json)
      unfolding search_options fetch_articles fetch_articles_by_source
      get_articles_by_source params = search_options "source" params >>= of_source

      unfoldable pub get_articles_by_source_v1 :
          RequestContext → SearchParams → Result (EnvelopeAnswer Json)
      unfolding search_options fetch_articles fetch_articles_by_source send_envelope
      get_articles_by_source_v1 req params = search_options "source" params >>= λ o.
          of_source o >>= λ articles. ok (
            send_envelope digest req.id req.if_none_match (arr (of_list articles))
              (search_meta "source" o []))

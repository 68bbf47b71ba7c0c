-- ===== src/Controllers/Tests.antt =====
-- The controllers of a request, with services that agree.
use news_api.Controllers.Laws.{controllers_ask_validly, AreValidOptions}
use news_api.Service.Cached.{ArticleSearchResult, miss}
use news_api.Base.Int.{ℤ}
use news_api.Js.Text.{Text, codes}
use news_api.Types.Search.{ArticleSearchOptions}
use news_api.Controllers.{
  RequestContext, SearchParams, search_articles_v1, Result, codes, get_articles_by_title_v1, ℤ,
  ArticleSearchResult, get_articles_by_source_v1, miss, throw,
}
use news_api.Base.{◌≡◌, Option, none, [], if◌then◌else◌, ◌==◌, false, arith}
use news_api.Errors.{ok, nullish, text, Result, throw, no_error}
use mathlib.Core.List.{[]}

abbrev request_params : SearchParams
request_params = record {
  subject = text (codes "q");
  count = nullish;
  page = nullish;
  filters = record {
    from = nullish;
    to = nullish;
    lang = nullish;
    country = nullish;
    sort_by = nullish;
    sortby = nullish;
  };
}

abbrev empty_search : ArticleSearchOptions → Result ArticleSearchResult
empty_search o = ok (record { articles = []; cache = miss })

abbrev context : RequestContext
context = record { id = codes "r"; if_none_match = nullish }

abbrev no_date : Text → Option ℤ
no_date t = none

-- A service that also refuses to give no articles, which the controllers never ask for.
abbrev strict_search : ArticleSearchOptions → Result ArticleSearchResult
strict_search o = if o.count == 0 then throw no_error else empty_search o

agree :
    (o : ArticleSearchOptions)
    → AreValidOptions no_date (λ t. []) o
    → empty_search o ≡ strict_search o
agree o h = let positive : (o.count == 0) ≡ false = ground (arith, h.count_positive) in rw positive

controllers_ask_validly_example :
    (search_articles_v1 no_date
        (λ t. [])
        empty_search
        (λ v m. [])
        (λ f. [])
        (λ t. "q")
        (λ s. s)
        context
        request_params
      ≡ search_articles_v1 no_date
          (λ t. [])
          strict_search
          (λ v m. [])
          (λ f. [])
          (λ t. "q")
          (λ s. s)
          context
          request_params)
    × (get_articles_by_title_v1 no_date
          (λ t. [])
          empty_search
          (λ v m. [])
          (λ f. [])
          (λ t. "q")
          (λ s. s)
          context
          request_params.subject
        ≡ get_articles_by_title_v1 no_date
            (λ t. [])
            strict_search
            (λ v m. [])
            (λ f. [])
            (λ t. "q")
            (λ s. s)
            context
            request_params.subject)
    × (get_articles_by_source_v1 no_date
          (λ t. [])
          empty_search
          (λ v m. [])
          (λ f. [])
          (λ t. "q")
          (λ s. s)
          context
          request_params
        ≡ get_articles_by_source_v1 no_date
            (λ t. [])
            strict_search
            (λ v m. [])
            (λ f. [])
            (λ t. "q")
            (λ s. s)
            context
            request_params)
controllers_ask_validly_example =
    controllers_ask_validly no_date (λ t. []) empty_search strict_search (λ v m. []) (λ f. [])
      (λ t. "q") (λ s. s) context request_params agree

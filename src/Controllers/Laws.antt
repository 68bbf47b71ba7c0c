-- ===== src/Controllers/Laws.antt =====
-- What the service is asked for, and what the answers about one title or one source hold.
use news_api.Types.Search.{ArticleSearchOptions}
use news_api.Http.Responses.{Meta}
use news_api.Types.Article.{Json}
use news_api.Service.Cached.{ArticleSearchResult}
use news_api.Provider.Search.{max_article_count}
use news_api.Utils.Validation.{
  max_search_text_length, parse_article_page, max_article_page, require_query_string,
  ArticleSearchFilters, parse_article_count, parse_article_search_filters,
}
use news_api.Controllers.{
  search_options, ArticleSearchResult, HeaderValue, SearchParams, ok, title_options, Json,
  require_query_string, throw, Meta, ArticleSearchFilters, parse_article_count, search_articles_v1,
  get_articles_by_title_v1, parse_article_search_filters, get_articles_by_source_v1, fetch_articles,
  RequestContext, find_title, title_answer,
}
use news_api.Base.Int.{ℤ}
use news_api.Js.Text.{Text}
use news_api.Base.{◌≤◌, ◌<◌, String, ◌≡◌, refl, ap, Option, arith, length}
use news_api.Errors.{◌>>=◌, Result, HeaderValue}
use news_api.Utils.Validation.Laws.{
  Accepts, bind-Accepts, parse_limited-Accepts, AreValidFilters, require_query_string-Accepts,
  parse_article_count-Accepts, parse_article_search_filters-Accepts,
}

module _ (date_parse : Text → Option ℤ) (to_iso : ℤ → Text) where
  -- Options fit for the service.
  pub record AreValidOptions (o : ArticleSearchOptions) : Type 0 where
    pub query_there : 0 < length o.query
    pub query_bounded : length o.query ≤ max_search_text_length
    pub count_positive : 0 < o.count
    pub count_bounded : o.count ≤ max_article_count
    pub page_positive : 0 < o.page
    pub page_bounded : o.page ≤ max_article_page
    pub filters_valid : AreValidFilters date_parse to_iso o.filters

  parse_article_page-Accepts :
      (raw : HeaderValue) → Accepts (λ n. (0 < n) × (n ≤ max_article_page)) (parse_article_page raw)
  unfolding parse_article_page
  parse_article_page-Accepts raw = parse_limited-Accepts 1 100 _ _ raw (omega arith) (omega arith)

  search_options-Accepts :
      (field_name : String) (params : SearchParams)
      → Accepts AreValidOptions (search_options date_parse to_iso field_name params)
  unfolding search_options
  search_options-Accepts field_name params =
      bind-Accepts _ AreValidOptions (require_query_string params.subject field_name) _
        (require_query_string-Accepts params.subject field_name)
        (λ query q.
          bind-Accepts _ AreValidOptions (parse_article_count params.count) _
            (parse_article_count-Accepts params.count)
            (λ count c.
              bind-Accepts _ AreValidOptions (parse_article_page params.page) _
                (parse_article_page-Accepts params.page)
                (λ page p.
                  bind-Accepts _ AreValidOptions
                    (parse_article_search_filters date_parse to_iso params.filters) _
                    (parse_article_search_filters-Accepts date_parse to_iso params.filters)
                    (λ filters f. record {
                      query_there = q.0;
                      query_bounded = q.1;
                      count_positive = c.0;
                      count_bounded = c.1;
                      page_positive = p.0;
                      page_bounded = p.1;
                      filters_valid = f;
                    }))))

  bind_same :
      {A B : Type 0} (P : A → Type 0) (m : Result A) (f g : A → Result B)
      → Accepts P m
      → ((a : A) → P a → f a ≡ g a)
      → (m >>= f) ≡ (m >>= g)
  bind_same P (ok a) f g h same = same a h
  bind_same P (throw e) f g h same = refl

  title_options-AreValidOptions :
      (title : Text)
      → 0 < length title
      → length title ≤ max_search_text_length
      → AreValidOptions (title_options title)
  title_options-AreValidOptions title lo hi = record {
    query_there = lo;
    query_bounded = hi;
    count_positive = omega arith;
    count_bounded = omega arith;
    page_positive = omega arith;
    page_bounded = omega arith;
    filters_valid = record {
      lang_code = tt;
      country_code = tt;
      from_date = tt;
      to_date = tt;
      ordered = refl;
    };
  }

  module _ (search search' : ArticleSearchOptions → Result ArticleSearchResult)
      (digest : Json → Meta → Text) (filters_text : ArticleSearchFilters → Text)
      (string_of : Text → String) (to_lower_case : String → String) where
    same_title :
        (param : HeaderValue)
        → ((o : ArticleSearchOptions) → AreValidOptions o → search o ≡ search' o)
        → find_title date_parse to_iso search digest filters_text string_of to_lower_case param
          ≡ find_title date_parse to_iso search' digest filters_text string_of to_lower_case param
    unfolding fetch_articles
    same_title param agree =
        bind_same _ (require_query_string param "title") _ _
          (require_query_string-Accepts param "title")
          (λ title h. rw (agree _ (title_options-AreValidOptions title h.0 h.1)))

    -- The service is asked only for valid options: a query or a title of 1 to 256 characters, 1 to 100
    -- articles of a page from 1 to 100, and valid filters. Two services that agree on these cannot be
    -- told apart by any of the versioned controllers, whatever the request holds.
    pub controllers_ask_validly :
        (req : RequestContext) (params : SearchParams)
        → ((o : ArticleSearchOptions) → AreValidOptions o → search o ≡ search' o)
        → (search_articles_v1 date_parse to_iso search digest filters_text string_of to_lower_case
              req params
            ≡ search_articles_v1 date_parse to_iso search' digest filters_text string_of
                to_lower_case req params)
          × (get_articles_by_title_v1 date_parse to_iso search digest filters_text string_of
                to_lower_case req params.subject
              ≡ get_articles_by_title_v1 date_parse to_iso search' digest filters_text string_of
                  to_lower_case req params.subject)
          × (get_articles_by_source_v1 date_parse to_iso search digest filters_text string_of
                to_lower_case req params
              ≡ get_articles_by_source_v1 date_parse to_iso search' digest filters_text string_of
                  to_lower_case req params)
    unfolding search_articles_v1 get_articles_by_title_v1 get_articles_by_source_v1 fetch_articles
    controllers_ask_validly req params agree = (
      bind_same AreValidOptions (search_options date_parse to_iso "query" params) _ _
          (search_options-Accepts "query" params) (λ o h. rw (agree o h)),
      ap
          (λ found. found >>= λ p.
            title_answer date_parse to_iso search digest filters_text string_of to_lower_case req
              p.0 p.1)
          (same_title params.subject agree),
      bind_same AreValidOptions (search_options date_parse to_iso "source" params) _ _
          (search_options-Accepts "source" params) (λ o h. rw (agree o h)),
    )

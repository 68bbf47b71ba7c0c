-- ===== src/Client/Calls.antt =====
-- src/client/newsApiClient.ts: the calls of the interface, each with its path and its options.
use news_api.Types.Article.{Json}
use news_api.Js.Text.{Text, codes}
use news_api.Base.{Option, none, List, [], ◌++◌}
use news_api.Client.{
  Platform, Outcome, ◌>>=◌, resolved, ConditionalResult, NewsApiClient, Text, get_conditional_json,
  get_json, Json, QueryValue, codes, RequestOptions, no_options,
}
use mathlib.Core.List.{List, [], ◌++◌}

module _ (P : Platform) where
  abbrev pub articles_path : Text
  articles_path = codes "/api/v1/articles"

  abbrev pub title_path : Text → Outcome Text
  title_path title =
      P.encode_component title >>= λ t. resolved (codes "/api/v1/articles/title/" ++ t)

  abbrev pub source_path : Text → Outcome Text
  source_path source = P.encode_component source >>= λ t.
      resolved (codes "/api/v1/sources/" ++ (t ++ codes "/articles"))

  abbrev pub with_query : List (Text × QueryValue) → Option Text → RequestOptions
  with_query query etag = record no_options { query = query; if_none_match = etag }

  unfoldable pub search_articles : NewsApiClient → List (Text × QueryValue) → Outcome (Option Json)
  unfolding get_json
  search_articles client params = get_json P client articles_path (with_query params none)

  unfoldable pub search_articles_conditional :
      NewsApiClient → List (Text × QueryValue) → Option Text → Outcome ConditionalResult
  unfolding get_conditional_json
  search_articles_conditional client params etag =
      get_conditional_json P client articles_path (with_query params etag)

  unfoldable pub get_article_by_title : NewsApiClient → Text → Outcome (Option Json)
  unfolding get_json
  get_article_by_title client title = title_path title >>= λ path. get_json P client path no_options

  unfoldable pub get_article_by_title_conditional :
      NewsApiClient → Text → Option Text → Outcome ConditionalResult
  unfolding get_conditional_json
  get_article_by_title_conditional client title etag =
      title_path title >>= λ path. get_conditional_json P client path (with_query [] etag)

  unfoldable pub list_source_articles :
      NewsApiClient → Text → List (Text × QueryValue) → Outcome (Option Json)
  unfolding get_json
  list_source_articles client source params =
      source_path source >>= λ path. get_json P client path (with_query params none)

  unfoldable pub list_source_articles_conditional :
      NewsApiClient → Text → List (Text × QueryValue) → Option Text → Outcome ConditionalResult
  unfolding get_conditional_json
  list_source_articles_conditional client source params etag =
      source_path source >>= λ path. get_conditional_json P client path (with_query params etag)

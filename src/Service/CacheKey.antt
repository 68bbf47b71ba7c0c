-- ===== src/Service/CacheKey.antt =====
-- src/services/newsService.ts, `searchCacheKey`: the key of a search in the cache and among the
-- searches in flight. `quoted` is a text as a JSON value, `stringify` is `JSON.stringify`,
-- into a type `K` of texts.
pub mod Laws
use news_api.Js.Text.{Text}
use news_api.Base.{Option, none, some}
use news_api.Types.Search.{ArticleSearchOptions}
use news_api.Types.Article.{Json, null, number, str, obj, field, end}
use news_api.Utils.Validation.{ArticleSortBy, published_at, relevance}

-- `value ?? null`.
abbrev pub or_null : (Text → Json) → Option Text → Json
or_null quoted none = null
or_null quoted (some t) = quoted t

abbrev pub sort_json : Option ArticleSortBy → Json
sort_json none = null
sort_json (some published_at) = str "publishedAt"
sort_json (some relevance) = str "relevance"

abbrev pub key_object : (Text → Json) → ArticleSearchOptions → Json
key_object quoted o = obj (
    field "query" (quoted o.query) (
      field "count" (number o.count) (
        field "page" (number o.page) (
          field "lang" (or_null quoted o.filters.lang) (
            field "country" (or_null quoted o.filters.country) (
              field "from" (or_null quoted o.filters.from) (
                field "to" (or_null quoted o.filters.to)
                  (field "sortBy" (sort_json o.filters.sort_by) end))))))))

unfoldable pub search_cache_key :
    {K : Type 0} → (Text → Json) → (Json → K) → ArticleSearchOptions → K
search_cache_key quoted stringify o = stringify (key_object quoted o)

-- ===== src/Service/CacheKey/Laws.antt =====
-- Different searches have different keys.
use news_api.Types.Search.{ArticleSearchOptions}
use news_api.Service.CacheKey.{search_cache_key, Json, sort_json, ArticleSearchOptions, or_null}
use news_api.Js.Text.{Text}
use news_api.Base.{
  String, ◌≡◌, refl, sym, ap, ◌≢◌, true, false, Option, none, some, arith, eq_iff, str_eq,
}
use news_api.Types.Article.{null, str, Json}
use news_api.Utils.Validation.{published_at, relevance, ArticleSortBy}

or_null_injective :
    (quoted : Text → Json) (a b : Option Text)
    → ((s t : Text) → quoted s ≡ quoted t → s ≡ t)
    → ((s : Text) → quoted s ≢ null)
    → or_null quoted a ≡ or_null quoted b
    → a ≡ b
or_null_injective quoted none none inj text e = refl
or_null_injective quoted none (some t) inj text e = absurd (text t (sym e))
or_null_injective quoted (some s) none inj text e = absurd (text s e)
or_null_injective quoted (some s) (some t) inj text e = ap some (inj s t e)

same_str : (s t : String) → str s ≡ str t → str_eq s t ≡ true
same_str s t e = let same : s ≡ t = cc e in (eq_iff s t).1 same

differ : str "publishedAt" ≢ str "relevance"
differ e = let same : false ≡ true = same_str "publishedAt" "relevance" e in absurd (ground arith)

sort_json_injective : (a b : Option ArticleSortBy) → sort_json a ≡ sort_json b → a ≡ b
sort_json_injective none none e = refl
sort_json_injective none (some published_at) e = cc e
sort_json_injective none (some relevance) e = cc e
sort_json_injective (some published_at) none e = cc e
sort_json_injective (some relevance) none e = cc e
sort_json_injective (some published_at) (some published_at) e = refl
sort_json_injective (some published_at) (some relevance) e = absurd (differ e)
sort_json_injective (some relevance) (some published_at) e = absurd (differ (sym e))
sort_json_injective (some relevance) (some relevance) e = refl

-- Two searches have the same key only if all their options are the same, so that no search is answered
-- with the entry or the flight of another. `JSON.stringify` tells two values apart, and so does the
-- JSON of two texts, which is never null.
pub search_cache_key_injective :
    {K : Type 0} (quoted : Text → Json) (stringify : Json → K) (a b : ArticleSearchOptions)
    → ((v w : Json) → stringify v ≡ stringify w → v ≡ w)
    → ((s t : Text) → quoted s ≡ quoted t → s ≡ t)
    → ((s : Text) → quoted s ≢ null)
    → search_cache_key quoted stringify a ≡ search_cache_key quoted stringify b
    → a ≡ b
unfolding search_cache_key
search_cache_key_injective quoted stringify a b tells inj text e =
    let same = tells _ _ e in
    let query : quoted a.query ≡ quoted b.query = cc same in
    let count : a.count ≡ b.count = cc same in
    let page : a.page ≡ b.page = cc same in
    let lang : or_null quoted a.filters.lang ≡ or_null quoted b.filters.lang = cc same in
    let country : or_null quoted a.filters.country ≡ or_null quoted b.filters.country = cc same in
    let from : or_null quoted a.filters.from ≡ or_null quoted b.filters.from = cc same in
    let to : or_null quoted a.filters.to ≡ or_null quoted b.filters.to = cc same in
    let sort : sort_json a.filters.sort_by ≡ sort_json b.filters.sort_by = cc same in
    λ i. record {
      query = inj _ _ query i;
      count = count i;
      page = page i;
      filters = record {
        lang = or_null_injective quoted _ _ inj text lang i;
        country = or_null_injective quoted _ _ inj text country i;
        from = or_null_injective quoted _ _ inj text from i;
        to = or_null_injective quoted _ _ inj text to i;
        sort_by = sort_json_injective _ _ sort i;
      };
    }

-- ===== src/Service/Search.antt =====
-- src/services/newsService.ts: the load of a search from the provider with its stale fallback, what a
-- request makes of a search it waited for, and the searches by title and by source.
use news_api.Base.{
  ℕ, String, Bool, true, false, ◌||◌, Option, none, some, List, [], ◌∷◌, str_eq, if◌then◌else◌,
}
use news_api.Service.Cached.{
  ArticleSearchResult, CacheStore, CacheWorld, miss, coalesced, CacheStatus, count_cache_event,
  read_cached_articles, write_cached_articles, coalesced_event, read_stale_cached_articles,
}
use news_api.Cache.Coordinator.{Source, shared_cache}
use news_api.Types.Article.{Json, property, str}
use news_api.Errors.{
  Result, Thrown, ok, throw, ◌>>=◌, ◌>>◌, is_request_aborted_error, as_aborted,
  request_aborted_error, throw_if_aborted,
}
use mathlib.Core.List.{List, [], ◌∷◌}

-- `value === text`, and the same of a source's name that is lowered first.
abbrev pub is_text : String → Option Json → Bool
is_text t (some (str s)) = str_eq s t
is_text t _ = false

abbrev pub name_is : (String → String) → String → Option Json → Bool
name_is to_lower_case target (some (str s)) = str_eq (to_lower_case s) target
name_is to_lower_case target _ = false

abbrev pub source_is : (String → String) → String → Option Json → Bool
source_is to_lower_case target none = false
source_is to_lower_case target (some source) = name_is to_lower_case target (property "name" source)

abbrev pub is_miss : CacheStatus → Bool
is_miss miss = true
is_miss _ = false

module _ (C : CacheStore) where
  -- The stale copy, or the error of the provider.
  abbrev pub or_thrown : Thrown → Option ArticleSearchResult → Result ArticleSearchResult
  or_thrown err none = throw err
  or_thrown err (some stale_copy) = ok stale_copy

  -- The `catch` block of `loadArticlesFromUpstream`.
  abbrev pub fall_back :
      String → Bool → Thrown → CacheWorld C → CacheWorld C × Result ArticleSearchResult
  fall_back key aborted err w =
      if aborted || is_request_aborted_error err
      then (w, throw (as_aborted err))
      else (let (w', stale_copy) = read_stale_cached_articles C key w in
          (w', or_thrown err stale_copy))

  abbrev pub load_result :
      ℕ
      → String
      → Bool
      → Result (List Json)
      → CacheWorld C
      → CacheWorld C × Result ArticleSearchResult
  load_result stale_ttl key aborted (ok articles) w = (
    write_cached_articles C stale_ttl key articles w,
    ok (record { articles = articles; cache = miss }),
  )
  load_result stale_ttl key aborted (throw err) w = fall_back key aborted err w

  -- `loadArticlesFromUpstream`: `searched` is what `newsProvider.search` gave, and the flag says
  -- whether the signal is aborted when it has.
  unfoldable pub load_articles_from_upstream :
      ℕ
      → String
      → Bool
      → Result (List Json)
      → CacheWorld C
      → CacheWorld C × Result ArticleSearchResult
  unfolding write_cached_articles read_stale_cached_articles
  load_articles_from_upstream stale_ttl key aborted searched w =
      load_result stale_ttl key aborted
        (searched >>= λ articles. throw_if_aborted aborted >> ok articles) w

  -- `existing ? { ...result, cache: result.cache === "miss" ? "coalesced" : result.cache } : result`.
  abbrev pub labelled : Bool → ArticleSearchResult → ArticleSearchResult
  labelled existing r =
      if existing then record r { cache = if is_miss r.cache then coalesced else r.cache } else r

  -- `searchArticles` once the cached articles have been read.
  abbrev pub answer_search :
      Bool
      → (CacheWorld C → CacheWorld C × Result ArticleSearchResult)
      → Option ArticleSearchResult
      → CacheWorld C
      → CacheWorld C × Result ArticleSearchResult
  answer_search existing wait (some cached) w = (w, ok cached)
  answer_search existing wait none w =
      let (w', waited) = wait (if existing then count_cache_event C coalesced_event w else w) in
      (w', waited >>= λ r. ok (labelled existing r))

  -- `searchArticles`: the flags say whether the signal is aborted when it starts and whether a search
  -- in flight exists; `wait` is `waitForInFlightSearch` on that search or on the one it creates.
  unfoldable pub search_articles :
      String
      → Bool
      → Bool
      → (CacheWorld C → CacheWorld C × Result ArticleSearchResult)
      → CacheWorld C
      → CacheWorld C × Result ArticleSearchResult
  unfolding read_cached_articles
  search_articles key aborted existing wait w =
      if aborted
      then (w, throw request_aborted_error)
      else (let (w', cached) = read_cached_articles C key w in
          answer_search existing wait cached w')

-- `fetchArticlesFromUpstream`, from the result of the coordination.
abbrev pub from_coordinated : ArticleSearchResult × Source → ArticleSearchResult
from_coordinated (r, shared_cache) = record r { cache = coalesced }
from_coordinated (r, _) = r

unfoldable pub fetch_articles_from_upstream :
    Result (ArticleSearchResult × Source) → Result ArticleSearchResult
fetch_articles_from_upstream coordinated = coordinated >>= λ r. ok (from_coordinated r)

-- `articles.find((article) => article.title === title)`.
abbrev pub has_title : String → Json → Bool
has_title title v = is_text title (property "title" v)

unfoldable pub fetch_articles_by_title : String → List Json → Option Json
fetch_articles_by_title title [] = none
fetch_articles_by_title title (v ∷ vs) =
    if has_title title v then some v else fetch_articles_by_title title vs

-- The articles whose source has the name, both lowered; `to_lower_case` is the function of strings.
unfoldable pub fetch_articles_by_source : (String → String) → String → List Json → List Json
fetch_articles_by_source to_lower_case name [] = []
fetch_articles_by_source to_lower_case name (v ∷ vs) =
    let rest = fetch_articles_by_source to_lower_case name vs in
    if source_is to_lower_case (to_lower_case name) (property "source" v) then v ∷ rest else rest

-- ===== src/Service/Tests.antt =====
-- Searches at a concrete cache and provider.
use news_api.Service.Fetch.Laws.{AreAllArticles}
use news_api.Cache.Redis.{answered}
use news_api.Provider.Search.{settle, normalize_articles}
use news_api.Provider.Retry.{Attempt, with_upstream_retries, retry_loop}
use news_api.Service.Valid.{search_articles-AreArticles, waits_for}
use news_api.Service.Fetch.{FetchRound, fetch_round, fetch_coordinated}
use news_api.Cache.Coordinator.{coordinate_cache_miss, coordinate_loop, wait_round, under_lease}
use news_api.Provider.Circuit.{CircuitWorld, initial_circuit, assert_circuit_allows_request}
use news_api.Provider.Request.{SearchRun, gnews_search}
use news_api.Service.CacheKey.Laws.{search_cache_key_injective}
use news_api.Types.Search.{ArticleSearchOptions}
use news_api.Js.Text.{Text, codes}
use news_api.Provider.Search.Laws.{AreArticles}
use news_api.Cache.Redis.Instance.{key_server, key_server-laws}
use news_api.Service.Cached.OnRedis.{redis_store, later, search_articles-write_cached_articles}
use news_api.Service.Cached.Laws.{IsLoaded, load_articles_from_upstream-IsLoaded}
use news_api.Errors.{is_request_aborted_error, ok, throw, no_error, throw_if_aborted, Result}
use news_api.Service.Cached.{
  CacheWorld, of_list, write_cached_articles, hit, stale, ArticleSearchResult, read_cached_articles,
  miss, read_entry,
}
use news_api.Service.Search.{
  search_articles, load_articles_from_upstream, fetch_articles_from_upstream,
}
use news_api.Cache.Redis.{JsonText, redis_get, redis_set}
use news_api.Types.Article.{
  Json, is_article, is_article_source, obj, arr, field, get_field, str, null, end, Items, nil, cons,
  number, is_article_list,
}
use mathlib.Core.List.{[], ◌∷◌}
use news_api.Base.{
  ◌≡◌, refl, true, false, [], ◌∷◌, some, none, if◌then◌else◌, ltb, ◌*◌, arith, ◌≢◌, ℕ, ◌≤◌,
}

-- An article, as the provider sends it, and a JSON whose texts are all that of a list of it.
abbrev one_article : Json
one_article = obj (
    field "title" (str "t") (
      field "description" null (
        field "content" null (
          field "url" (str "u") (
            field "image" null (
              field "publishedAt" (str "p") (
                field "source" (obj (field "name" (str "n") (field "url" (str "u") end))) end)))))))

abbrev article_text : JsonText
article_text = record { parse = λ t. some (arr (of_list (one_article ∷ []))); stringify = λ v. [] }

abbrev empty_world : CacheWorld (redis_store key_server article_text answered)
empty_world = record { store = λ k. none; events = []; errors = [] }

one_article-AreArticles : AreArticles (one_article ∷ [])
unfolding is_article is_article_source get_field
one_article-AreArticles = (refl, tt)

search_articles-write_cached_articles_example :
    (search_articles
      (redis_store key_server article_text answered)
      "k"
      false
      false
      (load_articles_from_upstream
        (redis_store key_server article_text answered)
        3_600
        "k"
        false
        (throw no_error))
      (later key_server key_server-laws article_text 700_000 (
        write_cached_articles
          (redis_store key_server article_text answered)
          3_600
          "k"
          (one_article ∷ [])
          empty_world))).1
    ≡ (if ltb 700_000 600_000
        then ok (record { articles = one_article ∷ []; cache = hit })
        else if ltb 700_000 (1_000 * 3_600)
        then ok (record { articles = one_article ∷ []; cache = stale })
        else throw no_error)
unfolding is_request_aborted_error
search_articles-write_cached_articles_example =
    search_articles-write_cached_articles key_server key_server-laws article_text 3_600 700_000 "k"
      (one_article ∷ []) no_error empty_world one_article-AreArticles refl (omega arith) refl

load_articles_from_upstream-IsLoaded_example :
    IsLoaded
      (redis_store key_server article_text answered)
      3_600
      "k"
      false
      empty_world
      (ok (one_article ∷ []))
      (load_articles_from_upstream
        (redis_store key_server article_text answered)
        3_600
        "k"
        false
        (ok (one_article ∷ []))
        empty_world)
load_articles_from_upstream-IsLoaded_example =
    load_articles_from_upstream-IsLoaded (redis_store key_server article_text answered) 3_600 "k"
      false (ok (one_article ∷ [])) empty_world

-- Texts as arrays of numbers, which tells them apart.
abbrev number_items : Text → Items
number_items [] = nil
number_items (c ∷ s) = cons (number c) (number_items s)

abbrev as_array : Text → Json
as_array s = arr (number_items s)

number_items_injective : (s t : Text) → number_items s ≡ number_items t → s ≡ t
number_items_injective [] [] e = refl
number_items_injective [] (d ∷ t) e = cc e
number_items_injective (c ∷ s) [] e = cc e
number_items_injective (c ∷ s) (d ∷ t) e =
    let head : c ≡ d = cc e in
    let tail : number_items s ≡ number_items t = cc e in
    λ i. head i ∷ number_items_injective s t tail i

as_array_injective : (s t : Text) → as_array s ≡ as_array t → s ≡ t
as_array_injective s t e =
    let same : number_items s ≡ number_items t = cc e in number_items_injective s t same

as_array-ne-null : (s : Text) → as_array s ≢ null
as_array-ne-null s e = cc e

abbrev some_search : ArticleSearchOptions
some_search = record {
  query = codes "q";
  count = 10;
  page = 1;
  filters = record { lang = none; country = none; from = none; to = none; sort_by = none };
}

search_cache_key_injective_example : some_search ≡ some_search
search_cache_key_injective_example =
    search_cache_key_injective as_array (λ v. v) some_search some_search (λ v w e. e)
      as_array_injective as_array-ne-null refl

-- A search that finds nothing in the cache and one article at the provider.
abbrev one_call : ℕ → Attempt Json
one_call n = record {
  aborted_before = false;
  result = ok (obj (field "articles" (arr (of_list (one_article ∷ []))) end));
  aborted_after = false;
  random = 0;
  aborted_in_sleep = false;
}

abbrev one_run : SearchRun
one_run = record {
  threshold = 3;
  cooldown = 30_000;
  max_retries = 2;
  retry_base = 100;
  aborted_before = false;
  started = 0;
  attempts = one_call;
  beside = λ w. w;
  ended = 10;
  signals = record { deadline = false; request = false; process = false };
}

abbrev closed_circuit : CircuitWorld
closed_circuit = record { circuit = initial_circuit; events = [] }

abbrev found_article : ArticleSearchResult
found_article = record { articles = one_article ∷ []; cache = miss }

-- Another replica holds the lease in the first round; in the second it is free.
abbrev fetch_rounds : ℕ → FetchRound (redis_store key_server article_text answered)
fetch_rounds k = record {
  beside = record {
    aborted_before = false;
    acquire = ok (ltb 0 k);
    aborted_acquired = false;
    fresh = ok none;
    aborted_fresh = false;
    loaded = throw no_error;
    release_fails = false;
    now = 100 * k;
    random = 0;
    aborted_in_sleep = false;
  };
  read_world = empty_world;
  load_world = empty_world;
  aborted_load = false;
  run = one_run;
  circuit = closed_circuit;
}

fetched_article :
    fetch_coordinated
      (redis_store key_server article_text answered)
      (λ t. none)
      3_600
      "k"
      50
      100
      fetch_rounds
      2
      false
      true
    ≡ some (ok found_article)
unfolding fetch_coordinated fetch_round read_cached_articles read_entry redis_get
    load_articles_from_upstream gnews_search assert_circuit_allows_request with_upstream_retries
    retry_loop settle normalize_articles is_article_list is_article is_article_source get_field
    throw_if_aborted write_cached_articles redis_set coordinate_cache_miss coordinate_loop
    wait_round under_lease fetch_articles_from_upstream
fetched_article = refl

late_round :
    100
    ≤ (fetch_round
        (redis_store key_server article_text answered)
        (λ t. none)
        3_600
        "k"
        (fetch_rounds 1)).now
unfolding fetch_round
late_round = omega arith

search_articles-AreArticles_example :
    (o : Result ArticleSearchResult) × (fetch_coordinated
        (redis_store key_server article_text answered)
        (λ t. none)
        3_600
        "k"
        50
        100
        fetch_rounds
        2
        false
        true
      ≡ some o)
    × AreAllArticles
        (search_articles
          (redis_store key_server article_text answered)
          "k"
          false
          false
          (waits_for (redis_store key_server article_text answered) false o (λ v. v))
          empty_world).1
search_articles-AreArticles_example =
    search_articles-AreArticles (redis_store key_server article_text answered) (λ t. none) 3_600 "k"
      50 100 1 fetch_rounds false true false false false (λ v. v) empty_world late_round

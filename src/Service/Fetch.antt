-- ===== src/Service/Fetch.antt =====
-- src/services/newsService.ts, `fetchArticlesFromUpstream`: the load of a search under the
-- coordination of the replicas. Each round reads the cache again and may load from the provider.
pub mod Laws
use news_api.Base.Int.{ℤ}
use news_api.Js.Text.{Text}
use news_api.Service.Cached.{CacheStore, CacheWorld, ArticleSearchResult, read_cached_articles}
use news_api.Service.Search.{load_articles_from_upstream, fetch_articles_from_upstream}
use news_api.Cache.Coordinator.{Round, coordinate_cache_miss}
use news_api.Provider.Request.{SearchRun, gnews_search}
use news_api.Provider.Circuit.{CircuitWorld}
use news_api.Errors.{Result, ok}
use news_api.Base.{ℕ, String, Bool, Option, none, some}

module _ (C : CacheStore) where
  -- A round: what the leases, the clock and the signal do in it, the cache when it is read and when
  -- the articles are loaded, the signal of the load, and the run of the provider's search.
  pub record FetchRound : Type 0 where
    pub beside : Round ArticleSearchResult
    pub read_world : CacheWorld C
    pub load_world : CacheWorld C
    pub aborted_load : Bool
    pub run : SearchRun
    pub circuit : CircuitWorld

  module _ (date_parse : Text → Option ℤ) (stale_ttl : ℕ) (key : String) where
    -- `readFresh` and `load` of the round, as `fetchArticlesFromUpstream` passes them on.
    unfoldable pub fetch_round : FetchRound → Round ArticleSearchResult
    unfolding read_cached_articles load_articles_from_upstream gnews_search
    fetch_round r = record r.beside {
      fresh = ok (read_cached_articles C key r.read_world).1;
      loaded =
          (load_articles_from_upstream C stale_ttl key r.aborted_load
            (gnews_search date_parse r.run r.circuit).1 r.load_world).1;
    }

    -- `fetchArticlesFromUpstream(options, store, cacheKey, signal)`, within so many rounds.
    unfoldable pub fetch_coordinated :
        (poll deadline : ℕ) (rounds : ℕ → FetchRound) (fuel : ℕ) (aborted has_leases : Bool)
        → Option (Result ArticleSearchResult)
    unfolding fetch_round coordinate_cache_miss fetch_articles_from_upstream
    fetch_coordinated poll deadline rounds fuel aborted has_leases =
        elim (coordinate_cache_miss poll deadline (λ k. fetch_round (rounds k)) fuel aborted
          has_leases) [ none ↦ none | some c ↦ some (fetch_articles_from_upstream c.result) ]

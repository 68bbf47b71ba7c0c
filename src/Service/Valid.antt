-- ===== src/Service/Valid.antt =====
-- The whole way of a search: the cache, the load and the provider of src/services/newsService.ts and
-- src/providers/gnewsProvider.ts together.
use news_api.Service.Fetch.Laws.{
  AreAllArticles, AreAllArticles-of_ok, AreAllArticles-ok, fetch_coordinated-AreAllArticles,
  read_cached-AreArticles,
}
use news_api.Service.Fetch.{FetchRound, fetch_round, fetch_coordinated}
use mathlib.Core.Bool.{true, false}
use news_api.Base.Int.{ℤ}
use news_api.Js.Text.{Text}
use news_api.Base.{String, ◌≡◌, refl, Option, none, some, Bool, ℕ, if◌then◌else◌, ◌≤◌, suc}
use news_api.Service.Cached.{CacheStore, CacheWorld, read_cached_articles, ArticleSearchResult}
use news_api.Service.Search.{search_articles, answer_search, labelled}
use news_api.Provider.Search.Laws.{AreArticles}
use news_api.Errors.{Result, ok, throw, ok-ne-throw, ◌>>=◌, request_aborted_error}

module _ (C : CacheStore) where
  labelled-AreArticles :
      (existing : Bool) (waited : Result ArticleSearchResult) (r : ArticleSearchResult)
      → ((c : ArticleSearchResult) → waited ≡ ok c → AreArticles c.articles)
      → (waited >>= λ c. ok (labelled C existing c)) ≡ ok r
      → AreArticles r.articles
  labelled-AreArticles true (ok c) r valid h =
      let same : labelled C true c ≡ r = cc h in rw (← same) (valid c refl)
  labelled-AreArticles false (ok c) r valid h =
      let same : c ≡ r = cc h in rw (← same) (valid c refl)
  labelled-AreArticles existing (throw e) r valid h = absurd (ok-ne-throw _ _ h)

  answer-AreArticles :
      (existing : Bool) (wait : CacheWorld C → CacheWorld C × Result ArticleSearchResult)
      (cached : Option ArticleSearchResult) (w : CacheWorld C) (r : ArticleSearchResult)
      → ((c : ArticleSearchResult) → cached ≡ some c → AreArticles c.articles)
      → ((v : CacheWorld C) (c : ArticleSearchResult) → (wait v).1 ≡ ok c → AreArticles c.articles)
      → (answer_search C existing wait cached w).1 ≡ ok r
      → AreArticles r.articles
  answer-AreArticles existing wait (some c) w r good waited h =
      let same : c ≡ r = cc h in rw (← same) (good c refl)
  answer-AreArticles existing wait none w r good waited h =
      labelled-AreArticles existing _ r (waited _) h

  -- A search waits for a fetch in flight, its own or another's, and may be cancelled meanwhile, while
  -- the cache changes in any way.
  abbrev pub waits_for :
      Bool
      → Result ArticleSearchResult
      → (CacheWorld C → CacheWorld C)
      → CacheWorld C
      → CacheWorld C × Result ArticleSearchResult
  waits_for gone o beside v = (beside v, if gone then throw request_aborted_error else o)

  waited_good :
      (gone : Bool) (o : Result ArticleSearchResult) (c : ArticleSearchResult)
      → AreAllArticles o
      → (if gone then throw request_aborted_error else o) ≡ ok c
      → AreArticles c.articles
  waited_good true o c good h = absurd (ok-ne-throw _ _ h)
  waited_good false o c good h = AreAllArticles-ok o c good h

  waited-AreAllArticles :
      (key : String) (aborted existing gone : Bool) (o : Result ArticleSearchResult)
      (beside : CacheWorld C → CacheWorld C) (w : CacheWorld C)
      → AreAllArticles o
      → AreAllArticles (search_articles C key aborted existing (waits_for gone o beside) w).1
  unfolding search_articles
  waited-AreAllArticles key true existing gone o beside w good = tt
  waited-AreAllArticles key false existing gone o beside w good = AreAllArticles-of_ok _ (λ r.
      answer-AreArticles existing (waits_for gone o beside) (read_cached_articles C key w).1
        (read_cached_articles C key w).0 r (read_cached-AreArticles C key w)
        (λ v c. waited_good gone o c good))

  -- Whatever the cache and the leases hold in each round, whatever the provider sends, and whatever
  -- the circuits, the retries and the signals do: if some round finds the wait for another replica
  -- over, the fetch behind a search has a result, and the search, which may share that fetch with
  -- others or be cancelled, fails or gives a list of values that all pass the test for an article,
  -- from the cache before or in any round, from the provider, or from the stale copy.
  pub search_articles-AreArticles :
      (date_parse : Text → Option ℤ) (stale_ttl : ℕ) (key : String) (poll deadline n : ℕ)
      (rounds : ℕ → FetchRound C) (aborted_fetch has_leases aborted existing gone : Bool)
      (beside : CacheWorld C → CacheWorld C) (w : CacheWorld C)
      → deadline ≤ (fetch_round C date_parse stale_ttl key (rounds n)).now
      → (o : Result ArticleSearchResult) × (fetch_coordinated C date_parse stale_ttl key poll
            deadline rounds
            (suc n)
            aborted_fetch
            has_leases
          ≡ some o)
        × AreAllArticles (search_articles C key aborted existing (waits_for gone o beside) w).1
  search_articles-AreArticles date_parse stale_ttl key poll deadline n rounds aborted_fetch
        has_leases aborted existing gone beside w late =
      let (o, ends, good) =
        fetch_coordinated-AreAllArticles C date_parse stale_ttl key poll deadline n rounds
          aborted_fetch has_leases late in
      (o, ends, waited-AreAllArticles key aborted existing gone o beside w good)

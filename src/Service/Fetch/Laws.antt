-- ===== src/Service/Fetch/Laws.antt =====
-- The articles that a read, a load and a fetch of src/services/newsService.ts give.
use news_api.Cache.Coordinator.Laws.{coordinate_cache_miss-IsCoordinated}
use news_api.Cache.Coordinator.Origin.{HoldsOf, coordinate_cache_miss-HoldsIn}
use news_api.Cache.Coordinator.{Source, Round, shared_cache, upstream, bypassed}
use news_api.Service.Fetch.{FetchRound, fetch_round, fetch_coordinated}
use news_api.Service.Cached.Laws.{
  labelled_with, usable, usable-AreArticles, read_reply-usable, IsLoaded, loaded,
  load_articles_from_upstream-IsLoaded, cancelled, served, failed,
}
use news_api.Base.Int.{ℤ}
use news_api.Js.Text.{Text}
use news_api.Types.Article.{Json}
use news_api.Provider.Request.{gnews_search, SearchRun, after_admission}
use news_api.Base.{
  String, ◌≡◌, refl, sym, ◌∙◌, inl, inr, Option, none, some, List, arith, Bool-cases, Bool, ℕ, ◌≤◌,
  suc,
}
use news_api.Service.Cached.{
  CacheStore, CacheWorld, CacheStatus, read_cached_articles, ArticleSearchResult, read_entry, hit,
  fresh_kind, miss, stale,
}
use news_api.Service.Search.{fetch_articles_from_upstream}
use news_api.Provider.Search.Laws.{AreArticles, settle-IsSuccess}
use news_api.Provider.Circuit.{CircuitWorld, CircuitRequestState, assert_circuit_allows_request}
use news_api.Errors.{Result, ok, throw, ok-ne-throw}
use mathlib.Core.List.{List}

gnews_search-AreArticles :
    (date_parse : Text → Option ℤ) (run : SearchRun) (w : CircuitWorld) (l : List Json)
    → (gnews_search date_parse run w).1 ≡ ok l
    → AreArticles l
unfolding gnews_search
gnews_search-AreArticles date_parse run w l h = elim (Bool-cases run.aborted_before) [
  | inl gone ↦ absurd (ok-ne-throw _ _ (rw gone at h))
  | inr live ↦ admitted (assert_circuit_allows_request run.cooldown w run.started) (rw live at h)
]
  where
    admitted :
        (a : CircuitWorld × Result CircuitRequestState)
        → (after_admission date_parse run a).1 ≡ ok l
        → AreArticles l
    admitted (w', throw e) h' = absurd (ok-ne-throw _ _ h')
    admitted (w', ok state) h' =
        (settle-IsSuccess date_parse run.threshold state run.ended run.signals _ (run.beside w') l
          h').articles_valid

labelled_with-AreArticles :
    (status : CacheStatus) (o : Option (List Json)) (c : ArticleSearchResult)
    → ((l : List Json) → o ≡ some l → AreArticles l)
    → labelled_with status o ≡ some c
    → AreArticles c.articles
labelled_with-AreArticles status none c valid h = absurd (ground arith)
labelled_with-AreArticles status (some l) c valid h =
    let same : record { articles = l; cache = status } ≡ c = cc h in rw (← same) (valid l refl)

-- A list of articles, each of which passes the test for one, if there is a result.
abbrev pub AreAllArticles : Result ArticleSearchResult → Type 0
AreAllArticles (ok r) = AreArticles r.articles
AreAllArticles (throw e) = Unit {0}

pub AreAllArticles-of_ok :
    (o : Result ArticleSearchResult)
    → ((r : ArticleSearchResult) → o ≡ ok r → AreArticles r.articles)
    → AreAllArticles o
AreAllArticles-of_ok (ok r) h = h r refl
AreAllArticles-of_ok (throw e) h = tt

pub AreAllArticles-ok :
    (o : Result ArticleSearchResult) (r : ArticleSearchResult)
    → AreAllArticles o
    → o ≡ ok r
    → AreArticles r.articles
AreAllArticles-ok o r good h = rw h at good

module _ (C : CacheStore) where
  pub read_cached-AreArticles :
      (key : String) (w : CacheWorld C) (c : ArticleSearchResult)
      → (read_cached_articles C key w).1 ≡ some c
      → AreArticles c.articles
  unfolding read_cached_articles read_entry
  read_cached-AreArticles key w c h =
      labelled_with-AreArticles hit (usable (C.get key w.store).1) c
        (usable-AreArticles (C.get key w.store).1)
        (sym (read_reply-usable C (fresh_kind C) key (C.get key w.store).1 _) ∙ h)

  loaded-AreArticles :
      (stale_ttl : ℕ) (key : String) (aborted : Bool) (w : CacheWorld C)
      (searched : Result (List Json)) (o : CacheWorld C × Result ArticleSearchResult)
      (r : ArticleSearchResult)
      → ((l : List Json) → searched ≡ ok l → AreArticles l)
      → IsLoaded C stale_ttl key aborted w searched o
      → o.1 ≡ ok r
      → AreArticles r.articles
  loaded-AreArticles stale_ttl key aborted w _ _ r valid (loaded l live) h =
      let same : record { articles = l; cache = miss } ≡ r = cc h in rw (← same) (valid l refl)
  loaded-AreArticles stale_ttl key aborted w _ _ r valid (cancelled searched e why cancel) h =
      absurd (ok-ne-throw _ _ h)
  loaded-AreArticles stale_ttl key aborted w _ _ r valid (served e l live other kept good) h =
      let same : record { articles = l; cache = stale } ≡ r = cc h in rw (← same) good
  loaded-AreArticles stale_ttl key aborted w _ _ r valid (failed e live other gone) h =
      absurd (ok-ne-throw _ _ h)

  fetch_articles_from_upstream-AreAllArticles :
      (o : Result (ArticleSearchResult × Source))
      → HoldsOf (λ c. AreArticles c.articles) o
      → AreAllArticles (fetch_articles_from_upstream o)
  unfolding fetch_articles_from_upstream
  fetch_articles_from_upstream-AreAllArticles (ok (r, shared_cache)) good = good
  fetch_articles_from_upstream-AreAllArticles (ok (r, upstream)) good = good
  fetch_articles_from_upstream-AreAllArticles (ok (r, bypassed)) good = good
  fetch_articles_from_upstream-AreAllArticles (throw e) good = tt

  module _ (date_parse : Text → Option ℤ) (stale_ttl : ℕ) (key : String) where
    fetch_round-loaded-AreArticles :
        (r : FetchRound C) (c : ArticleSearchResult)
        → (fetch_round C date_parse stale_ttl key r).loaded ≡ ok c
        → AreArticles c.articles
    unfolding fetch_round
    fetch_round-loaded-AreArticles r c h =
        loaded-AreArticles stale_ttl key r.aborted_load r.load_world
          (gnews_search date_parse r.run r.circuit).1 _ c
          (gnews_search-AreArticles date_parse r.run r.circuit)
          (load_articles_from_upstream-IsLoaded C stale_ttl key r.aborted_load
            (gnews_search date_parse r.run r.circuit).1 r.load_world)
          h

    fetch_round-fresh-AreArticles :
        (r : FetchRound C) (c : ArticleSearchResult)
        → (fetch_round C date_parse stale_ttl key r).fresh ≡ ok (some c)
        → AreArticles c.articles
    unfolding fetch_round
    fetch_round-fresh-AreArticles r c h =
        let found : (read_cached_articles C key r.read_world).1 ≡ some c = cc h in
        read_cached-AreArticles key r.read_world c found

    -- Once a round finds the wait for another replica over, the fetch has a result, and if that is a
    -- list, it is one of articles.
    pub fetch_coordinated-AreAllArticles :
        (poll deadline n : ℕ) (rounds : ℕ → FetchRound C) (aborted has_leases : Bool)
        → deadline ≤ (fetch_round C date_parse stale_ttl key (rounds n)).now
        → (o : Result ArticleSearchResult) × (fetch_coordinated C date_parse stale_ttl key poll
              deadline rounds
              (suc n)
              aborted
              has_leases
            ≡ some o)
          × AreAllArticles o
    unfolding fetch_coordinated
    fetch_coordinated-AreAllArticles poll deadline n rounds aborted has_leases late =
        let world : ℕ → Round ArticleSearchResult =
          λ k. fetch_round C date_parse stale_ttl key (rounds k) in
        let (c, ends, kept) =
          coordinate_cache_miss-IsCoordinated n poll deadline world aborted has_leases late in
        let good =
          coordinate_cache_miss-HoldsIn (λ c. AreArticles c.articles) world
            (λ k. fetch_round-fresh-AreArticles (rounds k))
            (λ k. fetch_round-loaded-AreArticles (rounds k)) poll deadline (suc n) aborted
            has_leases in
        (
          fetch_articles_from_upstream c.result,
          rw (fetch_coordinated, ends) refl,
          fetch_articles_from_upstream-AreAllArticles c.result (rw ends at good),
        )

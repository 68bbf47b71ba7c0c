-- ===== src/Service/Cached/Laws.antt =====
-- What a read of the cache may return, and what the load of a search gives on every branch.
use news_api.Service.Cached.{
  CacheStatus, CacheStore, ArticleSearchResult, CacheWorld, ReadKind, arr, elements,
  read_stale_cached_articles, read_entry, read_reply, stale_cache_key, write_cached_articles, miss,
  stale, stale_kind,
}
use news_api.Service.Search.{load_articles_from_upstream, fall_back, or_thrown}
use news_api.Errors.{
  Result, Thrown, ok, throw, is_request_aborted_error, throw_if_aborted, as_aborted,
  is_request_aborted-as_aborted, request_aborted_error,
}
use news_api.Types.Article.{Json, is_article_list, elements, is_article, items}
use news_api.Base.{
  ℕ, String, ◌≡◌, refl, inl, inr, Bool, true, false, Option, none, some, List, arith, if◌then◌else◌,
  Bool-cases, all, ◌⊎◌,
}
use news_api.Provider.Search.Laws.{AreArticles, AreArticles-of_list}

-- What the value of an entry makes of a read.
abbrev pub accepted : Option Json → Option (List Json)
accepted none = none
accepted (some v) = if is_article_list v then some (elements v) else none

-- The article list that the store gives under a key, if it does.
abbrev pub usable : Result (Option Json) → Option (List Json)
usable (throw e) = none
usable (ok o) = accepted o

abbrev pub labelled_with : CacheStatus → Option (List Json) → Option ArticleSearchResult
labelled_with status none = none
labelled_with status (some l) = some (record { articles = l; cache = status })

accepted-AreArticles : (o : Option Json) (l : List Json) → accepted o ≡ some l → AreArticles l
unfolding is_article_list
accepted-AreArticles (some (arr vs)) l h = elim (Bool-cases (all is_article (items vs))) [
  | inl good ↦
      let same : items vs ≡ l = ground arith in rw (← same) (AreArticles-of_list (items vs) good)
  | inr bad ↦ absurd (ground arith)
]
accepted-AreArticles o l h = absurd (ground arith)

pub usable-AreArticles :
    (r : Result (Option Json)) (l : List Json) → usable r ≡ some l → AreArticles l
usable-AreArticles (ok o) l h = accepted-AreArticles o l h
usable-AreArticles (throw e) l h = absurd (ground arith)

module _ (C : CacheStore) where
  pub read_reply-usable :
      (kind : ReadKind C) (key : String) (r : Result (Option Json)) (w : CacheWorld C)
      → (read_reply C kind key r w).1 ≡ labelled_with kind.status (usable r)
  read_reply-usable kind key (throw e) w = refl
  read_reply-usable kind key (ok none) w = refl
  read_reply-usable kind key (ok (some v)) w = ground arith

  -- The stale copy of a search that the store gives.
  abbrev pub stale_copy : String → CacheWorld C → Option (List Json)
  stale_copy key w = usable (C.get (stale_cache_key key) w.store).1

  -- The signal is aborted, or the provider's error is a cancellation.
  abbrev pub IsCancelled : Bool → Result (List Json) → Type 0
  IsCancelled aborted (ok l) = aborted ≡ true
  IsCancelled aborted (throw e) = (aborted ≡ true) ⊎ (is_request_aborted_error e ≡ true)

  -- What a load may give, for what the provider's search gave.
  pub data IsLoaded (stale_ttl : ℕ) (key : String) (aborted : Bool) (w : CacheWorld C)
      : Result (List Json) → CacheWorld C × Result ArticleSearchResult → Type 0 where
    loaded :
        (l : List Json)
        → aborted ≡ false
        → IsLoaded stale_ttl key aborted w
            (ok l)
            (write_cached_articles C stale_ttl key l w, ok (record { articles = l; cache = miss }))
    cancelled :
        (searched : Result (List Json)) (e : Thrown)
        → IsCancelled aborted searched
        → is_request_aborted_error e ≡ true
        → IsLoaded stale_ttl key aborted w searched (w, throw e)
    served :
        (e : Thrown) (l : List Json)
        → aborted ≡ false
        → is_request_aborted_error e ≡ false
        → stale_copy key w ≡ some l
        → AreArticles l
        → IsLoaded stale_ttl key aborted w
            (throw e)
            ((read_stale_cached_articles C key w).0, ok (record { articles = l; cache = stale }))
    failed :
        (e : Thrown)
        → aborted ≡ false
        → is_request_aborted_error e ≡ false
        → stale_copy key w ≡ none
        → IsLoaded stale_ttl key aborted w
            (throw e)
            ((read_stale_cached_articles C key w).0, throw e)

  stale_loaded :
      (stale_ttl : ℕ) (key : String) (e : Thrown) (w : CacheWorld C) (o : Option (List Json))
      → is_request_aborted_error e ≡ false
      → stale_copy key w ≡ o
      → IsLoaded stale_ttl key false w
          (throw e)
          ((read_stale_cached_articles C key w).0, or_thrown C e (labelled_with stale o))
  stale_loaded stale_ttl key e w none no_cancel h = failed e refl no_cancel h
  stale_loaded stale_ttl key e w (some l) no_cancel h =
      served e l refl no_cancel h (usable-AreArticles _ l h)

  read_stale-usable :
      (key : String) (w : CacheWorld C)
      → (read_stale_cached_articles C key w).1 ≡ labelled_with stale (stale_copy key w)
  unfolding read_stale_cached_articles read_entry
  read_stale-usable key w = read_reply-usable (stale_kind C) (stale_cache_key key) _ _

  fall_back-IsLoaded :
      (stale_ttl : ℕ) (key : String) (aborted : Bool) (e : Thrown) (w : CacheWorld C)
      → IsLoaded stale_ttl key aborted w (throw e) (fall_back C key aborted e w)
  fall_back-IsLoaded stale_ttl key true e w =
      cancelled (throw e) (as_aborted e) (inl refl) (is_request_aborted-as_aborted e)
  fall_back-IsLoaded stale_ttl key false e w = elim (Bool-cases (is_request_aborted_error e)) [
    | inl cancel ↦
        rw cancel
          (cancelled (throw e) (as_aborted e) (inr cancel) (is_request_aborted-as_aborted e))
    | inr other ↦
        rw (other, read_stale-usable key w)
          (stale_loaded stale_ttl key e w (stale_copy key w) other refl)
  ]

  -- A load gives the provider's articles under the status "miss" and writes them to the cache, unless
  -- the signal is aborted; it throws a cancellation if the signal is aborted or the provider's error
  -- is one; and otherwise it gives the stale copy in the store under the status "stale" when that is
  -- a list of valid articles, and throws the provider's own error when it is not.
  pub load_articles_from_upstream-IsLoaded :
      (stale_ttl : ℕ) (key : String) (aborted : Bool) (searched : Result (List Json))
      (w : CacheWorld C)
      → IsLoaded stale_ttl key aborted w searched
          (load_articles_from_upstream C stale_ttl key aborted searched w)
  unfolding load_articles_from_upstream throw_if_aborted write_cached_articles
      read_stale_cached_articles
  load_articles_from_upstream-IsLoaded stale_ttl key false (ok l) w = loaded l refl
  load_articles_from_upstream-IsLoaded stale_ttl key true (ok l) w =
      cancelled (ok l) (as_aborted request_aborted_error) refl (is_request_aborted-as_aborted _)
  load_articles_from_upstream-IsLoaded stale_ttl key aborted (throw e) w =
      fall_back-IsLoaded stale_ttl key aborted e w

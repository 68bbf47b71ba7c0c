-- ===== src/Service/Cached.antt =====
-- src/services/newsService.ts: the cached reads and writes of a search. The store is the interface
-- `CacheStore` of src/cache/store.ts, which both stores of that file offer.
pub mod Laws
pub mod OnRedis
use news_api.Cache.Memory.{ttl_sec}
use news_api.Config.Numbers.{resolve_positive_integer_env}
use news_api.Cache.Coordinator.{Source, shared_cache}
use news_api.Js.Text.{Text}
use news_api.Types.Article.{Json, Items, arr, property, str, is_article_list, nil, cons, elements}
use news_api.Errors.{
  ErrorClass, Result, Thrown, cache_corruption, error, is_request_aborted_error, ok, throw, ◌>>=◌,
  as_aborted, no_error, request_aborted_error, throw_if_aborted, ◌>>◌,
}
use news_api.Base.{
  ℕ, String, Bool, true, false, not, Option, none, some, List, [], ◌∷◌, ltb, if◌then◌else◌,
}
use Prim.Native.String.{◌++◌}

-- A store over states `S`. A call can fail, and can change the store also when it reads.
pub record CacheStore : Type 1 where
  pub S : Type 0
  pub get : String → S → S × Result (Option Json)
  pub set : String → Json → ℕ → S → S × Result (Unit {0})
  pub delete : String → S → S × Result (Unit {0})

-- The labels of `cacheEventsTotal`, and of `cacheErrorsTotal`.
pub data CacheEvent : Type 0 where
  hit_event miss_event error_event coalesced_event stale_event : CacheEvent

pub data CacheOperation : Type 0 where
  get_operation get_stale_operation set_operation set_stale_operation : CacheOperation
  delete_operation delete_stale_operation : CacheOperation

pub data CacheStatus : Type 0 where
  hit miss coalesced stale : CacheStatus

pub record ArticleSearchResult : Type 0 where
  pub articles : List Json
  pub cache : CacheStatus

abbrev pub stale_cache_key : String → String
stale_cache_key cache_key = cache_key ++ ":stale"

unfoldable pub resolve_stale_cache_ttl_sec : Option Text → ℕ
resolve_stale_cache_ttl_sec raw =
    let configured = resolve_positive_integer_env raw 3_600 86_400 in
    if ltb 600 configured then configured else 3_600

-- An array of the values.
abbrev pub of_list : List Json → Items
of_list [] = nil
of_list (v ∷ vs) = cons v (of_list vs)

abbrev pub is_corruption_class : ErrorClass → Bool
is_corruption_class cache_corruption = true
is_corruption_class _ = false

-- `err instanceof CacheCorruptionError`.
abbrev pub is_corruption : Thrown → Bool
is_corruption no_error = false
is_corruption (error e) = is_corruption_class e.cls

module _ (C : CacheStore) where
  -- The store with the metrics, the newest first.
  pub record CacheWorld : Type 0 where
    pub store : C.S
    pub events : List CacheEvent
    pub errors : List CacheOperation

  abbrev pub count_error : CacheOperation → CacheWorld → CacheWorld
  count_error op w = record w { errors = op ∷ w.errors }

  abbrev pub count_cache_event : CacheEvent → CacheWorld → CacheWorld
  count_cache_event e w = record w { events = e ∷ w.events }

  -- The operation of a call that failed is counted; one that did not fail is not.
  abbrev pub count_failure : {A : Type 0} → CacheOperation → Result A → CacheWorld → CacheWorld
  count_failure op (ok a) w = w
  count_failure op (throw e) w = count_error op w

  -- `deleteCorruptCacheEntry(store, key, operation)`.
  unfoldable pub delete_corrupt_cache_entry : String → CacheOperation → CacheWorld → CacheWorld
  delete_corrupt_cache_entry key operation w =
      let (store, r) = C.delete key w.store in
      count_failure operation r (record w { store = store })

  -- The labels of a kind of read: the operation that reads, the one that deletes, whether misses
  -- and errors are counted as events, and the event and the status of a hit.
  pub record ReadKind : Type 0 where
    pub get_op : CacheOperation
    pub delete_op : CacheOperation
    pub counts : Bool
    pub found : CacheEvent
    pub status : CacheStatus

  abbrev pub note_event : ReadKind → CacheEvent → CacheWorld → CacheWorld
  note_event kind e w = if kind.counts then count_cache_event e w else w

  -- What a read does with the reply of the store.
  abbrev pub read_reply :
      ReadKind
      → String
      → Result (Option Json)
      → CacheWorld
      → CacheWorld × Option ArticleSearchResult
  read_reply kind key (throw e) w =
      let failed = count_error kind.get_op (note_event kind error_event w) in
      (
        if is_corruption e then delete_corrupt_cache_entry key kind.delete_op failed else failed,
        none,
      )
  read_reply kind key (ok none) w = (note_event kind miss_event w, none)
  read_reply kind key (ok (some v)) w =
      if not (is_article_list v)
      then (
        delete_corrupt_cache_entry key kind.delete_op
            (count_error kind.get_op (note_event kind error_event w)),
        none,
      )
      else (
        count_cache_event kind.found w,
        some (record { articles = elements v; cache = kind.status }),
      )

  unfoldable pub read_entry :
      ReadKind → String → CacheWorld → CacheWorld × Option ArticleSearchResult
  unfolding delete_corrupt_cache_entry
  read_entry kind key w =
      let (store, reply) = C.get key w.store in
      read_reply kind key reply (record w { store = store })

  abbrev pub fresh_kind : ReadKind
  fresh_kind = record {
    get_op = get_operation;
    delete_op = delete_operation;
    counts = true;
    found = hit_event;
    status = hit;
  }

  abbrev pub stale_kind : ReadKind
  stale_kind = record {
    get_op = get_stale_operation;
    delete_op = delete_stale_operation;
    counts = false;
    found = stale_event;
    status = stale;
  }

  -- `readCachedArticles(store, cacheKey)`.
  unfoldable pub read_cached_articles :
      String → CacheWorld → CacheWorld × Option ArticleSearchResult
  unfolding read_entry
  read_cached_articles key = read_entry fresh_kind key

  -- `readStaleCachedArticles(store, cacheKey)`.
  unfoldable pub read_stale_cached_articles :
      String → CacheWorld → CacheWorld × Option ArticleSearchResult
  unfolding read_entry
  read_stale_cached_articles key = read_entry stale_kind (stale_cache_key key)

  -- The two parts of `writeCachedArticles`, and the whole: a write that fails is only counted.
  abbrev pub write_entry : String → Json → ℕ → CacheOperation → CacheWorld → CacheWorld
  write_entry key value ttl operation w =
      let (store, r) = C.set key value ttl w.store in
      count_failure operation r (record w { store = store })

  unfoldable pub write_cached_articles : ℕ → String → List Json → CacheWorld → CacheWorld
  write_cached_articles stale_ttl key articles w =
      write_entry (stale_cache_key key) (arr (of_list articles)) stale_ttl set_stale_operation
        (write_entry key (arr (of_list articles)) ttl_sec set_operation w)

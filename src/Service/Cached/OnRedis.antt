-- ===== src/Service/Cached/OnRedis.antt =====
-- The cached reads and writes of a search on the Redis store: when a search is answered from the
-- entry, when the stale copy stands in for a provider that fails, and when neither is left.
use news_api.Cache.Redis.{Delivery, answered}
use news_api.Cache.Memory.{ttl_sec}
use news_api.Cache.Redis.Laws.{RedisLaws, redis_get-set}
use news_api.Provider.Search.Laws.{AreArticles}
use news_api.Service.Cached.{
  of_list, stale_cache_key, CacheStore, CacheWorld, ttl_sec, write_cached_articles,
  read_cached_articles, read_stale_cached_articles, read_entry, hit, stale,
}
use news_api.Service.Search.{search_articles, load_articles_from_upstream}
use news_api.Errors.{Thrown, ok, is_request_aborted_error, throw}
use news_api.Base.{
  ℕ, ◌*◌, ◌<◌, String, ◌≡◌, refl, ap, inl, inr, true, false, none, some, List, [], ◌∷◌, arith,
  eq_iff, ltb, str_eq, if◌then◌else◌, Bool-cases, all,
}
use news_api.Types.Article.{Json, arr, is_article, is_article_list, items}
use news_api.Cache.Redis.{Redis, JsonText, redis_get, redis_set, redis_delete}
use text.Mathlib.TextPositions.{len-append}
use Prim.Native.String.{len}
use mathlib.Core.List.{List, [], ◌∷◌}

-- `createRedisStore(url)`, as the store that the news service reads and writes; `delivery` is what
-- becomes of a command.
abbrev pub redis_store : Redis → JsonText → Delivery → CacheStore
redis_store R json delivery = record {
  S = R.S;
  get = λ key s. redis_get R json delivery key s;
  set = λ key v ttl s. redis_set R json delivery key v ttl s;
  delete = λ key s. redis_delete R delivery key s;
}

items-of_list : (l : List Json) → items (of_list l) ≡ l
items-of_list [] = refl
items-of_list (v ∷ l) = ap (λ t. v ∷ t) (items-of_list l)

all-AreArticles : (l : List Json) → AreArticles l → all is_article l ≡ true
all-AreArticles [] h = refl
all-AreArticles (v ∷ l) h = rw (h.0, all-AreArticles l h.1)

is_article_list-of_list : (l : List Json) → AreArticles l → is_article_list (arr (of_list l)) ≡ true
unfolding is_article_list
is_article_list-of_list l h = rw (items-of_list l, all-AreArticles l h)

-- The key of the stale copy is another key.
stale_key-ne : (key : String) → str_eq key (stale_cache_key key) ≡ false
stale_key-ne key = elim (Bool-cases (str_eq key (stale_cache_key key))) [
  | inl same ↦
      absurd
        (omega (arith, len-append key ":stale", ap len ((eq_iff key (stale_cache_key key)).0 same)))
  | inr other ↦ other
]

str_eq_comm : (a b : String) → str_eq a b ≡ str_eq b a
str_eq_comm a b = ground (arith, eq_iff a b, eq_iff b a)

module _ (R : Redis) (laws : RedisLaws R) (json : JsonText) where
  -- Some milliseconds pass.
  abbrev pub later :
      ℕ → CacheWorld (redis_store R json answered) → CacheWorld (redis_store R json answered)
  later d w = record w { store = laws.elapse d w.store }

  module _ (stale_ttl d : ℕ) (key : String) (l : List Json) (s : R.S)
      (back : json.parse (json.stringify (arr (of_list l))) ≡ some (arr (of_list l)))
      (pos : 0 < stale_ttl) where
    -- The store after both writes, and some time later.
    abbrev written : R.S
    written =
        laws.elapse d
          (redis_set R json answered (stale_cache_key key) (arr (of_list l)) stale_ttl
            (redis_set R json answered key (arr (of_list l)) ttl_sec s).0).0

    fresh_reply :
        (redis_get R json answered key written).1
        ≡ (if ltb d 600_000 then ok (some (arr (of_list l))) else ok none)
    fresh_reply = rw (
      redis_get-set R laws json (stale_cache_key key) key (arr (of_list l)) stale_ttl d _ back pos,
      redis_get-set R laws json key key (arr (of_list l)) ttl_sec d s back (omega arith),
      str_eq_comm (stale_cache_key key) key,
      stale_key-ne key,
      (eq_iff key key).1 refl,
    )

    stale_reply :
        (redis_get R json answered (stale_cache_key key) written).1
        ≡ (if ltb d (1_000 * stale_ttl) then ok (some (arr (of_list l))) else ok none)
    stale_reply = rw (
      redis_get-set R laws json (stale_cache_key key) (stale_cache_key key) (arr (of_list l))
          stale_ttl d _ back pos,
      (eq_iff (stale_cache_key key) (stale_cache_key key)).1 refl,
    )

  -- A search that wrote its articles to a Redis that keeps its promises, then the same search `d`
  -- milliseconds later, alone and with a live signal, while the provider fails with an error that is
  -- no cancellation: it is answered from the entry for ten minutes, then with the stale copy until
  -- the stale time is over, and then with the provider's error. The articles are valid, their JSON
  -- text parses back to them, and the stale time is positive.
  pub search_articles-write_cached_articles :
      (stale_ttl d : ℕ) (key : String) (l : List Json) (e : Thrown)
      (w : CacheWorld (redis_store R json answered))
      → AreArticles l
      → json.parse (json.stringify (arr (of_list l))) ≡ some (arr (of_list l))
      → 0 < stale_ttl
      → is_request_aborted_error e ≡ false
      → (search_articles
          (redis_store R json answered)
          key
          false
          false
          (load_articles_from_upstream (redis_store R json answered) stale_ttl key false (throw e))
          (later d (write_cached_articles (redis_store R json answered) stale_ttl key l w))).1
        ≡ (if ltb d 600_000
            then ok (record { articles = l; cache = hit })
            else if ltb d (1_000 * stale_ttl)
            then ok (record { articles = l; cache = stale })
            else throw e)
  unfolding search_articles load_articles_from_upstream write_cached_articles read_cached_articles
      read_stale_cached_articles read_entry redis_get redis_set
  search_articles-write_cached_articles stale_ttl d key l e w valid back pos no_cancel =
      let fresh = fresh_reply stale_ttl d key l w.store back pos in
      let listed = is_article_list-of_list l valid in
      elim (Bool-cases (ltb d 600_000)) [
        | inl early ↦ rw (fresh, early, listed, items-of_list l)
        | inr late ↦ elim (Bool-cases (ltb d (1_000 * stale_ttl))) [
          | inl kept ↦ rw (
            fresh,
            late,
            stale_reply stale_ttl d key l w.store back pos,
            kept,
            no_cancel,
            listed,
            items-of_list l,
          )
          | inr gone ↦
              rw (fresh, late, stale_reply stale_ttl d key l w.store back pos, gone, no_cancel)
        ]
      ]

-- ===== src/Cache/Memory.antt =====
-- src/cache/store.ts, the in-process store: a `NodeCache` with a limit on its keys, and the order
-- in which the keys were last used. `NodeCache` is no code of the repository: its operations are
-- the record `NodeCache`, and what its documentation promises of them is `NodeCacheLaws`.
pub mod Recency
pub mod Eviction
pub mod Storing
pub mod Instance
use news_api.Config.Numbers.{resolve_positive_integer_env}
use news_api.Js.Text.{Text}
use news_api.Base.{
  ℕ, zero, suc, ◌+◌, String, Bool, true, false, ◌||◌, Option, none, some, List, [], ◌∷◌, ◌++◌, leb,
  str_eq, if◌then◌else◌, is_some, length,
}

-- The recency map as its keys in the order of insertion, the oldest first.
unfoldable pub contains : String → List String → Bool
contains key [] = false
contains key (k ∷ ks) = str_eq k key || contains key ks

-- `recency.delete(key)`.
unfoldable pub remove : String → List String → List String
remove key [] = []
remove key (k ∷ ks) = let rest = remove key ks in if str_eq k key then rest else k ∷ rest

-- `touch(key)`.
unfoldable pub touch : String → List String → List String
unfolding remove
touch key recency = remove key recency ++ key ∷ []

-- The operations of a `NodeCache` over states `S` and values `V`. A read or a test of a key can
-- drop that key, if it has expired; `set` can refuse a new key.
pub record NodeCache : Type 1 where
  pub S : Type 0
  pub V : Type 0
  pub get : String → S → S × Option V
  pub has : String → S → S × Bool
  pub keys : S → List String
  pub count : S → ℕ
  pub set : String → V → ℕ → S → Option S
  pub del : String → S → S

abbrev pub ttl_sec : ℕ
ttl_sec = 600

unfoldable pub resolve_memory_cache_max_keys : Option Text → ℕ
resolve_memory_cache_max_keys raw = resolve_positive_integer_env raw 2_000 100_000

module _ (N : NodeCache) where
  -- The store: the cache, the recency map, and `cacheEvictionsTotal`.
  pub record MemoryStore : Type 0 where
    pub cache : N.S
    pub recency : List String
    pub evictions : ℕ

  -- The fallback of `evictLeastRecentlyUsed`: the first key of the cache, unless that is "".
  abbrev pub evict_fallback : MemoryStore → List String → MemoryStore × Bool
  evict_fallback m [] = (m, false)
  evict_fallback m (k ∷ ks) =
      if str_eq k ""
      then (m, false)
      else (record m { cache = N.del k m.cache; evictions = m.evictions + 1 }, true)

  abbrev pub evict_oldest : MemoryStore → List String → MemoryStore × Bool
  evict_oldest m [] = evict_fallback m (N.keys m.cache)
  evict_oldest m (oldest ∷ rest) = (
    record {
      cache = N.del oldest m.cache;
      recency = remove oldest (oldest ∷ rest);
      evictions = m.evictions + 1;
    },
    true,
  )

  -- `evictLeastRecentlyUsed()`.
  unfoldable pub evict_least_recently_used : MemoryStore → MemoryStore × Bool
  evict_least_recently_used m = evict_oldest m m.recency

  module _ (max_keys : ℕ) where
    -- The loop of `makeRoom`, on fuel.
    unfoldable pub evict_while_full : ℕ → MemoryStore → MemoryStore
    evict_while_full zero m = m
    evict_while_full (suc f) m =
        if leb max_keys (N.count m.cache)
        then elim (evict_least_recently_used m).1 [
          | true ↦ evict_while_full f (evict_least_recently_used m).0
          | false ↦ (evict_least_recently_used m).0
        ]
        else m

    -- `makeRoom(key)`. Each round of its loop takes a key of the recency map, or one of the cache.
    unfoldable pub make_room : String → MemoryStore → MemoryStore
    make_room key m =
        let (cache, present) = N.has key m.cache in
        let m' = record m {
          cache = if present then N.del key cache else cache;
          recency = remove key m.recency;
        } in
        evict_while_full (suc (length m'.recency + N.count m'.cache)) m'

    -- `set(key, value, ttlSec)`; `none` is the error of a cache that refuses the key.
    unfoldable pub store_set : String → N.V → ℕ → MemoryStore → Option MemoryStore
    store_set key value ttl m =
        let roomy = make_room key m in
        elim (N.set key value ttl roomy.cache) [
          | none ↦ none
          | some cache ↦ some (record roomy { cache = cache; recency = touch key roomy.recency })
        ]

  -- `get(key)`.
  unfoldable pub store_get : String → MemoryStore → MemoryStore × Option N.V
  store_get key m =
      let (cache, value) = N.get key m.cache in
      let recency = if is_some value then touch key m.recency else remove key m.recency in
      (record m { cache = cache; recency = recency }, value)

  -- `delete(key)`.
  unfoldable pub store_delete : String → MemoryStore → MemoryStore
  store_delete key m = record m { cache = N.del key m.cache; recency = remove key m.recency }

-- ===== src/Cache/Store.antt =====
-- src/cache/store.ts: which store the program uses, and its disconnection.
use news_api.Base.{Bool, true, false, ◌||◌, Option, none, some, ◌==◌, if◌then◌else◌, length}
use news_api.Errors.{Result, ok}
use news_api.Js.Text.{Text, trim}

-- The store in the process, or the one on Redis at a URL.
pub data StoreKind : Type 0 where
  memory_kind : StoreKind
  redis_kind : (url : Text) → StoreKind

-- The module's variables: the store, once there is one, and whether there is a client of Redis.
pub record StoreModule : Type 0 where
  pub singleton : Option StoreKind
  pub redis_client : Bool

abbrev pub no_store : StoreModule
no_store = record { singleton = none; redis_client = false }

abbrev pub kind_of : Option Text → StoreKind
kind_of none = memory_kind
kind_of (some url) = if length (trim url) == 0 then memory_kind else redis_kind (trim url)

abbrev pub on_redis : StoreKind → Bool
on_redis memory_kind = false
on_redis (redis_kind url) = true

abbrev pub make_store : StoreKind → StoreModule → StoreKind × StoreModule
make_store kind m =
    (kind, record { singleton = some kind; redis_client = on_redis kind || m.redis_client })

abbrev pub store_or_make : Option StoreKind → Option Text → StoreModule → StoreKind × StoreModule
store_or_make (some kind) redis_url m = (kind, m)
store_or_make none redis_url m = make_store (kind_of redis_url) m

-- `getCacheStore()`.
unfoldable pub get_cache_store : Option Text → StoreModule → StoreKind × StoreModule
unfolding trim
get_cache_store redis_url m = store_or_make m.singleton redis_url m

-- `getCacheLeaseStore(store)`: only the store on Redis has leases.
unfoldable pub get_cache_lease_store : StoreKind → Option StoreKind
get_cache_lease_store memory_kind = none
get_cache_lease_store (redis_kind url) = some (redis_kind url)

-- `disconnectCacheStore()`, with the result of `quit`.
unfoldable pub disconnect_cache_store :
    Result (Unit {0}) → StoreModule → StoreModule × Result (Unit {0})
disconnect_cache_store quit m = if m.redis_client then (no_store, quit) else (m, ok tt)

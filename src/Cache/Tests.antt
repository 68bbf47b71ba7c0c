-- ===== src/Cache/Tests.antt =====
-- The stores, the coordination and the heartbeat of src/cache at concrete inputs.
use news_api.Cache.Heartbeat.Laws.{
  IsHeartbeat, IsSilent, start_lease_heartbeat-IsHeartbeat, stopped_heartbeat-IsSilent,
}
use news_api.Cache.Heartbeat.{answer, fire, HeartbeatEvent, run_heartbeat, start_lease_heartbeat}
use news_api.Types.Article.{null}
use news_api.Cache.Redis.{JsonText, answered, unanswered}
use news_api.Js.Text.{codes, text_eq}
use news_api.Cache.Redis.Lease.{view, run_calls, run_calls-refines, lease_excludes}
use news_api.Cache.Redis.AbstractLease.{
  LeaseCall, acquire_call, run_lease, time_passes, IsRefusal, release_call, IsByOther,
}
use news_api.Cache.Redis.Instance.{Keys, key_server-laws, key_server, put_key, left-key_server}
use news_api.Cache.Coordinator.Trace.{IsCoordinated}
use news_api.Cache.Coordinator.Laws.{coordinate_cache_miss-IsCoordinated}
use news_api.Errors.{ok, no_error}
use news_api.Cache.Coordinator.{Coordinated, coordinate_cache_miss, Round}
use news_api.Cache.Memory.Storing.{IsMemoryStore, IsStored, store_set-IsStored}
use news_api.Cache.Memory.Instance.{pair_keys, pair_cache, pair_cache-laws}
use news_api.Cache.Memory.{MemoryStore, store_set, contains}
use news_api.Base.{◌≡◌, refl, some, [], ◌∷◌, arith, ℕ, false, true, leb, none, ◌*◌, List, All}

-- A store with room for one key, which it holds.
abbrev full_store : MemoryStore (pair_cache 1)
full_store = record { cache = ("a", 1) ∷ []; recency = "a" ∷ []; evictions = 0 }

full_store-IsMemoryStore : IsMemoryStore (pair_cache 1) 1 (pair_cache-laws 1) full_store
unfolding pair_keys contains
full_store-IsMemoryStore = record {
  covers = λ q there. there;
  distinct = (refl, tt);
  bounded = omega arith;
}

store_set-IsStored_example :
    (m' : MemoryStore (pair_cache 1)) × (store_set (pair_cache 1) 1 "b" 2 600 full_store ≡ some m')
    × IsStored (pair_cache 1) 1 (pair_cache-laws 1) "b" 2 full_store m'
store_set-IsStored_example =
    store_set-IsStored (pair_cache 1) 1 (pair_cache-laws 1) "b" 2 600 full_store (omega arith)
      full_store-IsMemoryStore

-- Another replica has the lease in the first round; in the second one the lease is free.
abbrev replica_rounds : ℕ → Round ℕ
replica_rounds k = record {
  aborted_before = false;
  acquire = ok (leb 1 k);
  aborted_acquired = false;
  fresh = ok none;
  aborted_fresh = false;
  loaded = ok 7;
  release_fails = false;
  now = 100 * k;
  random = 5;
  aborted_in_sleep = false;
}

coordinate_cache_miss-IsCoordinated_example :
    (c : Coordinated ℕ) × (coordinate_cache_miss 50 100 replica_rounds 2 false true ≡ some c)
    × IsCoordinated 1 c
coordinate_cache_miss-IsCoordinated_example =
    coordinate_cache_miss-IsCoordinated 1 50 100 replica_rounds false true (omega arith)

-- One replica holds a lease with five seconds left, and another one tries for it.
abbrev held_lease : Keys
held_lease = put_key "lease" (some (codes "a", 5_000)) (λ k. none)

abbrev other_calls : List LeaseCall
other_calls =
    acquire_call (unanswered no_error) (codes "b") 5_000
    ∷ time_passes 3_000
    ∷ release_call answered (codes "b")
    ∷ acquire_call answered (codes "b") 5_000
    ∷ []

other_calls-IsByOther : All (IsByOther (codes "a")) other_calls
unfolding text_eq
other_calls-IsByOther = (tt, (tt, (refl, (tt, tt))))

run_calls-refines_example :
    (view key_server key_server-laws "lease"
        (run_calls key_server key_server-laws "lease" other_calls held_lease).0
      ≡ (run_lease other_calls (view key_server key_server-laws "lease" held_lease)).0)
    × ((run_calls key_server key_server-laws "lease" other_calls held_lease).1
        ≡ (run_lease other_calls (view key_server key_server-laws "lease" held_lease)).1)
run_calls-refines_example =
    run_calls-refines key_server key_server-laws "lease" other_calls held_lease
      (omega arith, (tt, (tt, (omega arith, tt))))

lease_excludes_example :
    (key_server.get "lease" (run_calls key_server key_server-laws "lease" other_calls held_lease).0
      ≡ some (codes "a"))
    × All IsRefusal (run_calls key_server key_server-laws "lease" other_calls held_lease).1
lease_excludes_example =
    lease_excludes key_server key_server-laws "lease" other_calls held_lease (codes "a") refl
      (omega arith, (tt, (tt, (omega arith, tt)))) other_calls-IsByOther
      (omega (arith, left-key_server "lease" held_lease))

abbrev null_json : JsonText
null_json = record { parse = λ t. some null; stringify = λ v. [] }

-- A renewal that finds the lease lost, and a timer that fires late.
abbrev losing : List HeartbeatEvent
losing = fire false ∷ answer (ok false) ∷ []

start_lease_heartbeat-IsHeartbeat_example : IsHeartbeat (run_heartbeat losing start_lease_heartbeat)
start_lease_heartbeat-IsHeartbeat_example = start_lease_heartbeat-IsHeartbeat losing

stopped_heartbeat-IsSilent_example :
    IsSilent
      (run_heartbeat losing start_lease_heartbeat)
      (run_heartbeat (fire false ∷ []) (run_heartbeat losing start_lease_heartbeat))
unfolding run_heartbeat
stopped_heartbeat-IsSilent_example = stopped_heartbeat-IsSilent losing (fire false ∷ []) refl

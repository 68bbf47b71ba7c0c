-- ===== src/Cache/Coordinator.antt =====
-- src/cache/coordinator.ts: one replica at a time loads a missing entry, under a lease. What the
-- lease store, the cache, the load, the clock and the signal do in a round of the loop is an
-- argument. The heartbeat that renews the lease during a load is in Cache/Heartbeat.
pub mod Trace
pub mod Laws
pub mod Origin
use news_api.Provider.Retry.{jittered}
use news_api.Errors.{
  Result, throw, ok, request_aborted_error, ◌>>=◌, as_aborted, throw_if_aborted, ◌>>◌,
}
use news_api.Base.{
  ℕ, zero, suc, ◌+◌, ◌-◌, min, max, Bool, true, false, not, Option, none, some, List, [], ◌∷◌, leb,
  if◌then◌else◌,
}

-- The labels of `cacheCoordinationEventsTotal`.
pub data CoordinationEvent : Type 0 where
  bypassed_event error_event acquired hit waited expired released release_error : CoordinationEvent

-- What a run does: calls of the lease store, of the cache and of the load, delays, and events.
pub data Action : Type 0 where
  try_acquire_lease read_fresh load release_lease : Action
  sleep : ℕ → Action
  event : CoordinationEvent → Action

pub data Source : Type 0 where
  upstream shared_cache bypassed : Source

-- What happens in one round. A call settles, and then the signal is or is not aborted.
pub record Round (A : Type 0) : Type 0 where
  pub aborted_before : Bool
  pub acquire : Result Bool
  pub aborted_acquired : Bool
  pub fresh : Result (Option A)
  pub aborted_fresh : Bool
  pub loaded : Result A
  pub release_fails : Bool
  pub now : ℕ
  pub random : ℕ
  pub aborted_in_sleep : Bool

-- The result, with the actions so far, the newest first.
pub record Coordinated (A : Type 0) : Type 0 where
  pub result : Result (A × Source)
  pub trace : List Action

-- `waitDelayMs()`.
unfoldable pub wait_delay_ms : ℕ → ℕ → ℕ
wait_delay_ms poll r = max 1 (jittered poll r)

-- A call that has settled, and then `throwIfAborted`.
abbrev pub then_check : {B : Type 0} → Bool → Result B → Result B
then_check aborted r = r >>= λ v. throw_if_aborted aborted >> ok v

abbrev pub with_waited : Bool → List Action → List Action
with_waited already trace = if already then trace else event waited ∷ trace

module _ {A : Type 0} where
  abbrev pub from_source : Source → Result A → Result (A × Source)
  from_source s r = r >>= λ v. ok (v, s)

  -- `loadWithoutCoordination(options, event)`.
  abbrev pub load_without_coordination :
      CoordinationEvent → Source → Round A → List Action → Coordinated A
  load_without_coordination e s r trace = record {
    result = from_source s r.loaded;
    trace = load ∷ event e ∷ trace;
  }

  -- `releaseLease(store, key, owner)`, in the `finally` block: the result stays.
  abbrev pub release : Round A → Coordinated A → Coordinated A
  release r c = record c {
    trace = event (if r.release_fails then release_error else released) ∷ release_lease ∷ c.trace;
  }

  -- The block under the lease, up to its `finally`.
  unfoldable pub under_lease : Round A → List Action → Coordinated A
  under_lease r trace = elim (then_check r.aborted_fresh r.fresh) [
    | ok none ↦ record { result = from_source upstream r.loaded; trace = load ∷ read_fresh ∷ trace }
    | ok (some v) ↦ record { result = ok (v, shared_cache); trace = event hit ∷ read_fresh ∷ trace }
    | throw e ↦
        if r.aborted_fresh
        then record { result = throw (as_aborted e); trace = read_fresh ∷ trace }
        else record {
          result = from_source upstream r.loaded;
          trace = load ∷ event error_event ∷ read_fresh ∷ trace;
        }
  ]

  module _ (poll deadline : ℕ) where
    -- The rest of a round in which another replica has the lease: `next` is the following round.
    unfoldable pub wait_round :
        (List Action → Option (Coordinated A)) → Round A → List Action → Option (Coordinated A)
    unfolding wait_delay_ms
    wait_round next r read = elim (then_check r.aborted_fresh r.fresh) [
      | throw e ↦
          if r.aborted_fresh
          then some (record { result = throw (as_aborted e); trace = read })
          else some (load_without_coordination error_event upstream r read)
      | ok (some v) ↦ some (record { result = ok (v, shared_cache); trace = event hit ∷ read })
      | ok none ↦
          if leb deadline r.now
          then some (record {
            result = from_source upstream r.loaded;
            trace = load ∷ event expired ∷ read;
          })
          else (let slept = sleep (min (wait_delay_ms poll r.random) (deadline - r.now)) ∷ read in
              if r.aborted_in_sleep
              then some (record { result = throw request_aborted_error; trace = slept })
              else next slept)
    ]

    module _ (world : ℕ → Round A) where
      -- The rounds from `k` on; the flag says that the run has waited.
      unfoldable pub coordinate_loop : ℕ → ℕ → Bool → List Action → Option (Coordinated A)
      unfolding under_lease wait_round
      coordinate_loop zero k already trace = none
      coordinate_loop (suc f) k already trace =
          let r = world k in
          let tried = try_acquire_lease ∷ trace in
          if r.aborted_before
          then some (record { result = throw request_aborted_error; trace = trace })
          else elim (then_check r.aborted_acquired r.acquire) [
            | throw e ↦
                if r.aborted_acquired
                then some (record { result = throw (as_aborted e); trace = tried })
                else some (load_without_coordination error_event upstream r tried)
            | ok true ↦ some (release r (under_lease r (event acquired ∷ tried)))
            | ok false ↦
                wait_round (coordinate_loop f (k + 1) true) r
                  (read_fresh ∷ with_waited already tried)
          ]

      -- `coordinateCacheMiss(options)`, for a store that has leases or not.
      unfoldable pub coordinate_cache_miss : ℕ → Bool → Bool → Option (Coordinated A)
      unfolding coordinate_loop
      coordinate_cache_miss f aborted has_leases =
          if aborted
          then some (record { result = throw request_aborted_error; trace = [] })
          else if not has_leases
          then some (load_without_coordination bypassed_event bypassed (world 0) [])
          else coordinate_loop f 0 false []

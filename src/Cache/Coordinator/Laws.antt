-- ===== src/Cache/Coordinator/Laws.antt =====
-- What a coordinated load does, whatever the store, the cache and the provider do.
use news_api.Cache.Coordinator.Trace.{
  IsCoordinated, IsWaiting, ends_thrown, ends_loaded, none_done, ends_hit, release-IsCoordinated,
  ends_asleep, under_lease-IsUnderLease, read-IsWaiting, sleep-IsWaiting,
}
use native.Mathlib.Decide.{ℕ_discrete}
use news_api.Provider.Retry.{jittered}
use news_api.Errors.{throw_if_aborted, Result-cases, request_aborted_error}
use news_api.Cache.Coordinator.{
  Action, Coordinated, throw_if_aborted, Round, try_acquire_lease, coordinate_loop, error_event,
  wait_delay_ms, coordinate_cache_miss, wait_round, expired, request_aborted_error, jittered,
}
use news_api.Base.{
  ℕ, zero, suc, ◌+◌, ◌-◌, ◌≤◌, ◌<◌, min, max, ◌≡◌, refl, inl, inr, Bool, true, false, Option, none,
  some, List, [], ◌∷◌, arith, leb, Bool-cases,
}

module _ {A : Type 0} (n : ℕ) where
  module _ (poll deadline : ℕ) where
    -- The result of a round, or of the rounds that follow it.
    abbrev pub Ends : Option (Coordinated A) → Type 0
    Ends o = (c : Coordinated A) × (o ≡ some c) × IsCoordinated n c

    wait_round-Ends :
        (next : List Action → Option (Coordinated A)) (k : ℕ) (r : Round A) (read : List Action)
        → IsWaiting k read
        → k ≤ n
        → (r.now < deadline → k < n)
        → ((slept : List Action) → k < n → IsWaiting (k + 1) slept → Ends (next slept))
        → Ends (wait_round poll deadline next r read)
    unfolding wait_round throw_if_aborted wait_delay_ms
    wait_round-Ends next k r read w le more go_on = elim (Bool-cases r.aborted_fresh) [
      | inl gone ↦ elim (Result-cases r.fresh) [
        | inr (e, failed) ↦ rw (failed, gone) (_, refl, ends_thrown n k _ _ w le)
        | inl (v, settled) ↦ rw (settled, gone) (_, refl, ends_thrown n k _ _ w le)
      ]
      | inr live ↦ elim (Result-cases r.fresh) [
        | inr (e, failed) ↦ rw (failed, live) (_, refl, ends_loaded n k _ error_event _ w le refl)
        | inl (some v, settled) ↦ rw (settled, live) (_, refl, ends_hit n k _ v w le)
        | inl (none, settled) ↦ elim (Bool-cases (leb deadline r.now)) [
          | inl passed ↦ rw (settled, live, passed) (_, refl, ends_loaded n k _ expired _ w le refl)
          | inr early ↦
              let lt : k < n = more (ground arith) in
              let left : 0 < deadline - r.now = ground arith in
              let pos : 0 < min (max 1 (jittered poll r.random)) (deadline - r.now) = omega arith in
              elim (Bool-cases r.aborted_in_sleep) [
                | inl woken ↦
                    rw (settled, live, early, woken) (_, refl, ends_asleep n k _ read _ pos w lt)
                | inr slept ↦
                    rw (settled, live, early, slept) (go_on _ lt (sleep-IsWaiting k _ read pos w))
              ]
        ]
      ]
    ]

    module _ (world : ℕ → Round A) where
      loop-Ends :
          (f k : ℕ) (already : Bool) (l : List Action)
          → deadline ≤ (world n).now
          → k + f ≡ suc n
          → 0 < f
          → IsWaiting k l
          → Ends (coordinate_loop poll deadline world f k already l)
      unfolding coordinate_loop throw_if_aborted
      loop-Ends zero k already l late sum pos w = elim pos [ ]
      loop-Ends (suc f) k already l late sum pos w =
          let le : k ≤ n = omega arith in
          let tried : IsWaiting k (try_acquire_lease ∷ l) = ground (arith, w.loads) in
          elim (Bool-cases (world k).aborted_before) [
            | inl gone ↦ rw gone (_, refl, ends_thrown n k l _ w le)
            | inr live ↦ elim (Bool-cases (world k).aborted_acquired) [
              | inl gone ↦ elim (Result-cases (world k).acquire) [
                | inr (e, failed) ↦ rw (live, failed, gone) (_, refl, ends_thrown n k _ _ tried le)
                | inl (b, settled) ↦
                    rw (live, settled, gone, gone) (_, refl, ends_thrown n k _ _ tried le)
              ]
              | inr there ↦ elim (Result-cases (world k).acquire) [
                | inr (e, failed) ↦
                    rw (live, failed, there)
                      (_, refl, ends_loaded n k _ error_event _ tried le refl)
                | inl (true, settled) ↦
                    rw (live, settled, there)
                      (
                        _,
                        refl,
                        release-IsCoordinated n (world k) _
                            (under_lease-IsUnderLease n k (world k) l w le),
                      )
                | inl (false, settled) ↦
                    rw (live, settled, there)
                      (wait_round-Ends _ k (world k) _ (read-IsWaiting k already l w) le
                        (λ early. k-lt early)
                        (λ slept lt w'.
                          loop-Ends f (k + 1) true slept late (omega arith) (omega arith) w'))
              ]
            ]
          ]
        where
          k-lt : (world k).now < deadline → k < n
          k-lt early = elim (ℕ_discrete k n) [
            | yes same ↦ absurd (omega (arith, rw (← same) at late))
            | no other ↦ omega arith
          ]

      -- If the round `n` finds the wait over, the run ends by itself within `n` delays. Whatever
      -- it meets on its way, it loads at most once: exactly once for a value from the provider,
      -- never for one from the shared cache; and it releases its lease exactly if it has counted
      -- it as acquired.
      pub coordinate_cache_miss-IsCoordinated :
          (aborted has_leases : Bool)
          → deadline ≤ (world n).now
          → (c : Coordinated A) × (coordinate_cache_miss poll deadline world
                (suc n)
                aborted
                has_leases
              ≡ some c)
            × IsCoordinated n c
      unfolding coordinate_cache_miss
      coordinate_cache_miss-IsCoordinated true has_leases late =
          (_, refl, ends_thrown n 0 [] request_aborted_error none_done (omega arith))
      coordinate_cache_miss-IsCoordinated false true late =
          loop-Ends (suc n) 0 false [] late (omega arith) (omega arith) none_done
      coordinate_cache_miss-IsCoordinated false false late = elim (Result-cases (world 0).loaded) [
        | inl (v, e) ↦ rw e (_, refl, ground arith)
        | inr (x, e) ↦ rw e (_, refl, ground arith)
      ]

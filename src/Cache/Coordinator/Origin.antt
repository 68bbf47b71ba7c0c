-- ===== src/Cache/Coordinator/Origin.antt =====
-- Where the value of a coordinated load comes from: a read of the cache, or a load.
use news_api.Cache.Coordinator.{
  Action, Coordinated, Round, Source, coordinate_cache_miss, coordinate_loop, from_source,
  under_lease, upstream, wait_round, bypassed,
}
use news_api.Errors.{Result, ok, throw, throw_if_aborted, Result-cases}
use news_api.Base.{
  ℕ, zero, suc, ◌+◌, ◌≡◌, inl, inr, Bool, true, false, Option, none, some, List, leb, Bool-cases,
}

module _ {A : Type 0} (Q : A → Type 0) where
  abbrev pub HoldsOf : Result (A × Source) → Type 0
  HoldsOf (ok (v, s)) = Q v
  HoldsOf (throw e) = Unit {0}

  abbrev pub HoldsIn : Option (Coordinated A) → Type 0
  HoldsIn none = Unit {0}
  HoldsIn (some c) = HoldsOf c.result

  module _ (world : ℕ → Round A)
      (fresh_holds : (k : ℕ) (v : A) → (world k).fresh ≡ ok (some v) → Q v)
      (loaded_holds : (k : ℕ) (v : A) → (world k).loaded ≡ ok v → Q v) where
    loaded-HoldsOf : (k : ℕ) (s : Source) → HoldsOf (from_source s (world k).loaded)
    loaded-HoldsOf k s = elim (Result-cases (world k).loaded) [
      | inl (v, e) ↦ rw e (loaded_holds k v e)
      | inr (x, e) ↦ rw e tt
    ]

    under_lease-HoldsOf : (k : ℕ) (l : List Action) → HoldsOf (under_lease (world k) l).result
    unfolding under_lease throw_if_aborted
    under_lease-HoldsOf k l = elim (Bool-cases (world k).aborted_fresh) [
      | inl gone ↦ elim (Result-cases (world k).fresh) [
        | inr (e, failed) ↦ rw (failed, gone) tt
        | inl (v, read) ↦ rw (read, gone) tt
      ]
      | inr live ↦ elim (Result-cases (world k).fresh) [
        | inr (e, failed) ↦ rw (failed, live) (loaded-HoldsOf k upstream)
        | inl (none, read) ↦ rw (read, live) (loaded-HoldsOf k upstream)
        | inl (some v, read) ↦ rw (read, live) (fresh_holds k v read)
      ]
    ]

    module _ (poll deadline : ℕ) where
      wait_round-HoldsIn :
          (next : List Action → Option (Coordinated A)) (k : ℕ) (read : List Action)
          → ((l : List Action) → HoldsIn (next l))
          → HoldsIn (wait_round poll deadline next (world k) read)
      unfolding wait_round throw_if_aborted
      wait_round-HoldsIn next k read go_on = elim (Bool-cases (world k).aborted_fresh) [
        | inl gone ↦ elim (Result-cases (world k).fresh) [
          | inr (e, failed) ↦ rw (failed, gone) tt
          | inl (v, settled) ↦ rw (settled, gone) tt
        ]
        | inr live ↦ elim (Result-cases (world k).fresh) [
          | inr (e, failed) ↦ rw (failed, live) (loaded-HoldsOf k upstream)
          | inl (some v, settled) ↦ rw (settled, live) (fresh_holds k v settled)
          | inl (none, settled) ↦ elim (Bool-cases (leb deadline (world k).now)) [
            | inl passed ↦ rw (settled, live, passed) (loaded-HoldsOf k upstream)
            | inr early ↦ elim (Bool-cases (world k).aborted_in_sleep) [
              | inl woken ↦ rw (settled, live, early, woken) tt
              | inr slept ↦ rw (settled, live, early, slept) (go_on _)
            ]
          ]
        ]
      ]

      loop-HoldsIn :
          (f k : ℕ) (already : Bool) (l : List Action)
          → HoldsIn (coordinate_loop poll deadline world f k already l)
      unfolding coordinate_loop throw_if_aborted
      loop-HoldsIn zero k already l = tt
      loop-HoldsIn (suc f) k already l = elim (Bool-cases (world k).aborted_before) [
        | inl gone ↦ rw gone tt
        | inr live ↦ elim (Bool-cases (world k).aborted_acquired) [
          | inl gone ↦ elim (Result-cases (world k).acquire) [
            | inr (e, failed) ↦ rw (live, failed, gone) tt
            | inl (b, settled) ↦ rw (live, settled, gone, gone) tt
          ]
          | inr there ↦ elim (Result-cases (world k).acquire) [
            | inr (e, failed) ↦ rw (live, failed, there) (loaded-HoldsOf k upstream)
            | inl (true, settled) ↦ rw (live, settled, there) (under_lease-HoldsOf k _)
            | inl (false, settled) ↦
                rw (live, settled, there)
                  (wait_round-HoldsIn _ k _ (λ slept. loop-HoldsIn f (k + 1) true slept))
          ]
        ]
      ]

      -- What holds of every value that a round reads or loads holds of the value of a run.
      pub coordinate_cache_miss-HoldsIn :
          (f : ℕ) (aborted has_leases : Bool)
          → HoldsIn (coordinate_cache_miss poll deadline world f aborted has_leases)
      unfolding coordinate_cache_miss
      coordinate_cache_miss-HoldsIn f true has_leases = tt
      coordinate_cache_miss-HoldsIn f false false = loaded-HoldsOf 0 bypassed
      coordinate_cache_miss-HoldsIn f false true = loop-HoldsIn f 0 false _

-- ===== src/Cache/Coordinator/Trace.antt =====
-- The trace of a run: what it counts while it waits, and the ways in which it ends.
use news_api.Errors.{Result, Thrown, ok, throw_if_aborted, Result-cases}
use news_api.Cache.Coordinator.{
  Action, Coordinated, CoordinationEvent, Source, event, load, ok, release_lease, sleep,
  from_source, shared_cache, throw, hit, upstream, bypassed, under_lease, throw_if_aborted, Round,
  release, acquired, try_acquire_lease, read_fresh, error_event, with_waited,
}
use news_api.Base.{
  ℕ, ◌+◌, ◌≤◌, ◌<◌, ◌≡◌, refl, ◌⊎◌, inl, inr, Bool, true, false, none, some, List, [], ◌∷◌, ◌++◌,
  arith, if◌then◌else◌, Bool-cases, All,
}

abbrev pub is_load : Action → Bool
is_load load = true
is_load _ = false

abbrev pub is_release : Action → Bool
is_release release_lease = true
is_release _ = false

abbrev pub is_acquired : Action → Bool
is_acquired (event CoordinationEvent.acquired) = true
is_acquired _ = false

abbrev pub is_sleep : Action → Bool
is_sleep (sleep d) = true
is_sleep _ = false

abbrev pub delay_of : Action → ℕ
delay_of (sleep d) = d
delay_of _ = 1

-- How many actions of a kind a trace has.
abbrev pub count_of : (Action → Bool) → List Action → ℕ
count_of p [] = 0
count_of p (a ∷ l) = (if p a then 1 else 0) + count_of p l

-- Loads by the source of the value: none if the value came from the shared cache.
abbrev pub IsSourced : {A : Type 0} → Result (A × Source) → ℕ → Type 0
IsSourced (ok (v, shared_cache)) loads = loads ≡ 0
IsSourced (ok (v, upstream)) loads = loads ≡ 1
IsSourced (ok (v, bypassed)) loads = loads ≡ 1
IsSourced (throw e) loads = loads ≤ 1

-- What holds while a run waits: nothing loaded, no lease, one delay for each round so far.
pub record IsWaiting (k : ℕ) (l : List Action) : Type 0 where
  pub loads : count_of is_load l ≡ 0
  pub releases : count_of is_release l ≡ 0
  pub leases : count_of is_acquired l ≡ 0
  pub sleeps : count_of is_sleep l ≡ k
  pub delays : All (λ a. 0 < delay_of a) l

pub none_done : IsWaiting 0 []
none_done = ground arith

-- The load runs at most once, exactly once for a value from the provider and never for one from
-- the cache; the run releases a lease exactly if it has counted one as acquired, which it does at
-- most once; it sleeps at most `n` times, each time for a positive time.
pub record IsCoordinated {A : Type 0} (n : ℕ) (c : Coordinated A) : Type 0 where
  pub sourced : IsSourced c.result (count_of is_load c.trace)
  pub released : count_of is_release c.trace ≡ count_of is_acquired c.trace
  pub once : count_of is_acquired c.trace ≤ 1
  pub sleeps-le : count_of is_sleep c.trace ≤ n
  pub delays : All (λ a. 0 < delay_of a) c.trace

pub read-IsWaiting :
    (k : ℕ) (already : Bool) (l : List Action)
    → IsWaiting k l
    → IsWaiting k (read_fresh ∷ with_waited already (try_acquire_lease ∷ l))
read-IsWaiting k true l w = ground (arith, w.loads)
read-IsWaiting k false l w = ground (arith, w.loads)

pub sleep-IsWaiting :
    (k d : ℕ) (l : List Action) → 0 < d → IsWaiting k l → IsWaiting (k + 1) (sleep d ∷ l)
sleep-IsWaiting k d l pos w = ground (arith, w.loads)

module _ {A : Type 0} (n : ℕ) where
  -- The ways in which a waiting run ends.
  pub ends_thrown :
      (k : ℕ) (l : List Action) (e : Thrown)
      → IsWaiting k l
      → k ≤ n
      → IsCoordinated {A = A} n (record { result = throw e; trace = l })
  ends_thrown k l e w le = ground (arith, w.loads)

  pub ends_hit :
      (k : ℕ) (l : List Action) (v : A)
      → IsWaiting k l
      → k ≤ n
      → IsCoordinated n (record { result = ok (v, shared_cache); trace = event hit ∷ l })
  ends_hit k l v w le = ground (arith, w.loads)

  pub ends_loaded :
      (k : ℕ) (l : List Action) (e : CoordinationEvent) (r : Result A)
      → IsWaiting k l
      → k ≤ n
      → is_acquired (event e) ≡ false
      → IsCoordinated n (record { result = from_source upstream r; trace = load ∷ event e ∷ l })
  ends_loaded k l e (ok v) w le other = ground (arith, w.loads)
  ends_loaded k l e (throw x) w le other = ground (arith, w.loads)

  -- The end of a run under its lease, from what the block under the lease leaves.
  pub record IsUnderLease (c : Coordinated A) : Type 0 where
    pub sourced : IsSourced c.result (count_of is_load c.trace)
    pub releases : count_of is_release c.trace ≡ 0
    pub leases : count_of is_acquired c.trace ≡ 1
    pub sleeps : count_of is_sleep c.trace ≤ n
    pub delays : All (λ a. 0 < delay_of a) c.trace

  pub release-IsCoordinated :
      (r : Round A) (c : Coordinated A) → IsUnderLease c → IsCoordinated n (release r c)
  release-IsCoordinated r c h = elim (Bool-cases r.release_fails) [
    | inl failed ↦ rw failed (ground (arith, h.sourced))
    | inr done ↦ rw done (ground (arith, h.sourced))
  ]

  from_source-IsSourced : (r : Result A) → IsSourced (from_source upstream r) 1
  from_source-IsSourced (ok v) = refl
  from_source-IsSourced (throw e) = omega arith

  leased_load :
      (k : ℕ) (r : Result A) (l rest : List Action)
      → IsWaiting k l
      → k ≤ n
      → (rest ≡ read_fresh ∷ []) ⊎ (rest ≡ event error_event ∷ read_fresh ∷ [])
      → IsUnderLease (record {
        result = from_source upstream r;
        trace = load ∷ (rest ++ event acquired ∷ try_acquire_lease ∷ l);
      })
  leased_load k r l rest w le (inl e) = rw e (record {
    sourced = rw w.loads (from_source-IsSourced r);
    releases = omega (arith, w.releases);
    leases = omega (arith, w.leases);
    sleeps = omega (arith, w.sleeps);
    delays = ground (arith, w.delays);
  })
  leased_load k r l rest w le (inr e) = rw e (record {
    sourced = rw w.loads (from_source-IsSourced r);
    releases = omega (arith, w.releases);
    leases = omega (arith, w.leases);
    sleeps = omega (arith, w.sleeps);
    delays = ground (arith, w.delays);
  })

  pub under_lease-IsUnderLease :
      (k : ℕ) (r : Round A) (l : List Action)
      → IsWaiting k l
      → k ≤ n
      → IsUnderLease (under_lease r (event acquired ∷ try_acquire_lease ∷ l))
  unfolding under_lease throw_if_aborted
  under_lease-IsUnderLease k r l w le = elim (Bool-cases r.aborted_fresh) [
    | inl gone ↦ elim (Result-cases r.fresh) [
      | inr (e, failed) ↦ rw (failed, gone) (ground (arith, w.loads))
      | inl (v, read) ↦ rw (read, gone) (ground (arith, w.loads))
    ]
    | inr live ↦ elim (Result-cases r.fresh) [
      | inr (e, failed) ↦ rw (failed, live) (leased_load k r.loaded l _ w le (inr refl))
      | inl (none, read) ↦ rw (read, live) (leased_load k r.loaded l _ w le (inl refl))
      | inl (some v, read) ↦ rw (read, live) (ground (arith, w.loads))
    ]
  ]

  -- A run that is cancelled while it sleeps.
  pub ends_asleep :
      (k d : ℕ) (l : List Action) (e : Thrown)
      → 0 < d
      → IsWaiting k l
      → k < n
      → IsCoordinated {A = A} n (record { result = throw e; trace = sleep d ∷ l })
  ends_asleep k d l e pos w lt = ground (arith, w.loads)

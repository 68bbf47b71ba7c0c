-- ===== src/Provider/Retry/Laws.antt =====
-- The retry loop ends within its bounds, and each result is accounted for.
use news_api.Errors.{
  Result, Thrown, ok, throw, is_request_aborted_error, request_aborted_error,
  is_request_aborted_self, Result-cases, as_aborted, is_request_aborted-as_aborted,
}
use news_api.Provider.Retry.{
  Attempt, jittered, retry_delay_ms, Result, Run, Thrown, max_retry_delay_ms, random_range,
  is_retryable_upstream_error, retry_loop, with_upstream_retries,
}
use native.Mathlib.Numerals.{unary_clauses}
use native.Mathlib.Decide.{ℕ_discrete}
use news_api.Base.{
  ℕ, zero, suc, ◌+◌, ◌*◌, ◌^◌, ◌≤◌, ◌<◌, min, ◌≡◌, refl, ◌⊎◌, inl, inr, true, false, not, ◌||◌,
  some, List, ◌∷◌, reverse, arith, leb, Bool-cases, length, All, length-reverse, All-reverse, [],
  sym,
}

-- A delay is positive, and at most one and a half times the greatest base.
jittered-le :
    (delay r : ℕ) → delay ≤ max_retry_delay_ms → r < random_range → jittered delay r ≤ 3_000
unfolding jittered
jittered-le delay r h lt = grind arith

retry_delay_bounds :
    (base attempt r : ℕ)
    → r < random_range
    → (0 < retry_delay_ms base attempt r) × (retry_delay_ms base attempt r ≤ 3_000)
unfolding retry_delay_ms
retry_delay_bounds base attempt r h = (
  omega arith,
  omega (arith, jittered-le (min (base * 2 ^ attempt) max_retry_delay_ms) r (omega arith) h),
)

module _ {A : Type 0} (max_retries base : ℕ) (world : ℕ → Attempt A) where
  -- The call of a round that was followed by another.
  abbrev pub WasRetried : ℕ → Type 0
  WasRetried k =
      (e : Thrown) × ((world k).result ≡ throw e)
      × (is_retryable_upstream_error e ≡ true)
      × (is_request_aborted_error e ≡ false)

  -- A value is that of the last call. An error is a cancellation, or that of the last call, which
  -- no round may follow or which is not transient.
  abbrev pub IsExplained : Result A → ℕ → Type 0
  IsExplained (ok a) calls = (k : ℕ) × (calls ≡ suc k) × ((world k).result ≡ ok a)
  IsExplained (throw e) calls =
      (is_request_aborted_error e ≡ true)
      ⊎ ((k : ℕ) × (calls ≡ suc k)
          × ((world k).result ≡ throw e)
          × ((k ≡ max_retries) ⊎ (is_retryable_upstream_error e ≡ false)))

  -- The delays slept before the call of a round, each computed from the round before it, the
  -- latest first.
  abbrev pub delays_before : ℕ → List ℕ
  delays_before zero = []
  delays_before (suc k) = retry_delay_ms base k (world k).random ∷ delays_before k

  -- The delays of a run with these calls: one before each call but the first, and one more at most
  -- that no call has followed.
  abbrev pub IsDelayed : List ℕ → ℕ → Type 0
  IsDelayed delays calls =
      (m : ℕ) × (delays ≡ reverse (delays_before m)) × (m ≤ calls) × (calls ≤ m + 1)

  pub record IsRetryRun (r : Run A) : Type 0 where
    pub delayed : IsDelayed r.delays r.calls
    pub calls-le : r.calls ≤ max_retries + 1
    pub delays-le : length r.delays ≤ max_retries
    pub delays_bounded : All (λ d. (0 < d) × (d ≤ 3_000)) r.delays
    pub retried : (k : ℕ) → suc k < r.calls → WasRetried k
    pub explained : IsExplained r.result r.calls

  -- What holds when the round `attempt` begins.
  record IsUnderWay (attempt : ℕ) (delays : List ℕ) : Type 0 where
    slept : length delays ≡ attempt
    same : delays ≡ delays_before attempt
    bounded : All (λ d. (0 < d) × (d ≤ 3_000)) delays
    retried : (k : ℕ) → k < attempt → WasRetried k

  ended :
      (attempt calls m : ℕ) (delays : List ℕ) (x : Result A)
      → delays ≡ delays_before m
      → m ≤ calls
      → calls ≤ m + 1
      → calls ≤ suc attempt
      → attempt ≤ max_retries
      → length delays ≤ max_retries
      → All (λ d. (0 < d) × (d ≤ 3_000)) delays
      → ((k : ℕ) → k < attempt → WasRetried k)
      → IsExplained x calls
      → IsRetryRun (record { result = x; calls = calls; delays = reverse delays })
  ended attempt calls m delays x is_m m-le le-m most room len ds before why = record {
    delayed = (m, rw is_m refl, m-le, le-m);
    calls-le = omega arith;
    delays-le = omega (arith, length-reverse delays);
    delays_bounded = All-reverse _ delays ds;
    retried = λ k h. before k (omega arith);
    explained = why;
  }

  delays_before-next :
      (k : ℕ) → delays_before (k + 1) ≡ retry_delay_ms base k (world k).random ∷ delays_before k
  delays_before-next k = simp unary_clauses refl

  -- After a retried round the next one is under way.
  go_on :
      (attempt : ℕ) (delays : List ℕ)
      → (world attempt).random < random_range
      → IsUnderWay attempt delays
      → WasRetried attempt
      → IsUnderWay (attempt + 1) (retry_delay_ms base attempt (world attempt).random ∷ delays)
  go_on attempt delays draw u again = record {
    slept = omega (arith, u.slept);
    same = rw u.same (sym (delays_before-next attempt));
    bounded = (retry_delay_bounds base attempt _ draw, u.bounded);
    retried = λ k h. elim (ℕ_discrete k attempt) [
      | yes same ↦ rw same again
      | no other ↦ u.retried k (omega arith)
    ];
  }

  loop-IsRetryRun :
      (f attempt : ℕ) (delays : List ℕ)
      → ((k : ℕ) → (world k).random < random_range)
      → attempt + f ≡ suc max_retries
      → IsUnderWay attempt delays
      → 0 < f
      → (r : Run A) × (retry_loop max_retries base world f attempt delays ≡ some r) × IsRetryRun r
  unfolding retry_loop
  loop-IsRetryRun zero attempt delays draws sum u pos = elim pos [ ]
  loop-IsRetryRun (suc f) attempt delays draws sum u pos =
      elim (Bool-cases (world attempt).aborted_before) [
        | inl gone ↦ rw gone (
          _,
          refl,
          stop attempt (throw request_aborted_error) (omega arith) (omega arith)
              (inl is_request_aborted_self),
        )
        | inr live ↦ elim (Result-cases (world attempt).result) [
          | inl (a, e) ↦
              rw (live, e)
                (
                  _,
                  refl,
                  stop (attempt + 1) (ok a) (omega arith) (omega arith) (attempt, omega arith, e),
                )
          | inr (e, thrown) ↦
              elim (Bool-cases ((world attempt).aborted_after || is_request_aborted_error e)) [
                | inl gone ↦
                    rw (live, thrown, gone)
                      (
                        _,
                        refl,
                        stop (attempt + 1) (throw (as_aborted e)) (omega arith) (omega arith)
                            (inl (is_request_aborted-as_aborted e)),
                      )
                | inr here ↦
                    elim (Bool-cases
                      (leb max_retries attempt || not (is_retryable_upstream_error e))) [
                        | inl last ↦
                            rw (live, thrown, here, last)
                              (
                                _,
                                refl,
                                stop (attempt + 1) (throw e) (omega arith) (omega arith)
                                    (inr (attempt, omega arith, thrown, ground arith)),
                              )
                        | inr more ↦
                            let again : WasRetried attempt =
                              (e, thrown, ground arith, ground arith) in
                            let left : attempt < max_retries = ground arith in
                            let u' = go_on attempt delays (draws attempt) u again in
                            elim (Bool-cases (world attempt).aborted_in_sleep) [
                              | inl woken ↦
                                  rw (live, thrown, here, more, woken)
                                    (
                                      _,
                                      refl,
                                      ended attempt (attempt + 1) (attempt + 1) (_ ∷ delays) _
                                          u'.same (omega arith) (omega arith) (omega arith)
                                          (omega arith) (omega (arith, u.slept)) u'.bounded
                                          u.retried (inl is_request_aborted_self),
                                    )
                              | inr slept ↦
                                  rw (live, thrown, here, more, slept)
                                    (loop-IsRetryRun f (attempt + 1) _ draws (omega arith) u'
                                      (omega arith))
                            ]
                      ]
              ]
        ]
      ]
    where
      stop :
          (calls : ℕ) (x : Result A)
          → attempt ≤ calls
          → calls ≤ suc attempt
          → IsExplained x calls
          → IsRetryRun (record { result = x; calls = calls; delays = reverse delays })
      stop calls x least most why =
          ended attempt calls attempt delays x u.same least (omega arith) most (omega arith)
            (omega (arith, u.slept)) u.bounded u.retried why

  -- With draws in range the loop ends by itself: at most one call more than the retries allowed;
  -- before each call but the first a delay, positive and at most three seconds, which is the
  -- exponential and jittered one of the round before, and at most one more delay after the last
  -- call; the result is that of the last call or a cancellation; every call before the last failed
  -- with a transient error, and an error that is no cancellation is the last allowed call's or not
  -- transient.
  pub with_upstream_retries-IsRetryRun :
      ((k : ℕ) → (world k).random < random_range)
      → (r : Run A) × (with_upstream_retries max_retries base world ≡ some r) × IsRetryRun r
  unfolding with_upstream_retries
  with_upstream_retries-IsRetryRun draws =
      loop-IsRetryRun (suc max_retries) 0 [] draws (omega arith)
        (record { slept = refl; same = refl; bounded = tt; retried = λ k h. elim h [ ] })
        (omega arith)

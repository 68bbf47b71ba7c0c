-- ===== src/Service/InFlight/Counting.antt =====
-- How many numbers below a bound pass a test, and when one request leaves.
use news_api.Service.InFlight.{Request, Searches, set_request, release, wait_for_in_flight_search}
use native.Mathlib.Decide.{ℕ_discrete}
use native.Mathlib.Numerals.{unary_clauses}
use news_api.Base.{
  ℕ, zero, suc, ◌+◌, ◌<◌, ◌≡◌, ◌≢◌, refl, Bool, true, false, not, ◌&&◌, arith, ◌==◌, if◌then◌else◌,
  Bool-cases, ◌∙◌, inl, inr,
}

abbrev pub count_below : (ℕ → Bool) → ℕ → ℕ
count_below p zero = 0
count_below p (suc n) = (if p n then 1 else 0) + count_below p n

-- The request waits on the entry.
unfoldable pub waits_on : ℕ → (ℕ → Request) → ℕ → Bool
waits_on i requests r = not (requests r).released && i == (requests r).entry

pub count_below-next :
    (p : ℕ → Bool) (n : ℕ) → count_below p (n + 1) ≡ (if p n then 1 else 0) + count_below p n
count_below-next p n = simp unary_clauses refl

pub count_below-same :
    (p q : ℕ → Bool) (n : ℕ) → ((k : ℕ) → k < n → p k ≡ q k) → count_below p n ≡ count_below q n
count_below-same p q zero same = refl
count_below-same p q (suc n) same =
    let rest = count_below-same p q n (λ k lt. same k (omega arith)) in
    rw (same n (omega arith), rest) refl

-- One number no longer passes, and nothing else changes.
pub count_below-drop :
    (p q : ℕ → Bool) (r n : ℕ)
    → r < n
    → p r ≡ true
    → q r ≡ false
    → ((k : ℕ) → k ≢ r → p k ≡ q k)
    → count_below p n ≡ 1 + count_below q n
count_below-drop p q r zero lt was now same = absurd (omega arith)
count_below-drop p q r (suc n) lt was now same = elim (ℕ_discrete n r) [
  | yes here ↦
      let rest = count_below-same p q n (λ k l. same k (λ e. absurd (omega arith))) in
      rw (here, was, now) (ground (arith, rw here at rest))
  | no there ↦
      let rest = count_below-drop p q r n (omega arith) was now same in
      rw (same n there) (omega (arith, rest))
]

-- How many requests wait on an entry.
abbrev pub count_waiting : ℕ → Searches → ℕ
count_waiting i s = count_below (waits_on i s.requests) s.next_request

-- A request that joins is counted for its entry.
pub count_waiting-join :
    (i k : ℕ) (s : Searches)
    → count_waiting k (wait_for_in_flight_search false i s).0
      ≡ (if k == i then 1 else 0) + count_waiting k s
unfolding wait_for_in_flight_search waits_on
count_waiting-join i k s =
    let older =
      count_below-same
        (waits_on k
          (set_request s.next_request (record { entry = i; released = false }) s.requests))
        (waits_on k s.requests) s.next_request (λ r lt. ground arith) in
    count_below-next _ s.next_request ∙ ground (arith, older)

-- A request that has not left is counted for its entry until it does.
pub count_waiting-release :
    (r k : ℕ) (s : Searches)
    → r < s.next_request
    → (s.requests r).released ≡ false
    → count_waiting k s
      ≡ (if k == (s.requests r).entry then 1 else 0) + count_waiting k (release r s)
unfolding release waits_on
count_waiting-release r k s lt there = elim (Bool-cases (k == (s.requests r).entry)) [
  | inl same ↦
      rw (there, same)
        (count_below-drop (waits_on k s.requests)
          (waits_on k (set_request r (record (s.requests r) { released = true }) s.requests)) r
          s.next_request lt (ground arith) (ground arith) (λ j ne. ground arith))
  | inr other ↦
      let same =
        count_below-same (waits_on k s.requests)
          (waits_on k (set_request r (record (s.requests r) { released = true }) s.requests))
          s.next_request (λ j l. ground arith) in
      rw (there, other) (omega (arith, same))
]

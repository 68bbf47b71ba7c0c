-- ===== src/Provider/Search/Reach.antt =====
-- Any interleaving of searches over the one circuit of the process: admissions and settlements of
-- the requests under way, in any order, each with any outcome and at any time.
use news_api.Types.Article.{Json}
use news_api.Provider.Search.{
  settle, settle_error, Signals, settle_failure, request_aborted_by, Json, settle_body,
}
use news_api.Errors.{Thrown, ok, Result, throw, is_request_aborted_error, Result-cases}
use mathlib.Core.Path.{subst}
use news_api.Base.Int.{ℤ}
use news_api.Js.Text.{Text}
use news_api.Provider.Circuit.{
  CircuitRequestState, CircuitWorld, close_circuit, is_open, record_canceled_probe,
  record_provider_failure, closed, assert_circuit_allows_request, should_record_provider_failure,
  half_open,
}
use news_api.Base.{
  ℕ, ◌≡◌, refl, inl, inr, Bool, true, false, not, ◌&&◌, ◌||◌, Option, List, [], ◌∷◌, ◌++◌, arith,
  Bool-cases, any,
}

-- The circuit, and the states in which the requests under way were admitted.
pub record Process : Type 0 where
  pub world : CircuitWorld
  pub outstanding : List CircuitRequestState

abbrev pub is_half_open : CircuitRequestState → Bool
is_half_open closed = false
is_half_open half_open = true

abbrev pub is_probing : CircuitWorld → Bool
is_probing w = w.circuit.half_open_in_flight

module _ (date_parse : Text → Option ℤ) (threshold cooldown : ℕ) where
  pub data Step (p : Process) : Process → Type 0 where
    admitted :
        (now : ℕ) (w : CircuitWorld) (state : CircuitRequestState)
        → assert_circuit_allows_request cooldown p.world now ≡ (w, ok state)
        → Step p (record { world = w; outstanding = state ∷ p.outstanding })
    rejected :
        (now : ℕ) (w : CircuitWorld) (e : Thrown)
        → assert_circuit_allows_request cooldown p.world now ≡ (w, throw e)
        → Step p (record { world = w; outstanding = p.outstanding })
    settled :
        (before after : List CircuitRequestState) (state : CircuitRequestState) (now : ℕ)
        (s : Signals) (response : Result Json)
        → p.outstanding ≡ before ++ (state ∷ after)
        → Step p (record {
          world = (settle date_parse threshold state now s response p.world).world;
          outstanding = before ++ after;
        })

  pub data Reach (p : Process) : Process → Type 0 where
    here : Reach p p
    next : {q r : Process} → Reach p q → Step q r → Reach p r

-- The circuit never stands open with a probe under way; and while it is half open, one of the
-- requests under way was admitted as a probe, so that its settlement will decide.
pub record IsSound (p : Process) : Type 0 where
  pub not_both : (is_open p.world.circuit && is_probing p.world) ≡ false
  pub has_probe : is_probing p.world ≡ true → any is_half_open p.outstanding ≡ true

-- What a settlement does to the flag of the probe.
record Settles (state : CircuitRequestState) (w w' : CircuitWorld) : Type 0 where
  not_both :
      (is_open w.circuit && is_probing w) ≡ false → (is_open w'.circuit && is_probing w') ≡ false
  kept : is_probing w' ≡ true → is_probing w ≡ true
  cleared : is_probing w' ≡ true → state ≡ closed

close_circuit-Settles :
    (state : CircuitRequestState) (w : CircuitWorld) → Settles state w (close_circuit w)
unfolding close_circuit
close_circuit-Settles state w = ground arith

record_provider_failure-Settles :
    (state : CircuitRequestState) (threshold now : ℕ) (w : CircuitWorld)
    → Settles state w (record_provider_failure threshold now w)
unfolding record_provider_failure
record_provider_failure-Settles state threshold now w = ground arith

record_canceled_probe-Settles :
    (state : CircuitRequestState) (now : ℕ) (w : CircuitWorld)
    → Settles state w (record_canceled_probe state now w)
unfolding record_canceled_probe
record_canceled_probe-Settles closed now w = record {
  not_both = λ h. h;
  kept = λ h. h;
  cleared = λ h. refl;
}
record_canceled_probe-Settles half_open now w = ground arith

module _ (date_parse : Text → Option ℤ) (threshold : ℕ) where
  settle_failure-Settles :
      (state : CircuitRequestState) (now : ℕ) (err : Thrown) (w : CircuitWorld)
      → Settles state w (settle_failure date_parse threshold state now err w).world
  settle_failure-Settles state now err w = elim (Bool-cases (should_record_provider_failure err)) [
    | inl counts ↦ rw counts (record_provider_failure-Settles state threshold now w)
    | inr permanent ↦ rw permanent (by_state state)
  ]
    where
      by_state :
          (state : CircuitRequestState)
          → Settles state w (elim state [ closed ↦ w | half_open ↦ close_circuit w ])
      by_state closed = record { not_both = λ h. h; kept = λ h. h; cleared = λ h. refl }
      by_state half_open = close_circuit-Settles half_open w

  settle_error-Settles :
      (state : CircuitRequestState) (now : ℕ) (s : Signals) (err : Thrown) (w : CircuitWorld)
      → Settles state w (settle_error date_parse threshold state now s err w).world
  unfolding settle_error
  settle_error-Settles state now s err w =
      elim (Bool-cases (s.deadline && not s.request && not s.process)) [
        | inl late ↦ rw late (record_provider_failure-Settles state threshold now w)
        | inr timely ↦ elim (Bool-cases (request_aborted_by s || is_request_aborted_error err)) [
          | inl gone ↦ rw (timely, gone) (record_canceled_probe-Settles state now w)
          | inr live ↦ rw (timely, live) (settle_failure-Settles state now err w)
        ]
      ]

  settle-Settles :
      (state : CircuitRequestState) (now : ℕ) (s : Signals) (response : Result Json)
      (w : CircuitWorld)
      → Settles state w (settle date_parse threshold state now s response w).world
  unfolding settle
  settle-Settles state now s response w = elim (Result-cases (settle_body s response)) [
    | inl (articles, e) ↦ rw (e, settle) (close_circuit-Settles state w)
    | inr (err, e) ↦ rw (e, settle) (settle_error-Settles state now s err w)
  ]

any-append :
    (before after : List CircuitRequestState)
    → any is_half_open (before ++ after) ≡ (any is_half_open before || any is_half_open after)
any-append [] after = refl
any-append (s ∷ before) after = rw (any-append before after) (ground arith)

-- A request that is no probe can leave without taking the probe with it.
any-without_closed :
    (before after : List CircuitRequestState)
    → any is_half_open (before ++ closed ∷ after) ≡ true
    → any is_half_open (before ++ after) ≡ true
any-without_closed before after h =
    ground (arith, any-append before after, any-append before (closed ∷ after))

module _ (date_parse : Text → Option ℤ) (threshold cooldown : ℕ) where
  admitted-IsSound :
      (p : Process) (now : ℕ) (w : CircuitWorld) (state : CircuitRequestState)
      → IsSound p
      → assert_circuit_allows_request cooldown p.world now ≡ (w, ok state)
      → IsSound (record { world = w; outstanding = state ∷ p.outstanding })
  unfolding assert_circuit_allows_request
  admitted-IsSound p now w state h e = ground arith

  rejected-circuit :
      (p : Process) (now : ℕ) (w : CircuitWorld) (err : Thrown)
      → assert_circuit_allows_request cooldown p.world now ≡ (w, throw err)
      → w.circuit ≡ p.world.circuit
  unfolding assert_circuit_allows_request
  rejected-circuit p now w err e = ground arith

  Step-IsSound : {p q : Process} → Step date_parse threshold cooldown p q → IsSound p → IsSound q
  Step-IsSound {p} (admitted now w state e) h = admitted-IsSound p now w state h e
  Step-IsSound {p} (rejected now w err e) h =
      let same = rejected-circuit p now w err e in
      record { not_both = rw same h.not_both; has_probe = rw same h.has_probe }
  Step-IsSound {p} (settled before after state now s response e) h =
      let c = settle-Settles date_parse threshold state now s response p.world in
      record {
        not_both = c.not_both h.not_both;
        has_probe = λ probing. any-without_closed before after (
            subst (λ x. any is_half_open (before ++ x ∷ after) ≡ true) (c.cleared probing)
              (subst (λ l. any is_half_open l ≡ true) e (h.has_probe (c.kept probing))));
      }

  -- From a sound state, however searches interleave and whatever their outcomes, a half-open
  -- circuit always has a probe under way, and the circuit never is open and probing at once.
  pub Reach-IsSound :
      {p q : Process} → IsSound p → Reach date_parse threshold cooldown p q → IsSound q
  Reach-IsSound h here = h
  Reach-IsSound h (next r step) = Step-IsSound step (Reach-IsSound h r)

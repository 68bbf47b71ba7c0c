-- ===== src/Provider/Search/Laws.antt =====
-- What a settled search returns, and what it leaves of the circuit.
use news_api.Provider.Circuit.Laws.{close_circuit-circuit}
use news_api.Http.RetryAfter.Laws.{IsBoundedSeconds, retry_after_from_headers-IsBoundedSeconds}
use news_api.Provider.Circuit.{
  CircuitRequestState, CircuitWorld, initial_circuit, record_canceled_probe,
  assert_circuit_allows_request, record_provider_failure, half_open, close_circuit, is_open,
  count_event, half_opened,
}
use news_api.Base.Int.{ℤ}
use news_api.Errors.{
  ok, Thrown, ok-ne-throw, throw, ErrorResponse, http_error_of, is_request_aborted_error,
  throw_if_aborted, ErrorObject, Result, Result-cases, axios_error, error,
}
use news_api.Js.Text.{Text}
use news_api.Provider.Search.{
  normalize_articles, articles_within_limit, ok, ℤ, Signals, max_article_count, settle_error,
  CircuitRequestState, Settled, arr, property, items, request_aborted_by, success, map_axios_error,
  settle, error_of_response, settle_body,
}
use news_api.Types.Article.{
  Json, is_article_list, is_article, property, items, boolean, number, str, obj, null,
}
use news_api.Base.{
  ℕ, ◌+◌, ◌≤◌, String, ◌≡◌, refl, sym, ◌∙◌, ◌⊎◌, inl, inr, true, false, not, ◌&&◌, ◌||◌, Option,
  none, some, List, [], ◌∷◌, arith, ltb, ◌==◌, Bool-cases, Option-cases, and-split, length, all,
  All,
}

abbrev pub AreArticles : List Json → Type 0
AreArticles l = All (λ v. is_article v ≡ true) l

pub AreArticles-of_list : (l : List Json) → all is_article l ≡ true → AreArticles l
AreArticles-of_list [] h = tt
AreArticles-of_list (v ∷ l) h =
    let (a, r) = and-split (is_article v) (all is_article l) h in (a, AreArticles-of_list l r)

articles_within_limit_sound :
    (v : Json) (l : List Json)
    → articles_within_limit v ≡ ok l
    → AreArticles l × (length l ≤ max_article_count)
unfolding is_article_list
articles_within_limit_sound (arr vs) l h =
    elim (Bool-cases
      (not (all is_article (items vs)) || ltb max_article_count (length (items vs)))) [
        | inl bad ↦ absurd (ok-ne-throw _ _ (rw bad at h))
        | inr good ↦
            let h' : ok (items vs) ≡ ok l = rw good at h in
            let same : items vs ≡ l = cc h' in
            rw (← same) (AreArticles-of_list (items vs) (ground arith), ground arith)
      ]
articles_within_limit_sound null l h = absurd (ok-ne-throw _ _ h)
articles_within_limit_sound (boolean b) l h = absurd (ok-ne-throw _ _ h)
articles_within_limit_sound (number n) l h = absurd (ok-ne-throw _ _ h)
articles_within_limit_sound (str s) l h = absurd (ok-ne-throw _ _ h)
articles_within_limit_sound (obj fs) l h = absurd (ok-ne-throw _ _ h)

normalize_articles_sound :
    (body : Json) (l : List Json)
    → normalize_articles body ≡ ok l
    → AreArticles l × (length l ≤ max_article_count)
unfolding normalize_articles
normalize_articles_sound body l h = elim (Option-cases (property "articles" body)) [
  | inl missing ↦ absurd (ok-ne-throw _ _ (rw missing at h))
  | inr (v, found) ↦ articles_within_limit_sound v l (rw found at h)
]

-- What a failed call of the provider is reported as: 429, 502 or 503, with no provider timing or
-- one of at most a day.
pub record IsProviderError (e : Thrown) : Type 0 where
  pub status : ℕ
  pub message : String
  pub code : String
  pub retry_after : Option Text
  pub same : e ≡ http_error_of status message code retry_after
  pub known : (status ≡ 502) ⊎ (status ≡ 503) ⊎ (status ≡ 429)
  pub bounded : IsBoundedSeconds retry_after

module _ (date_parse : Text → Option ℤ) (now : ℕ) where
  unavailable-IsProviderError :
      IsProviderError
        (http_error_of 502 "Upstream news service unavailable" "upstream_unavailable" none)
  unavailable-IsProviderError = record {
    status = 502;
    message = "Upstream news service unavailable";
    code = "upstream_unavailable";
    retry_after = none;
    same = refl;
    known = inl refl;
    bounded = tt;
  }

  error_of_response-IsProviderError :
      (r : Option ErrorResponse) → IsProviderError (error_of_response date_parse now r)
  error_of_response-IsProviderError none = unavailable-IsProviderError
  error_of_response-IsProviderError (some r) = elim (Bool-cases (r.status == 429)) [
    | inl limited ↦ rw limited (record {
      status = 429;
      message = _;
      code = _;
      retry_after = _;
      same = refl;
      known = inr (inr refl);
      bounded = retry_after_from_headers-IsBoundedSeconds date_parse now r.headers;
    })
    | inr other ↦ elim (Bool-cases (r.status == 503)) [
      | inl down ↦
          rw (other, down)
            (record {
              status = 503;
              message = _;
              code = _;
              retry_after = _;
              same = refl;
              known = inr (inl refl);
              bounded = retry_after_from_headers-IsBoundedSeconds date_parse now r.headers;
            })
      | inr failed ↦ rw (other, failed) unavailable-IsProviderError
    ]
  ]

module _ (date_parse : Text → Option ℤ) (threshold : ℕ) where
  settle_error-throws :
      (state : CircuitRequestState) (now : ℕ) (s : Signals) (err : Thrown) (w : CircuitWorld)
      → (e : Thrown) × ((settle_error date_parse threshold state now s err w).result ≡ throw e)
  unfolding settle_error
  settle_error-throws state now s err w =
      elim (Bool-cases (s.deadline && not s.request && not s.process)) [
        | inl late ↦ rw late (_, refl)
        | inr timely ↦ elim (Bool-cases (request_aborted_by s || is_request_aborted_error err)) [
          | inl gone ↦ rw (timely, gone) (_, refl)
          | inr live ↦ rw (timely, live) (_, refl)
        ]
      ]

  -- What a search that returns articles has gone through.
  pub record IsSuccess (s : Signals) (articles : List Json) (r : Settled) : Type 0 where
    pub live : request_aborted_by s ≡ false
    pub articles_valid : AreArticles articles
    pub bounded : length articles ≤ max_article_count
    pub counted : r.outcome ≡ success
    pub reset : r.world.circuit ≡ initial_circuit

  settle_body_sound :
      (s : Signals) (response : Result Json) (l : List Json)
      → settle_body s response ≡ ok l
      → (request_aborted_by s ≡ false) × AreArticles l × (length l ≤ max_article_count)
  unfolding throw_if_aborted
  settle_body_sound s (throw e) l h = absurd (ok-ne-throw _ _ h)
  settle_body_sound s (ok body) l h = elim (Bool-cases (request_aborted_by s)) [
    | inl gone ↦ absurd (ok-ne-throw _ _ (rw gone at h))
    | inr live ↦
        let (valid, few) = normalize_articles_sound body l (rw live at h) in (live, valid, few)
  ]

  -- A search returns articles only if none of its signals is aborted; they are then at most 100
  -- values that pass the test for an article, and the circuit is closed with no failure counted.
  pub settle-IsSuccess :
      (state : CircuitRequestState) (now : ℕ) (s : Signals) (response : Result Json)
      (w : CircuitWorld) (articles : List Json)
      → (settle date_parse threshold state now s response w).result ≡ ok articles
      → IsSuccess s articles (settle date_parse threshold state now s response w)
  unfolding settle
  settle-IsSuccess state now s response w articles h =
      elim (Result-cases (settle_body s response)) [
        | inl (l, e) ↦
            let h' : ok l ≡ ok articles = rw (e, settle) at h in
            let same : l ≡ articles = cc h' in
            let (live, valid, few) = settle_body_sound s response l e in
            rw (e, settle)
              (record {
                live = live;
                articles_valid = rw same at valid;
                bounded = rw same at few;
                counted = refl;
                reset = close_circuit-circuit w;
              })
        | inr (err, e) ↦
            let (e', thrown) = settle_error-throws state now s err w in
            absurd (ok-ne-throw articles e' (sym thrown ∙ (rw (e, settle) at h)))
      ]

  -- If no signal is aborted, a failed HTTP call that is no cancellation is reported as 429, 502
  -- or 503, with no timing or one of at most a day.
  pub settle_error-IsProviderError :
      (state : CircuitRequestState) (now : ℕ) (s : Signals) (err : ErrorObject)
      (response : Option ErrorResponse) (w : CircuitWorld)
      → err.cls ≡ axios_error response
      → request_aborted_by s ≡ false
      → is_request_aborted_error (error err) ≡ false
      → (e : Thrown) × ((settle_error date_parse threshold state now s (error err) w).result
          ≡ throw e)
        × IsProviderError e
  unfolding settle_error map_axios_error
  settle_error-IsProviderError state now s err response w cls live uncanceled =
      let timely : (s.deadline && not s.request && not s.process) ≡ false = ground arith in
      rw (timely, live, uncanceled)
        (
          error_of_response date_parse now response,
          rw cls,
          error_of_response-IsProviderError date_parse now response,
        )

-- A probe that is cancelled after another request has closed the circuit opens it again, with no
-- failure counted. With a threshold of two or more, the next probe that fails then leaves the
-- circuit closed, although a failed probe is meant to open it.
pub late_cancel_defeats_probe :
    (threshold cooldown cancel_at probe_at fail_time : ℕ) (w : CircuitWorld)
    → 2 ≤ threshold
    → cancel_at + cooldown ≤ probe_at
    → (w' : CircuitWorld) × (assert_circuit_allows_request cooldown
          (record_canceled_probe half_open cancel_at (close_circuit w))
          probe_at
        ≡ (w', ok half_open))
      × (is_open (record_canceled_probe half_open cancel_at (close_circuit w)).circuit ≡ true)
      × (is_open (record_provider_failure threshold fail_time w').circuit ≡ false)
unfolding record_canceled_probe assert_circuit_allows_request record_provider_failure
late_cancel_defeats_probe threshold cooldown cancel_at probe_at fail_time w two late =
    let passed : ltb probe_at (cancel_at + cooldown) ≡ false = ground arith in
    let none_failed : (close_circuit w).circuit.failures ≡ 0 = rw (close_circuit-circuit w) in
    let opened : CircuitWorld = record_canceled_probe half_open cancel_at (close_circuit w) in
    let probing : CircuitWorld = count_event half_opened (record opened {
      circuit = record (opened.circuit) { opened_at = none; half_open_in_flight = true };
    }) in
    (probing, rw passed, refl, ground arith)

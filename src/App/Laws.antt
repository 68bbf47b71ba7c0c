-- ===== src/App/Laws.antt =====
-- What has to hold of a request that a handler answers, and of a program that is ready.
use news_api.Middleware.RateLimit.Laws.{started, needs_store, is_rate_limit_store_ready_iff}
use news_api.Middleware.ClientApiKey.{client_api_key_gate}
use news_api.Middleware.RateLimit.{
  api_rate_limiter, limiter_next, passes, Limited, over_limit, fails, Environment, is_pong,
}
use news_api.Js.Text.{Text}
use news_api.Base.{
  ◌≡◌, refl, ◌⊎◌, inl, inr, Bool, true, false, not, ◌&&◌, ◌||◌, Option, none, some, arith,
  if◌then◌else◌,
}
use news_api.App.{
  handle_api, ok, Method, Text, Route, get, Result, head, Incoming, api_rate_limiter,
  read_only_route, replied, api_not_found, Limited, client_api_key_gate, method_not_allowed,
  dispatch, options, Thrown, of_error, other_method, ready, Environment, readiness_status, is_test,
  has_api_key,
}
use news_api.Errors.{◌>>=◌, ◌>>◌, throw, Result, ok-ne-throw, Thrown}

abbrev pub is_read : Method → Bool
is_read get = true
is_read head = true
is_read _ = false

module _ {A : Type 0} (digest : Text → Text) (handlers : Route → Result A) where
  -- A request that the handler of its route answered with `a`.
  pub record IsServed (req : Incoming) (a : A) : Type 0 where
    pub not_limited : (req.skipped ≡ true) ⊎ (req.limited ≡ passes)
    pub authorized : client_api_key_gate digest req.client_api_keys req.api_key ≡ ok tt
    pub well_formed : req.parsed_body ≡ ok tt
    pub reads : is_read req.method ≡ true
    pub routed : (r : Route) × (req.route ≡ some r) × (handlers r ≡ ok a)

  passed_limiter :
      (skipped : Bool) (limited : Limited)
      → (api_rate_limiter skipped limited).err ≡ none
      → (skipped ≡ true) ⊎ (limited ≡ passes)
  unfolding api_rate_limiter limiter_next
  passed_limiter true limited h = inl refl
  passed_limiter false passes h = inr refl
  passed_limiter false (over_limit status) h = absurd (ground arith)
  passed_limiter false (fails err) h = absurd (ground arith)

  then_ok :
      {C : Type 0} (m : Result (Unit {0})) (k : Result C) (c : C)
      → (m >> k) ≡ ok c
      → (m ≡ ok tt) × (k ≡ ok c)
  then_ok (ok tt) k c h = (refl, h)
  then_ok (throw e) k c h = absurd (ok-ne-throw _ _ h)

  no_error_of : (o : Option Thrown) → of_error o ≡ ok tt → o ≡ none
  no_error_of none h = refl
  no_error_of (some e) h = absurd (ok-ne-throw _ _ h)

  reply_of : (m : Result A) (a : A) → (m >>= λ b. ok (replied b)) ≡ ok (replied a) → m ≡ ok a
  reply_of (ok b) a h = cc h
  reply_of (throw e) a h = absurd (ok-ne-throw _ _ h)

  dispatched :
      (method : Method) (route : Option Route) (a : A)
      → dispatch handlers method route ≡ ok (replied a)
      → (is_read method ≡ true) × ((r : Route) × (route ≡ some r) × (handlers r ≡ ok a))
  unfolding read_only_route api_not_found method_not_allowed
  dispatched method none a h = absurd (ok-ne-throw _ _ h)
  dispatched get (some r) a h = (refl, (r, refl, reply_of (handlers r) a h))
  dispatched head (some r) a h = (refl, (r, refl, reply_of (handlers r) a h))
  dispatched options (some r) a h = absurd (ground arith)
  dispatched other_method (some r) a h = absurd (ok-ne-throw _ _ h)

  -- A handler's reply is sent only for a request that is skipped by the limiter or that it lets pass,
  -- that passes the gate of the clients' keys, whose body was parsed, that is a GET or a HEAD, and
  -- whose path is a route of the router: then it is the reply of that route's handler.
  pub handle_api-IsServed :
      (req : Incoming) (a : A) → handle_api digest handlers req ≡ ok (replied a) → IsServed req a
  unfolding handle_api
  handle_api-IsServed req a h =
      let unlimited : Result (Unit {0}) = of_error (api_rate_limiter req.skipped req.limited).err in
      let gate : Result (Unit {0}) = client_api_key_gate digest req.client_api_keys req.api_key in
      let (m₃, routed) =
        then_ok (unlimited >> gate >> req.parsed_body) (dispatch handlers req.method req.route)
          (replied a) h in
      let (m₂, parsed) = then_ok (unlimited >> gate) req.parsed_body tt m₃ in
      let (m₁, authorized) = then_ok unlimited gate tt m₂ in
      let (reads, route) = dispatched req.method req.route a routed in
      record {
        not_limited = passed_limiter req.skipped req.limited (no_error_of _ m₁);
        authorized = authorized;
        well_formed = parsed;
        reads = reads;
        routed = route;
      }

-- The program is ready exactly if it is not draining, has the provider's key, unless it runs a test,
-- and, if it needs a store for its limits, has the answer of the store to a ping.
pub ready_iff :
    (is_draining : Bool) (env : Environment) (gnews_api_key : Option Text) (ping : Result Text)
    → readiness_status (ready is_draining env gnews_api_key (started env) ping) ≡ (
        if not is_draining
          && (is_test env || has_api_key gnews_api_key)
          && (not (needs_store env) || is_pong ping)
        then 200
        else 503)
unfolding ready
ready_iff is_draining env gnews_api_key ping =
    ground (arith, (is_rate_limit_store_ready_iff env ping (ok tt)).0)

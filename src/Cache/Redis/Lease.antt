-- ===== src/Cache/Redis/Lease.antt =====
-- The commands of src/cache/store.ts for the lease of one key, on the server and on the abstract
-- lease.
use news_api.Cache.Redis.AbstractLease.{
  run_lease-kept, Lease, LeaseCall, run_lease, IsTimed, LeaseReply, IsByOther, acquire_call,
  lease_step, elapsed, of_bool, release_call, IsRefusal, of_unit, renew_call, time_passes, done,
}
use news_api.Cache.Redis.{answered, unsent, unanswered}
use news_api.Js.Text.{Text}
use news_api.Base.{
  ℕ, ◌-◌, ◌<◌, String, ◌≡◌, refl, ap, ◌∙◌, Option, none, some, List, [], ◌∷◌, arith, eq_refl, All,
}
use news_api.Cache.Redis.{
  Redis, try_acquire_lease, release_lease, renew_lease, release_lease_script, renew_lease_script,
}
use news_api.Cache.Redis.Laws.{RedisLaws}

module _ (R : Redis) (laws : RedisLaws R) (key : String) where
  open laws use {
    elapse, left, nx-done, nx-get, nx-left, del-get, pexpire-done, pexpire-get, pexpire-left,
    elapse-get, elapse-left,
  }

  -- The call on the server.
  abbrev pub redis_step : LeaseCall → R.S → R.S × LeaseReply
  redis_step (acquire_call delivery owner ttl) s =
      let (s', r) = try_acquire_lease R delivery key owner ttl s in (s', of_bool r)
  redis_step (release_call delivery owner) s =
      let (s', r) = release_lease R delivery key owner s in (s', of_unit r)
  redis_step (renew_call delivery owner ttl) s =
      let (s', r) = renew_lease R delivery key owner ttl s in (s', of_bool r)
  redis_step (time_passes d) s = (elapse d s, done)

  abbrev pub view_of : Option Text → ℕ → Lease
  view_of none n = none
  view_of (some owner) n = some (owner, n)

  -- The abstract view of a state of the server.
  abbrev pub view : R.S → Lease
  view s = view_of (R.get key s) (left key s)

  redis_step-view :
      (c : LeaseCall) (s : R.S)
      → IsTimed c
      → (view (redis_step c s).0, (redis_step c s).1) ≡ lease_step c (view s)
  unfolding try_acquire_lease release_lease renew_lease release_lease_script renew_lease_script
  redis_step-view (acquire_call answered owner ttl) s h = ground (
    arith,
    nx-done key owner ttl s,
    nx-get key key owner ttl s h,
    nx-left key key owner ttl s,
    eq_refl key,
  )
  redis_step-view (acquire_call (unsent e) owner ttl) s h = refl
  redis_step-view (acquire_call (unanswered e) owner ttl) s h = ground (
    arith,
    nx-done key owner ttl s,
    nx-get key key owner ttl s h,
    nx-left key key owner ttl s,
    eq_refl key,
  )
  redis_step-view (release_call answered owner) s h = ground (arith, del-get key key s, eq_refl key)
  redis_step-view (release_call (unsent e) owner) s h = refl
  redis_step-view (release_call (unanswered e) owner) s h =
      ground (arith, del-get key key s, eq_refl key)
  redis_step-view (renew_call answered owner ttl) s h = ground (
    arith,
    pexpire-done key ttl s,
    pexpire-get key key ttl s h,
    pexpire-left key key ttl s,
    eq_refl key,
  )
  redis_step-view (renew_call (unsent e) owner ttl) s h = refl
  redis_step-view (renew_call (unanswered e) owner ttl) s h = ground (
    arith,
    pexpire-done key ttl s,
    pexpire-get key key ttl s h,
    pexpire-left key key ttl s,
    eq_refl key,
  )
  redis_step-view (time_passes d) s h = ground (arith, elapse-get d key s, elapse-left d key s)

  -- Any sequence of calls, on the server and on the abstract lease.
  unfoldable pub run_calls : List LeaseCall → R.S → R.S × List LeaseReply
  run_calls [] s = (s, [])
  run_calls (c ∷ cs) s =
      let (s', reply) = redis_step c s in
      let (final, replies) = run_calls cs s' in (final, reply ∷ replies)

  -- The leases of the store implement the abstract lease: whatever calls the replicas make, in any
  -- order, whether each command is answered, is not sent, or is run without its answer arriving, and
  -- however time passes between them, the replies are those of the abstract lease, and so is the
  -- state that the calls leave. The times of the leases are positive.
  pub run_calls-refines :
      (cs : List LeaseCall) (s : R.S)
      → All IsTimed cs
      → ((view (run_calls cs s).0) ≡ (run_lease cs (view s)).0)
        × ((run_calls cs s).1 ≡ (run_lease cs (view s)).1)
  unfolding run_calls run_lease
  run_calls-refines [] s h = (refl, refl)
  run_calls-refines (c ∷ cs) s h =
      let e = redis_step-view c s h.0 in
      let ih = run_calls-refines cs (redis_step c s).0 h.1 in
      rw (← e) (ih.0, ap (λ l. (redis_step c s).1 ∷ l) ih.1)

  holder_of_view :
      (o : Option Text) (n : ℕ) (owner : Text) (m : ℕ)
      → view_of o n ≡ some (owner, m)
      → o ≡ some owner
  holder_of_view none n owner m e = absurd (ground arith)
  holder_of_view (some x) n owner m e = ground arith

  -- A lease excludes the other replicas: until its time is over, whatever they call and however
  -- their connections fail, before a command is sent or after it is run, they are refused, and its
  -- owner still has it. Releases and renewals of the owner itself are excluded. The times of the
  -- leases are positive.
  pub lease_excludes :
      (cs : List LeaseCall) (s : R.S) (owner : Text)
      → R.get key s ≡ some owner
      → All IsTimed cs
      → All (IsByOther owner) cs
      → elapsed cs < left key s
      → (R.get key (run_calls cs s).0 ≡ some owner) × All IsRefusal (run_calls cs s).1
  lease_excludes cs s owner held timed others lt =
      let (same, replies) = run_calls-refines cs s timed in
      let (kept, refused) = run_lease-kept cs owner (left key s) others lt in
      let start : view s ≡ some (owner, left key s) = rw held in
      let final = (run_calls cs s).0 in
      (
        holder_of_view (R.get key final) (left key final) owner (left key s - elapsed cs)
            (same ∙ ap (λ l. (run_lease cs l).0) start ∙ kept),
        rw (replies, start) refused,
      )

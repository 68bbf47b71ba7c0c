-- ===== src/Cache/Redis/AbstractLease.antt =====
-- The lease that the store promises: an owner and a time that runs out, and what each call does.
use news_api.Errors.{Result, Thrown, ok, throw}
use news_api.Cache.Redis.{Delivery, answered, unsent, unanswered}
use news_api.Js.Text.{Text, text_eq}
use news_api.Base.{
  ℕ, ◌+◌, ◌-◌, ◌<◌, ◌≡◌, Bool, true, false, Option, none, some, List, [], ◌∷◌, arith, ltb,
  if◌then◌else◌, All,
}

-- The owner, and the milliseconds left.
abbrev pub Lease : Type 0
Lease = Option (Text × ℕ)

abbrev pub is_held_by : Text → Lease → Bool
is_held_by owner none = false
is_held_by owner (some l) = text_eq l.0 owner

-- A call of a replica, with what becomes of its command, or time that passes.
pub data LeaseCall : Type 0 where
  acquire_call : Delivery → Text → ℕ → LeaseCall
  release_call : Delivery → Text → LeaseCall
  renew_call : Delivery → Text → ℕ → LeaseCall
  time_passes : ℕ → LeaseCall

-- What the caller gets: a call that releases gives no value.
pub data LeaseReply : Type 0 where
  answer : Bool → LeaseReply
  done : LeaseReply
  failed : Thrown → LeaseReply

-- The abstract lease: free or held, and only its owner changes it before its time is over.
abbrev pub take_lease : Text → ℕ → Lease → Lease × LeaseReply
take_lease owner ttl none = (some (owner, ttl), answer true)
take_lease owner ttl (some l) = (some l, answer false)

abbrev pub run_out : ℕ → Lease → Lease
run_out d none = none
run_out d (some l) = if ltb d l.1 then some (l.0, l.1 - d) else none

abbrev pub extend : Text → ℕ → Lease → Lease × LeaseReply
extend owner ttl none = (none, answer false)
extend owner ttl (some l) =
    if text_eq l.0 owner then (some (l.0, ttl), answer true) else (some l, answer false)

-- The caller of a command that is not answered learns nothing.
abbrev pub deliver : Delivery → (Lease → Lease × LeaseReply) → Lease → Lease × LeaseReply
deliver answered step l = step l
deliver (unsent e) step l = (l, failed e)
deliver (unanswered e) step l = ((step l).0, failed e)

abbrev pub drop_lease : Text → Lease → Lease × LeaseReply
drop_lease owner l = (if is_held_by owner l then none else l, done)

abbrev pub lease_step : LeaseCall → Lease → Lease × LeaseReply
lease_step (acquire_call delivery owner ttl) l = deliver delivery (take_lease owner ttl) l
lease_step (release_call delivery owner) l = deliver delivery (drop_lease owner) l
lease_step (renew_call delivery owner ttl) l = deliver delivery (extend owner ttl) l
lease_step (time_passes d) l = (run_out d l, done)

abbrev pub of_bool : Result Bool → LeaseReply
of_bool (ok b) = answer b
of_bool (throw e) = failed e

abbrev pub of_unit : Result (Unit {0}) → LeaseReply
of_unit (ok u) = done
of_unit (throw e) = failed e

-- Lease times are positive.
abbrev pub IsTimed : LeaseCall → Type 0
IsTimed (acquire_call delivery owner ttl) = 0 < ttl
IsTimed (renew_call delivery owner ttl) = 0 < ttl
IsTimed _ = Unit

unfoldable pub run_lease : List LeaseCall → Lease → Lease × List LeaseReply
run_lease [] l = (l, [])
run_lease (c ∷ cs) l =
    let (l', reply) = lease_step c l in
    let (final, replies) = run_lease cs l' in (final, reply ∷ replies)

-- Calls of other replicas, and time.
abbrev pub IsByOther : Text → LeaseCall → Type 0
IsByOther owner (release_call delivery other) = text_eq owner other ≡ false
IsByOther owner (renew_call delivery other ttl) = text_eq owner other ≡ false
IsByOther owner _ = Unit

abbrev pub elapsed : List LeaseCall → ℕ
elapsed [] = 0
elapsed (time_passes d ∷ cs) = d + elapsed cs
elapsed (_ ∷ cs) = elapsed cs

abbrev pub IsRefusal : LeaseReply → Type 0
IsRefusal (answer true) = ⊥
IsRefusal _ = Unit

lease_step-IsByOther :
    (c : LeaseCall) (owner : Text) (n : ℕ)
    → IsByOther owner c
    → elapsed (c ∷ []) < n
    → ((lease_step c (some (owner, n))).0 ≡ some (owner, n - elapsed (c ∷ [])))
      × IsRefusal ((lease_step c (some (owner, n))).1)
lease_step-IsByOther (acquire_call answered other ttl) owner n h lt = ground arith
lease_step-IsByOther (acquire_call (unsent e) other ttl) owner n h lt = ground arith
lease_step-IsByOther (acquire_call (unanswered e) other ttl) owner n h lt = ground arith
lease_step-IsByOther (release_call answered other) owner n h lt = ground arith
lease_step-IsByOther (release_call (unsent e) other) owner n h lt = ground arith
lease_step-IsByOther (release_call (unanswered e) other) owner n h lt = ground arith
lease_step-IsByOther (renew_call answered other ttl) owner n h lt = ground arith
lease_step-IsByOther (renew_call (unsent e) other ttl) owner n h lt = ground arith
lease_step-IsByOther (renew_call (unanswered e) other ttl) owner n h lt = ground arith
lease_step-IsByOther (time_passes d) owner n h lt = ground arith

elapsed-cons :
    (c : LeaseCall) (cs : List LeaseCall) → elapsed (c ∷ cs) ≡ elapsed (c ∷ []) + elapsed cs
elapsed-cons (time_passes d) cs = omega arith
elapsed-cons _ cs = omega arith

pub run_lease-kept :
    (cs : List LeaseCall) (owner : Text) (n : ℕ)
    → All (IsByOther owner) cs
    → elapsed cs < n
    → ((run_lease cs (some (owner, n))).0 ≡ some (owner, n - elapsed cs))
      × All IsRefusal (run_lease cs (some (owner, n))).1
unfolding run_lease
run_lease-kept [] owner n h lt = ground arith
run_lease-kept (c ∷ cs) owner n h lt =
    let total = elapsed-cons c cs in
    let (held, refused) = lease_step-IsByOther c owner n h.0 (omega (arith, total)) in
    let (kept, rest) = run_lease-kept cs owner (n - elapsed (c ∷ [])) h.1 (omega (arith, total)) in
    let left : n - elapsed (c ∷ []) - elapsed cs ≡ n - elapsed (c ∷ cs) = omega (arith, total) in
    rw (held, ← left) (kept, (refused, rest))

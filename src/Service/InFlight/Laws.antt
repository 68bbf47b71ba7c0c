-- ===== src/Service/InFlight/Laws.antt =====
-- Who waits on which search, over any sequence of requests, cancellations and settlements.
use news_api.Service.InFlight.{
  Searches, create_in_flight_search, find_entry, join, mark_in_flight_settled, no_searches, release,
  wait_for_in_flight_search,
}
use news_api.Service.InFlight.Counting.{count_waiting, count_waiting-join, count_waiting-release}
use news_api.Base.{
  ℕ, ◌≤◌, ◌<◌, ◌≡◌, refl, ◌∙◌, inl, inr, Bool, true, false, not, ◌&&◌, ◌||◌, Option, none, some,
  arith, ◌==◌, Bool-cases, ◌≢◌,
}

-- The events: a request joins; `release` of a request runs, its first time or again; and an entry
-- settles.
pub data Step (s : Searches) : Searches → Type 0 where
  joined : (gone : Bool) → Step s (join gone s).0
  released : (r : ℕ) → r < s.next_request → Step s (release r s)
  settled : (i : ℕ) → i < s.next → Step s (mark_in_flight_settled i s)

pub data Reach (s : Searches) : Searches → Type 0 where
  here : Reach s s
  next : {t u : Searches} → Reach s t → Step t u → Reach s u

-- Each entry counts the requests that wait on it; the entry in the map is one that was created and
-- has not settled; nobody waits on an entry that was not created.
pub record IsConsistent (s : Searches) : Type 0 where
  pub counted : (i : ℕ) → (s.entries i).subscribers ≡ count_waiting i s
  pub mapped : (i : ℕ) → s.in_map ≡ some i → (i < s.next) × ((s.entries i).settled ≡ false)
  pub fresh : (i : ℕ) → s.next ≤ i → count_waiting i s ≡ 0

no_searches-IsConsistent : IsConsistent no_searches
no_searches-IsConsistent = record {
  counted = λ i. refl;
  mapped = λ i h. absurd (ground arith);
  fresh = λ i h. refl;
}

create_in_flight_search-IsConsistent :
    (s : Searches) → IsConsistent s → IsConsistent (create_in_flight_search s)
unfolding create_in_flight_search
create_in_flight_search-IsConsistent s h = record {
  counted = λ i. ground (arith, h.counted i, h.fresh s.next);
  mapped = λ i e. ground arith;
  fresh = λ i le. h.fresh i (omega arith);
}

find_entry-IsConsistent :
    (found : Option ℕ) (s : Searches)
    → s.in_map ≡ found
    → IsConsistent s
    → IsConsistent (find_entry found s).1 × ((find_entry found s).0 < (find_entry found s).1.next)
unfolding find_entry create_in_flight_search
find_entry-IsConsistent none s e h = (create_in_flight_search-IsConsistent s h, omega arith)
find_entry-IsConsistent (some i) s e h = (h, (h.mapped i e).0)

wait_for_in_flight_search-IsConsistent :
    (gone : Bool) (i : ℕ) (s : Searches)
    → IsConsistent s
    → i < s.next
    → IsConsistent (wait_for_in_flight_search gone i s).0
unfolding wait_for_in_flight_search
wait_for_in_flight_search-IsConsistent true i s h lt = h
wait_for_in_flight_search-IsConsistent false i s h lt = record {
  counted = λ k. ground (arith, h.counted k, count_waiting-join i k s);
  mapped = λ k e. ground (arith, h.mapped k);
  fresh = λ k le. ground (arith, h.fresh k, count_waiting-join i k s);
}

release-IsConsistent :
    (r : ℕ) (s : Searches) → r < s.next_request → IsConsistent s → IsConsistent (release r s)
unfolding release
release-IsConsistent r s lt h = elim (Bool-cases (s.requests r).released) [
  | inl again ↦ rw again h
  | inr first ↦ record {
    counted = λ k. ground (arith, h.counted k, count_waiting-release r k s lt first);
    mapped = λ k m. ground (arith, h.mapped k);
    fresh = λ k le. ground (arith, h.fresh k, count_waiting-release r k s lt first);
  }
]

mark_in_flight_settled-IsConsistent :
    (i : ℕ) (s : Searches) → IsConsistent s → IsConsistent (mark_in_flight_settled i s)
unfolding mark_in_flight_settled
mark_in_flight_settled-IsConsistent i s h = record {
  counted = λ k. ground (arith, h.counted k);
  mapped = λ k m. ground (arith, h.mapped k);
  fresh = h.fresh;
}

join-IsConsistent : (gone : Bool) (s : Searches) → IsConsistent s → IsConsistent (join gone s).0
unfolding join
join-IsConsistent gone s h =
    let (c, lt) = find_entry-IsConsistent s.in_map s refl h in
    wait_for_in_flight_search-IsConsistent gone _ _ c lt

Step-IsConsistent : {s t : Searches} → Step s t → IsConsistent s → IsConsistent t
Step-IsConsistent {s} (joined gone) h = join-IsConsistent gone s h
Step-IsConsistent {s} (released r lt) h = release-IsConsistent r s lt h
Step-IsConsistent {s} (settled i lt) h = mark_in_flight_settled-IsConsistent i s h

-- However requests, cancellations and settlements follow each other, and however often the
-- `release` of a request runs, each search counts exactly the requests that joined it and have not
-- left, and the search in the map has not settled.
pub Reach-IsConsistent : {s : Searches} → Reach no_searches s → IsConsistent s
Reach-IsConsistent here = no_searches-IsConsistent
Reach-IsConsistent (next r step) = Step-IsConsistent step (Reach-IsConsistent r)

release-released : (r : ℕ) (s : Searches) → (s.requests r).released ≡ true → release r s ≡ s
unfolding release
release-released r s again = rw again refl

aborts_alone :
    (r : ℕ) (s : Searches)
    → IsConsistent s
    → r < s.next_request
    → (s.requests r).released ≡ false
    → let i = (s.requests r).entry in
      ((release r s).entries i).aborted
      ≡ ((s.entries i).aborted || (not (s.entries i).settled && count_waiting i (release r s) == 0))
unfolding release
aborts_alone r s h lt first =
    let n = count_waiting-release r (s.requests r).entry s lt first in
    rw (release, first) (ground (arith, h.counted (s.requests r).entry, n))

others_kept :
    (r : ℕ) (s : Searches) (k : ℕ)
    → k ≢ (s.requests r).entry
    → (release r s).entries k ≡ s.entries k
unfolding release
others_kept r s k ne = ground arith

release_again :
    (r : ℕ) (s : Searches) → (s.requests r).released ≡ false → release r (release r s) ≡ release r s
unfolding release
release_again r s first =
    let done : ((release r s).requests r).released ≡ true = ground arith in
    release-released r (release r s) done

-- In a consistent state, when `release` of a request runs for the first time, its search is aborted
-- from then on exactly if it had been before, or has not settled and nobody else waits on it; no
-- other search changes; and when `release` runs again, nothing changes.
pub release-aborted :
    (r : ℕ) (s : Searches)
    → IsConsistent s
    → r < s.next_request
    → (s.requests r).released ≡ false
    → let i = (s.requests r).entry in
      (((release r s).entries i).aborted ≡ (
        (s.entries i).aborted || (not (s.entries i).settled && count_waiting i (release r s) == 0)))
      × ((k : ℕ) → k ≢ i → (release r s).entries k ≡ s.entries k)
      × (release r (release r s) ≡ release r s)
release-aborted r s h lt first =
    (aborts_alone r s h lt first, others_kept r s, release_again r s first)

join-found :
    (i : ℕ) (s : Searches)
    → s.in_map ≡ some i
    → (join false s).0 ≡ (wait_for_in_flight_search false i s).0
unfolding join find_entry
join-found i s e = rw e refl

release-in_map : (r : ℕ) (s : Searches) → (release r s).in_map ≡ s.in_map
unfolding release
release-in_map r s = ground arith

release-next_request : (r : ℕ) (s : Searches) → (release r s).next_request ≡ s.next_request
unfolding release
release-next_request r s = ground arith

next_request-asks :
    (i : ℕ) (s : Searches) (n : ℕ)
    → s.next_request ≡ n
    → (wait_for_in_flight_search false i s).0.requests n ≡ record { entry = i; released = false }
unfolding wait_for_in_flight_search
next_request-asks i s n e = rw (← e) (ground arith)

wait-aborted :
    (i : ℕ) (s : Searches)
    → ((wait_for_in_flight_search false i s).0.entries i).aborted ≡ (s.entries i).aborted
unfolding wait_for_in_flight_search
wait-aborted i s = ground arith

-- In a consistent state in which one request alone waits on the search in the map: after that
-- request has left, the next one joins the same search and waits on it alone, and the search is
-- aborted by then, although the signal of that request is not.
pub rejoin_aborted :
    (r i : ℕ) (s : Searches)
    → IsConsistent s
    → s.in_map ≡ some i
    → r < s.next_request
    → s.requests r ≡ record { entry = i; released = false }
    → count_waiting i s ≡ 1
    → let t = (join false (release r s)).0 in
      (t.requests s.next_request ≡ record { entry = i; released = false })
      × (count_waiting i t ≡ 1)
      × ((t.entries i).aborted ≡ true)
rejoin_aborted r i s h there lt waits alone =
    let first : (s.requests r).released ≡ false = rw waits refl in
    let mine : (s.requests r).entry ≡ i = rw waits refl in
    let n = count_waiting-release r i s lt first in
    let left : count_waiting i (release r s) ≡ 0 = ground (arith, rw mine at n) in
    let aborts = aborts_alone r s h lt first in
    let gone = rw mine at aborts in
    rw (join-found i (release r s) (release-in_map r s ∙ there)) (
      next_request-asks i (release r s) s.next_request (release-next_request r s),
      ground (arith, left, count_waiting-join i i (release r s)),
      wait-aborted i (release r s) ∙ gone ∙ ground (arith, left, h.mapped i there),
    )

-- ===== src/Service/InFlight/Tests.antt =====
-- Searches in flight at concrete events.
use news_api.Service.InFlight.{
  Searches, join, no_searches, find_entry, wait_for_in_flight_search, create_in_flight_search,
  release,
}
use news_api.Service.InFlight.Laws.{
  Reach, here, next, joined, IsConsistent, Reach-IsConsistent, rejoin_aborted, release-aborted,
  released,
}
use news_api.Service.InFlight.Counting.{count_waiting, waits_on}
use news_api.Base.{◌≡◌, refl, true, false, arith, ◌≢◌, ℕ, ◌<◌, ◌||◌, not, ◌&&◌, ◌==◌}

-- One request waits on a new search.
abbrev one_waiting : Searches
one_waiting = (join false no_searches).0

one_waiting-Reach : Reach no_searches one_waiting
one_waiting-Reach = next here (joined false)

one_waiting-IsConsistent : IsConsistent one_waiting
one_waiting-IsConsistent = Reach-IsConsistent one_waiting-Reach

one_next : 0 < one_waiting.next_request
unfolding join find_entry wait_for_in_flight_search create_in_flight_search
one_next = omega arith

-- A second request joins it, the first one is cancelled, and its `release` runs again.
second_left-Reach : Reach no_searches (release 0 (release 0 (join false one_waiting).0))
unfolding join find_entry wait_for_in_flight_search create_in_flight_search release
second_left-Reach =
    next (next (next one_waiting-Reach (joined false)) (released 0 (omega arith)))
      (released 0 (omega arith))

Reach-IsConsistent_example : IsConsistent (release 0 (release 0 (join false one_waiting).0))
Reach-IsConsistent_example = Reach-IsConsistent second_left-Reach

second_waits : ((release 0 (release 0 (join false one_waiting).0)).entries 0).subscribers ≡ 1
unfolding join find_entry wait_for_in_flight_search create_in_flight_search release
second_waits = refl

first_waits : (one_waiting.requests 0).released ≡ false
unfolding join find_entry wait_for_in_flight_search create_in_flight_search
first_waits = refl

release-aborted_example :
    (((release 0 one_waiting).entries (one_waiting.requests 0).entry).aborted ≡ (
      (one_waiting.entries (one_waiting.requests 0).entry).aborted
      || (not (one_waiting.entries (one_waiting.requests 0).entry).settled
          && count_waiting (one_waiting.requests 0).entry (release 0 one_waiting) == 0)))
    × ((k : ℕ)
        → k ≢ (one_waiting.requests 0).entry
        → (release 0 one_waiting).entries k ≡ one_waiting.entries k)
    × (release 0 (release 0 one_waiting) ≡ release 0 one_waiting)
release-aborted_example =
    release-aborted 0 one_waiting one_waiting-IsConsistent one_next first_waits

rejoin_aborted_example :
    ((join false (release 0 one_waiting)).0.requests one_waiting.next_request
      ≡ record { entry = 0; released = false })
    × (count_waiting 0 (join false (release 0 one_waiting)).0 ≡ 1)
    × (((join false (release 0 one_waiting)).0.entries 0).aborted ≡ true)
unfolding join find_entry wait_for_in_flight_search create_in_flight_search waits_on
rejoin_aborted_example =
    rejoin_aborted 0 0 one_waiting one_waiting-IsConsistent refl one_next refl refl

-- ===== src/Service/InFlight.antt =====
-- src/services/newsService.ts: the searches in flight for one cache key. Each entry has an
-- identity, so that a request keeps waiting on the entry it joined, and so has each request that
-- waits, with the flag `released` of its own `release`.
pub mod Counting
pub mod Laws
pub mod Tests
use news_api.Errors.{Result, throw, request_aborted_error, ok}
use news_api.Base.{
  ℕ, ◌+◌, ◌-◌, Bool, true, false, not, ◌&&◌, ◌||◌, Option, none, some, ◌==◌, if◌then◌else◌,
}

pub record InFlightSearch : Type 0 where
  pub aborted : Bool
  pub subscribers : ℕ
  pub settled : Bool

-- A call of `waitForInFlightSearch`: the entry it waits on, and whether its `release` has run.
pub record Request : Type 0 where
  pub entry : ℕ
  pub released : Bool

-- The entry of the key in the map, the entries and the requests by identity, and the next
-- identities.
pub record Searches : Type 0 where
  pub in_map : Option ℕ
  pub entries : ℕ → InFlightSearch
  pub next : ℕ
  pub requests : ℕ → Request
  pub next_request : ℕ

abbrev pub new_entry : InFlightSearch
new_entry = record { aborted = false; subscribers = 0; settled = false }

abbrev pub no_searches : Searches
no_searches = record {
  in_map = none;
  entries = λ i. new_entry;
  next = 0;
  requests = λ r. record { entry = 0; released = true };
  next_request = 0;
}

abbrev pub set_entry : ℕ → InFlightSearch → Searches → Searches
set_entry i e s = record s { entries = λ k. if i == k then e else s.entries k }

abbrev pub set_request : ℕ → Request → (ℕ → Request) → ℕ → Request
set_request r q requests k = if r == k then q else requests k

-- `createInFlightSearch`, up to the start of the upstream search.
unfoldable pub create_in_flight_search : Searches → Searches
create_in_flight_search s = record (set_entry s.next new_entry s) {
  in_map = some s.next;
  next = s.next + 1;
}

-- `existing ?? createInFlightSearch(...)`, as the entry and the state.
unfoldable pub find_entry : Option ℕ → Searches → ℕ × Searches
unfolding create_in_flight_search
find_entry (some i) s = (i, s)
find_entry none s = (s.next, create_in_flight_search s)

-- `waitForInFlightSearch(entry, signal)`, up to its waiting, for a signal that is or is not
-- aborted.
unfoldable pub wait_for_in_flight_search : Bool → ℕ → Searches → Searches × Result (Unit {0})
wait_for_in_flight_search gone i s = if gone then (s, throw request_aborted_error) else (
  record (set_entry i (record (s.entries i) { subscribers = (s.entries i).subscribers + 1 }) s) {
    requests = set_request s.next_request (record { entry = i; released = false }) s.requests;
    next_request = s.next_request + 1;
  },
  ok tt,
)

-- The part of `searchArticles` after a cache miss, up to its waiting.
unfoldable pub join : Bool → Searches → Searches × Result (Unit {0})
unfolding find_entry wait_for_in_flight_search
join gone s = let (i, s') = find_entry s.in_map s in wait_for_in_flight_search gone i s'

-- The entry once one request less waits on it.
abbrev pub left_by_one : InFlightSearch → InFlightSearch
left_by_one e =
    let left = e.subscribers - 1 in
    record e { subscribers = left; aborted = e.aborted || (not e.settled && left == 0) }

-- `release()` of a request, which its abort listener and both handlers of the promise call.
unfoldable pub release : ℕ → Searches → Searches
release r s =
    if (s.requests r).released
    then s
    else (record (set_entry (s.requests r).entry (left_by_one (s.entries (s.requests r).entry)) s) {
      requests = set_request r (record (s.requests r) { released = true }) s.requests;
    })

abbrev pub is_entry : ℕ → Option ℕ → Bool
is_entry i none = false
is_entry i (some k) = i == k

-- `markInFlightSettled(cacheKey, entry)`.
unfoldable pub mark_in_flight_settled : ℕ → Searches → Searches
mark_in_flight_settled i s = record (set_entry i (record (s.entries i) { settled = true }) s) {
  in_map = if is_entry i s.in_map then none else s.in_map;
}

-- ===== src/Http/RequestId.antt =====
-- src/http/requestId.ts: request identifiers taken from clients, and paths fit for a log.
pub mod Laws
use news_api.Base.{
  ℕ, ◌-◌, Bool, false, not, ◌&&◌, ◌||◌, Option, none, some, [], ◌∷◌, ◌++◌, ltb, leb, ◌==◌,
  if◌then◌else◌, length, take, all,
}
use news_api.Js.Text.{Text, codes, trim, is_digit, is_letter}
use news_api.Errors.{HeaderValue, text}

abbrev pub max_request_id_length : ℕ
max_request_id_length = 128

abbrev pub max_log_path_length : ℕ
max_log_path_length = 512

-- `[A-Za-z0-9]`.
unfoldable pub is_alphanumeric : ℕ → Bool
unfolding is_digit is_letter
is_alphanumeric c = is_letter c || is_digit c

-- `[A-Za-z0-9._:/~-]`.
unfoldable pub is_id_char : ℕ → Bool
unfolding is_alphanumeric
is_id_char c =
    is_alphanumeric c || c == b'.' || c == b'_' || c == b':' || c == b'/' || c == b'~' || c == b'-'

-- `REQUEST_ID_PATTERN.test(s)`.
unfoldable pub matches_request_id : Text → Bool
matches_request_id [] = false
matches_request_id (c ∷ s) = is_alphanumeric c && all is_id_char s

abbrev pub check_request_id : Text → Option Text
check_request_id s =
    if ltb max_request_id_length (length s) || not (matches_request_id s) then none else some s

unfoldable pub normalize_request_id : HeaderValue → Option Text
unfolding matches_request_id trim
normalize_request_id (text value) = check_request_id (trim value)
normalize_request_id _ = none

-- `queryStart >= 0 ? value.slice(0, queryStart) : value`.
unfoldable pub before_query : Text → Text
before_query [] = []
before_query (c ∷ s) = if c == b'?' then [] else c ∷ before_query s

-- `path || "/"`.
abbrev pub or_root : Text → Text
or_root [] = codes "/"
or_root (c ∷ s) = c ∷ s

abbrev pub bound_path : Text → Text
bound_path path =
    if leb (length path) max_log_path_length
    then path
    else take (max_log_path_length - 3) path ++ codes "..."

unfoldable pub bounded_request_path : HeaderValue → Text
unfolding before_query
bounded_request_path (text value) =
    if length value == 0 then codes "/" else bound_path (or_root (before_query value))
bounded_request_path _ = codes "/"

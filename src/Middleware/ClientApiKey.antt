-- ===== src/Middleware/ClientApiKey.antt =====
-- src/middleware/clientApiKey.ts: the gate of the clients' keys. The digest of a key, SHA-256, is
-- an argument; `timingSafeEqual` of two digests is their equality.
pub mod Laws
use news_api.Errors.{HeaderValue, Result, text, ok, throw, http_error_of}
use news_api.Js.Text.{Text, trim, text_eq}
use news_api.Base.{
  ℕ, ◌+◌, Bool, false, not, Option, none, some, List, [], ◌∷◌, map, ltb, ◌==◌, if◌then◌else◌,
  length,
}

-- `raw.split(",")`: the pieces, with the piece that is being read first.
unfoldable pub split_comma : Text → Text × List Text
split_comma [] = ([], [])
split_comma (c ∷ s) =
    let (first, rest) = split_comma s in if c == b',' then ([], first ∷ rest) else (c ∷ first, rest)

abbrev pub without_empty : List Text → List Text
without_empty [] = []
without_empty (k ∷ ks) = let rest = without_empty ks in if length k == 0 then rest else k ∷ rest

-- `parseClientKeys()`, from the value of `CLIENT_API_KEYS`.
unfoldable pub parse_client_keys : Option Text → List Text
unfolding split_comma trim
parse_client_keys none = []
parse_client_keys (some value) =
    let raw = trim value in
    if length raw == 0
    then []
    else (let (first, rest) = split_comma raw in without_empty (map trim (first ∷ rest)))

module _ (digest : Text → Text) where
  -- The count of configured keys with the digest of the provided one.
  abbrev pub count_matches : Text → List Text → ℕ
  count_matches provided [] = 0
  count_matches provided (k ∷ ks) =
      (if text_eq (digest provided) (digest k) then 1 else 0) + count_matches provided ks

  -- `matchesClientKey(provided, configuredKeys)`.
  unfoldable pub matches_client_key : Text → List Text → Bool
  matches_client_key provided keys = ltb 0 (count_matches provided keys)

  abbrev pub provided_matches : HeaderValue → List Text → Bool
  provided_matches (text provided) keys = matches_client_key provided keys
  provided_matches _ keys = false

  -- `clientApiKeyGate`: `ok` calls `next()`, an error calls `next(error)`.
  unfoldable pub client_api_key_gate : Option Text → HeaderValue → Result (Unit {0})
  unfolding parse_client_keys matches_client_key
  client_api_key_gate configured provided =
      let keys = parse_client_keys configured in
      if length keys == 0
      then ok tt
      else if not (provided_matches provided keys)
      then throw (http_error_of 401 "Invalid or missing API key" "invalid_api_key" none)
      else ok tt

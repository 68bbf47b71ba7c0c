-- ===== src/Http/Responses.antt =====
-- src/http/responses.ts: the identifier of a request, and the envelope of an answer of the API.
-- The entries of `meta` are pairs of a key and a text; the digest of the data and the entries
-- that are part of the validator, SHA-256 of their JSON text in base64url, is an argument.
pub mod Laws
use news_api.Http.Conditional.{create_weak_entity_tag, matches_if_none_match}
use news_api.Http.RequestId.{normalize_request_id}
use news_api.Errors.{HeaderValue}
use news_api.Js.Text.{Text, trim, codes}
use news_api.Base.{
  ℕ, String, Option, none, some, List, [], ◌∷◌, ◌++◌, ◌==◌, str_eq, if◌then◌else◌, get_or, length,
}
use mathlib.Core.Option

abbrev pub or_normalized : Option Text → HeaderValue → Text
or_normalized (some id) header = id
or_normalized none header = get_or (normalize_request_id header) (codes "unknown")

-- `requestId(req)`, from `req.id` and the header `x-request-id`.
unfoldable pub request_id : HeaderValue → HeaderValue → Text
request_id id header = or_normalized (normalize_request_id id) header

abbrev pub Meta : Type 0
Meta = List (String × Text)

abbrev pub without_key : String → Meta → Meta
without_key key [] = []
without_key key (p ∷ ps) =
    let rest = without_key key ps in if str_eq p.0 key then rest else p ∷ rest

-- `meta.cache`, if there is one that is not blank.
abbrev pub cache_status : Meta → Option Text
cache_status [] = none
cache_status (p ∷ ps) =
    if str_eq p.0 "cache"
    then (if length (trim p.1) == 0 then none else some p.1)
    else cache_status ps

-- `{ ...meta, requestId }`; no `meta` of the program has that key itself.
abbrev pub envelope_meta : Text → Meta → Meta
envelope_meta id meta = without_key "requestId" meta ++ ("requestId", id) ∷ []

-- The entries of the validator.
abbrev pub validator_meta : Meta → Meta
validator_meta meta = without_key "requestId" (without_key "cache" meta)

pub record EnvelopeAnswer (D : Type 0) : Type 0 where
  pub status : ℕ
  pub entity_tag : Text
  pub x_cache_status : Option Text
  pub body : Option (D × Meta)

module _ {D : Type 0} (digest : D → Meta → Text) where
  -- `sendEnvelope(req, res, data, meta)`, from the request's identifier and its `if-none-match`.
  unfoldable pub send_envelope : Text → HeaderValue → D → Meta → EnvelopeAnswer D
  unfolding create_weak_entity_tag matches_if_none_match trim
  send_envelope id if_none_match data_ meta =
      let full = envelope_meta id meta in
      let tag = create_weak_entity_tag (digest data_ (validator_meta full)) in
      if matches_if_none_match if_none_match tag
      then record {
        status = 304;
        entity_tag = tag;
        x_cache_status = cache_status meta;
        body = none;
      }
      else record {
        status = 200;
        entity_tag = tag;
        x_cache_status = cache_status meta;
        body = some (data_, full);
      }

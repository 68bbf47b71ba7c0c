-- ===== src/Client/Revalidation.antt =====
-- The client against the envelopes of the same repository, src/http/responses.ts: what a client gets
-- that asks again with the validator of an answer.
use news_api.Http.Responses.Laws.{entity_tag-send_envelope, send_envelope-revalidates}
use news_api.Http.Conditional.Laws.{IsOpaque}
use news_api.Js.Text.{Text}
use news_api.Http.Conditional.{create_weak_entity_tag}
use news_api.Http.Responses.{Meta, EnvelopeAnswer, send_envelope, validator_meta}
use news_api.Base.{
  ℕ, String, ◌≡◌, refl, sym, ap, ◌∙◌, inl, inr, ◌&&◌, Option, none, some, [], ◌∷◌, ltb, leb, str_eq,
  if◌then◌else◌, Option-cases, or_else,
}
use news_api.Client.{
  Platform, resolved, Headers, NewsApiClient, request, request_headers, RequestOptions, Text,
  FetchResponse, get_conditional_json, build_url, conditional_answer, not_modified,
}
use news_api.Errors.{HeaderValue, nullish, text}
use mathlib.Core.List.{[], ◌∷◌}

-- The value of a header, as the server sees it.
abbrev pub sent_header : String → Option Headers → HeaderValue
sent_header name none = nullish
sent_header name (some []) = nullish
sent_header name (some (h ∷ hs)) =
    let rest = sent_header name (some hs) in if str_eq h.0 name then text h.1 else rest

-- The answer of `sendEnvelope`, as `fetch` gives it: no text where there is no body.
abbrev pub body_text : {D : Type 0} → (D × Meta → Text) → Option (D × Meta) → Text
body_text stringify none = []
body_text stringify (some body) = stringify body

abbrev pub envelope_response : {D : Type 0} → (D × Meta → Text) → EnvelopeAnswer D → FetchResponse
envelope_response stringify answer = record {
  status = answer.status;
  is_ok = leb 200 answer.status && ltb answer.status 300;
  etag = some answer.entity_tag;
  retry_after = none;
  text = resolved (body_text stringify answer.body);
}

sent-if_none_match :
    (client : NewsApiClient) (options : RequestOptions) (c : ℕ) (tag : Text)
    → options.if_none_match ≡ some (c ∷ tag)
    → sent_header "If-None-Match" (request_headers client options) ≡ text (c ∷ tag)
unfolding request_headers
sent-if_none_match client options c tag h =
    elim (Option-cases (or_else options.api_key client.api_key)) [
      | inl no_key ↦ rw (h, no_key)
      | inr ([], empty) ↦ rw (h, empty)
      | inr (d ∷ key, some_key) ↦ rw (h, some_key)
    ]

entity_tag-cons : (digest : Text) → (c : ℕ) × (s : Text) × (create_weak_entity_tag digest ≡ c ∷ s)
unfolding create_weak_entity_tag
entity_tag-cons digest = (_, _, refl)

sent-entity_tag :
    (client : NewsApiClient) (options : RequestOptions) (c : ℕ) (s tag : Text)
    → options.if_none_match ≡ some tag
    → tag ≡ c ∷ s
    → sent_header "If-None-Match" (request_headers client options) ≡ text tag
sent-entity_tag client options c s tag asks shape =
    sent-if_none_match client options c s (asks ∙ ap some shape) ∙ ap text (sym shape)

request_of :
    (P : Platform) (client : NewsApiClient) (path : Text) (options : RequestOptions) (url : P.Url)
    (res : FetchResponse)
    → build_url P client path options.query ≡ resolved url
    → P.fetch url (request_headers client options) ≡ resolved res
    → request P client path options ≡ resolved res
unfolding request
request_of P client path options url res built answers = rw (built, answers)

module _ {D : Type 0} (digest : D → Meta → Text) (stringify : D × Meta → Text) where
  -- A server that answers a request with `sendEnvelope`, for its `if-none-match` header.
  abbrev pub answered_by : Text → D → Meta → Option Headers → FetchResponse
  answered_by id data_ meta headers =
      envelope_response stringify
        (send_envelope digest id (sent_header "If-None-Match" headers) data_ meta)

  not_modified_of :
      (P : Platform) (res : FetchResponse)
      → res.status ≡ 304
      → conditional_answer P res ≡ resolved (not_modified res.etag)
  not_modified_of P res h = rw h

  -- A client that asks again with the entity tag of an earlier answer is told that nothing has
  -- changed, with the same tag, whatever the identifiers of the two requests, the states of the cache
  -- and the client's key are. The URL can be built, the server answers with `sendEnvelope` the same
  -- data under the same validator entries, and the digest of these is free of quotes and backslashes.
  pub get_conditional_json-send_envelope :
      (P : Platform) (client : NewsApiClient) (path : Text) (options : RequestOptions) (url : P.Url)
      (id id' : Text) (if_none_match : HeaderValue) (data_ : D) (meta meta' : Meta)
      → build_url P client path options.query ≡ resolved url
      → ((headers : Option Headers)
          → P.fetch url headers ≡ resolved (answered_by id' data_ meta' headers))
      → options.if_none_match ≡ some (send_envelope digest id if_none_match data_ meta).entity_tag
      → IsOpaque (digest data_ (validator_meta meta))
      → validator_meta meta ≡ validator_meta meta'
      → get_conditional_json P client path options
        ≡ resolved
            (not_modified (some (send_envelope digest id if_none_match data_ meta).entity_tag))
  unfolding get_conditional_json
  get_conditional_json-send_envelope P client path options url id id' if_none_match data_ meta meta'
        built answers asks opaque same =
      let first = entity_tag-send_envelope digest id if_none_match data_ meta in
      let (c, s, shape) = entity_tag-cons (digest data_ (validator_meta meta)) in
      let sent = sent-entity_tag client options c s _ asks (first ∙ shape) in
      let again =
        entity_tag-send_envelope digest id'
          (sent_header "If-None-Match" (request_headers client options)) data_ meta' in
      rw (
        request_of P client path options url _ built (answers (request_headers client options)),
        not_modified_of P (answered_by id' data_ meta' (request_headers client options)) (
            rw sent
              (send_envelope-revalidates digest id id' if_none_match data_ meta meta' opaque same)),
        again,
        first,
        same,
      )

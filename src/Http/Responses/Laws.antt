-- ===== src/Http/Responses/Laws.antt =====
-- Revalidation: which answers a client may keep.
-- The validator's entries do not depend on the identifier, nor on the state of the cache.
use news_api.Http.Conditional.{create_weak_entity_tag, matches_if_none_match}
use mathlib.Core.List.{append-nil}
use news_api.Http.Conditional.Laws.{IsOpaque, matches_own_tag}
use news_api.Errors.{HeaderValue, text}
use news_api.Js.Text.{Text}
use news_api.Http.Responses.{
  Meta, send_envelope, validator_meta, without_key, HeaderValue, envelope_meta,
  create_weak_entity_tag, matches_if_none_match,
}
use news_api.Base.{String, ◌≡◌, refl, ap, ◌∙◌, inl, inr, true, [], ◌∷◌, ◌++◌, arith, Bool-cases}

without_key-append :
    (key : String) (l m : Meta) → without_key key (l ++ m) ≡ without_key key l ++ without_key key m
without_key-append key [] m = refl
without_key-append key (p ∷ l) m = ground (arith, without_key-append key l m)

without_key_twice :
    (key : String) (l : Meta) → without_key key (without_key key l) ≡ without_key key l
without_key_twice key [] = refl
without_key_twice key (p ∷ l) = ground (arith, without_key_twice key l)

without_key_comm :
    (a b : String) (l : Meta) → without_key a (without_key b l) ≡ without_key b (without_key a l)
without_key_comm a b [] = refl
without_key_comm a b (p ∷ l) = ground (arith, without_key_comm a b l)

validator_meta-envelope :
    (id : Text) (meta : Meta) → validator_meta (envelope_meta id meta) ≡ validator_meta meta
validator_meta-envelope id meta =
    let cleaned : Meta = without_key "requestId" meta in
    ap (without_key "requestId") (without_key-append "cache" cleaned (("requestId", id) ∷ []))
    ∙ without_key-append "requestId" (without_key "cache" cleaned) (("requestId", id) ∷ [])
    ∙ append-nil (without_key "requestId" (without_key "cache" cleaned))
    ∙ ap (without_key "requestId") (without_key_comm "cache" "requestId" meta)
    ∙ without_key_twice "requestId" (without_key "cache" meta)

module _ {D : Type 0} (digest : D → Meta → Text) where
  pub entity_tag-send_envelope :
      (id : Text) (if_none_match : HeaderValue) (data_ : D) (meta : Meta)
      → (send_envelope digest id if_none_match data_ meta).entity_tag
        ≡ create_weak_entity_tag (digest data_ (validator_meta meta))
  unfolding send_envelope
  entity_tag-send_envelope id if_none_match data_ meta =
      let tag = create_weak_entity_tag (digest data_ (validator_meta (envelope_meta id meta))) in
      let same =
        ap (λ m. create_weak_entity_tag (digest data_ m)) (validator_meta-envelope id meta) in
      elim (Bool-cases (matches_if_none_match if_none_match tag)) [
        | inl known ↦ rw known same
        | inr fresh ↦ rw fresh same
      ]

  status_of_match :
      (id : Text) (if_none_match : HeaderValue) (data_ : D) (meta : Meta)
      → matches_if_none_match if_none_match
          (create_weak_entity_tag (digest data_ (validator_meta (envelope_meta id meta))))
        ≡ true
      → (send_envelope digest id if_none_match data_ meta).status ≡ 304
  unfolding send_envelope
  status_of_match id if_none_match data_ meta known = rw known

  -- If the digest holds no quote and no backslash, a client that sends back the tag of an answer
  -- gets 304 for the same data and validator entries, whatever the identifiers of the two
  -- requests are and whatever the cache did for each of them.
  pub send_envelope-revalidates :
      (id id' : Text) (if_none_match : HeaderValue) (data_ : D) (meta meta' : Meta)
      → IsOpaque (digest data_ (validator_meta meta))
      → validator_meta meta ≡ validator_meta meta'
      → (send_envelope digest id'
          (text (send_envelope digest id if_none_match data_ meta).entity_tag)
          data_
          meta').status
        ≡ 304
  send_envelope-revalidates id id' if_none_match data_ meta meta' opaque same =
      status_of_match id' _ data_ meta' (
        rw
          (
            validator_meta-envelope id' meta',
            entity_tag-send_envelope id if_none_match data_ meta,
            ← same,
          )
          (matches_own_tag (digest data_ (validator_meta meta)) opaque))

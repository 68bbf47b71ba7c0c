-- ===== src/Middleware/ClientApiKey/Laws.antt =====
-- Who passes the gate of the clients' keys.
use news_api.Errors.{text, ok, throw, http_error_of, HeaderValue, texts, nullish, other}
use news_api.Middleware.ClientApiKey.{
  client_api_key_gate, count_matches, matches_client_key, text, parse_client_keys, provided_matches,
}
use news_api.Js.Text.{Text, text_eq, text_eq_sound, text_eq_refl}
use news_api.Base.{
  ◌≡◌, sym, ◌∙◌, inl, inr, ◌||◌, Option, none, List, [], ◌∷◌, arith, ltb, ◌==◌, if◌then◌else◌,
  Bool-cases, length, any, Bool, false, refl,
}

module _ (digest : Text → Text) where
  -- The digests tell the provided key from every other one.
  abbrev pub HasNoCollision : Text → Type 0
  HasNoCollision provided = (k : Text) → digest provided ≡ digest k → provided ≡ k

  abbrev pub HasOwnDigest : HeaderValue → Type 0
  HasOwnDigest (text provided) = HasNoCollision provided
  HasOwnDigest _ = Unit {0}

  -- The header is one text, and that is one of the keys.
  abbrev pub is_key_of : HeaderValue → List Text → Bool
  is_key_of (text provided) keys = any (text_eq provided) keys
  is_key_of _ keys = false

  same_digest :
      (provided k : Text)
      → HasNoCollision provided
      → text_eq (digest provided) (digest k) ≡ text_eq provided k
  same_digest provided k h = elim (Bool-cases (text_eq (digest provided) (digest k))) [
    | inl same ↦
        let e : provided ≡ k = h k (text_eq_sound (digest provided) (digest k) same) in
        same ∙ rw e (sym (text_eq_refl k))
    | inr other_ ↦ elim (Bool-cases (text_eq provided k)) [
      | inl e ↦ absurd (ground (arith, text_eq_sound provided k e, text_eq_refl (digest k), other_))
      | inr e ↦ other_ ∙ sym e
    ]
  ]

  count_matches-any :
      (provided : Text) (keys : List Text)
      → HasNoCollision provided
      → ltb 0 (count_matches digest provided keys) ≡ any (text_eq provided) keys
  count_matches-any provided [] h = ground arith
  count_matches-any provided (k ∷ keys) h =
      ground (arith, count_matches-any provided keys h, same_digest provided k h)

  provided_matches-is_key_of :
      (provided : HeaderValue) (keys : List Text)
      → HasOwnDigest provided
      → provided_matches digest provided keys ≡ is_key_of provided keys
  unfolding matches_client_key
  provided_matches-is_key_of (text provided) keys h = count_matches-any provided keys h
  provided_matches-is_key_of nullish keys h = refl
  provided_matches-is_key_of (texts l) keys h = refl
  provided_matches-is_key_of other keys h = refl

  -- If no other key has the digest of the one that the request provides, if any, a request passes
  -- exactly if no key is configured or its header is one text, one of those configured; any other
  -- request, one without a key among them, is answered with 401.
  pub client_api_key_gate-keys :
      (configured : Option Text) (provided : HeaderValue)
      → HasOwnDigest provided
      → client_api_key_gate digest configured provided ≡ (
          if length (parse_client_keys configured) == 0
            || is_key_of provided (parse_client_keys configured)
          then ok tt
          else throw (http_error_of 401 "Invalid or missing API key" "invalid_api_key" none))
  unfolding client_api_key_gate
  client_api_key_gate-keys configured provided h =
      let same = provided_matches-is_key_of provided (parse_client_keys configured) h in
      elim (Bool-cases (length (parse_client_keys configured) == 0)) [
        | inl none_configured ↦ rw none_configured
        | inr some_configured ↦
            elim (Bool-cases (is_key_of provided (parse_client_keys configured))) [
              | inl known ↦ rw (some_configured, same, known)
              | inr unknown ↦ rw (some_configured, same, unknown)
            ]
      ]

-- ===== src/Client/Laws.antt =====
-- What a call of the client gives for each answer, and how its two forms of call agree.
use news_api.Js.Text.{Text}
use news_api.Types.Article.{Json, property}
use news_api.Base.{
  if◌then◌else◌, ◌≡◌, refl, ◌≢◌, true, false, Option, none, some, [], arith, and-split, is_some,
  get_or, Bool-cases, Option-cases, inl, inr, ℕ, ◌==◌,
}
use news_api.Client.{
  resolved, rejected, syntax_error, client_error, request_failed, Platform, FetchResponse, Json,
  is_error, Text, member, null, Outcome, property, parse_text, NewsApiClient, is_error_envelope,
  throw_for_error, ◌>>=◌, RequestOptions, get_conditional_json, get_json, read_json, request,
  client_error_of, not_modified, modified,
}
use mathlib.Core.List.{[], ◌∷◌}

-- The members of an error envelope.
pub record HasError (body : Option Json) (code message request_id : Json) : Type 0 where
  pub code_member : member "code" (member "error" body) ≡ some code
  pub message_member : member "message" (member "error" body) ≡ some message
  pub id_member : member "requestId" (member "error" body) ≡ some request_id

-- What a call may give for the answer's text and body.
pub data IsAnswer (P : Platform) (res : FetchResponse) (text : Text)
    : Outcome (Option Json) → Type 0 where
  returned :
      (body : Option Json)
      → res.is_ok ≡ true
      → parse_text P text ≡ resolved body
      → IsAnswer P res text (resolved body)
  reported :
      (body : Option Json) (code message request_id : Json)
      → res.is_ok ≡ false
      → parse_text P text ≡ resolved body
      → HasError body code message request_id
      → IsAnswer P res text
          (rejected (client_error res.status code message request_id res.retry_after))
  unreported :
      (body : Option Json)
      → res.is_ok ≡ false
      → parse_text P text ≡ resolved body
      → ((code message request_id : Json) → ¬ HasError body code message request_id)
      → IsAnswer P res text (rejected (request_failed res.status))
  unreadable : P.parse text ≡ none → text ≢ [] → IsAnswer P res text (rejected syntax_error)

some_of_is_some : (o : Option Json) → is_some o ≡ true → o ≡ some (get_or o null)
some_of_is_some none h = absurd (ground arith)
some_of_is_some (some v) h = refl

is_error_sound :
    (v : Json) (body : Option Json)
    → member "error" body ≡ some v
    → is_error v ≡ true
    → HasError body
        (get_or (property "code" v) null)
        (get_or (property "message" v) null)
        (get_or (property "requestId" v) null)
unfolding is_error
is_error_sound v body h good =
    let (h₁, c) = and-split _ (is_some (property "requestId" v)) good in
    let (a, b) = and-split _ (is_some (property "message" v)) h₁ in
    record {
      code_member = rw h (some_of_is_some _ a);
      message_member = rw h (some_of_is_some _ b);
      id_member = rw h (some_of_is_some _ c);
    }

is_error_complete :
    (v : Json) (body : Option Json) (code message request_id : Json)
    → member "error" body ≡ some v
    → HasError body code message request_id
    → is_error v ≡ true
unfolding is_error
is_error_complete v body code message request_id h e =
    let a : property "code" v ≡ some code = rw h at e.code_member in
    let b : property "message" v ≡ some message = rw h at e.message_member in
    let c : property "requestId" v ≡ some request_id = rw h at e.id_member in rw (a, b, c)

-- What the guard makes of an answer with an error's status.
envelope_member :
    (v : Json) (body : Option Json)
    → member "error" body ≡ some v
    → is_error_envelope body ≡ is_error v
unfolding is_error_envelope
envelope_member v none h = absurd (ground arith)
envelope_member v (some b) h = rw h

no_envelope_member :
    (body : Option Json) → member "error" body ≡ none → is_error_envelope body ≡ false
unfolding is_error_envelope
no_envelope_member none h = refl
no_envelope_member (some b) h = rw h

-- The three ways of the guard.
throw_for_error_success :
    (res : FetchResponse) (body : Option Json)
    → res.is_ok ≡ true
    → throw_for_error res body ≡ resolved tt
unfolding throw_for_error
throw_for_error_success res body good = rw good

throw_for_error_reported :
    (res : FetchResponse) (body : Option Json)
    → res.is_ok ≡ false
    → is_error_envelope body ≡ true
    → throw_for_error res body
      ≡ rejected (client_error_of res.status (member "error" body) res.retry_after)
unfolding throw_for_error
throw_for_error_reported res body bad error = rw (bad, error)

throw_for_error_unreported :
    (res : FetchResponse) (body : Option Json)
    → res.is_ok ≡ false
    → is_error_envelope body ≡ false
    → throw_for_error res body ≡ rejected (request_failed res.status)
unfolding throw_for_error
throw_for_error_unreported res body bad other = rw (bad, other)

module _ (P : Platform) (res : FetchResponse) (text : Text) where
  failed-IsAnswer :
      (body : Option Json)
      → res.is_ok ≡ false
      → parse_text P text ≡ resolved body
      → IsAnswer P res text (throw_for_error res body >>= λ _. resolved body)
  failed-IsAnswer body bad parsed = elim (Option-cases (member "error" body)) [
    | inl missing ↦
        rw (throw_for_error_unreported res body bad (no_envelope_member body missing))
          (unreported body bad parsed (λ c m i e. ground (arith, e.code_member, missing)))
    | inr (v, found) ↦ elim (Bool-cases (is_error v)) [
      | inl good ↦
          rw (throw_for_error_reported res body bad (rw (envelope_member v body found) good), found)
            (reported body _ _ _ bad parsed (is_error_sound v body found good))
      | inr other ↦
          rw (throw_for_error_unreported res body bad (rw (envelope_member v body found) other)) (
            unreported body bad parsed
              (λ c m i e. ground (arith, is_error_complete v body c m i found e)))
    ]
  ]

  body-IsAnswer :
      (body : Option Json)
      → parse_text P text ≡ resolved body
      → IsAnswer P res text (throw_for_error res body >>= λ _. resolved body)
  body-IsAnswer body parsed = elim (Bool-cases res.is_ok) [
    | inl good ↦ rw (throw_for_error_success res body good) (returned body good parsed)
    | inr bad ↦ failed-IsAnswer body bad parsed
  ]

pub parse_text_of :
    (P : Platform) (c : ℕ) (s : Text) (v : Json)
    → P.parse (c ∷ s) ≡ some v
    → parse_text P (c ∷ s) ≡ resolved (some v)
parse_text_of P c s v h = rw (parse_text, h)

pub read_json_of :
    (P : Platform) (res : FetchResponse) (text : Text)
    → res.text ≡ resolved text
    → read_json P res ≡ parse_text P text
unfolding read_json
read_json_of P res text read = rw read

parsed-IsAnswer :
    (P : Platform) (res : FetchResponse) (text : Text)
    → IsAnswer P res text
        (parse_text P text >>= λ body. throw_for_error res body >>= λ _. resolved body)
parsed-IsAnswer P res [] = body-IsAnswer P res [] none refl
parsed-IsAnswer P res (c ∷ s) = elim (Option-cases (P.parse (c ∷ s))) [
  | inl bad ↦ rw (parse_text, bad) (unreadable bad (λ e. cc e))
  | inr (v, good) ↦
      rw (parse_text_of P c s v good)
        (body-IsAnswer P res (c ∷ s) (some v) (parse_text_of P c s v good))
]

module _ (P : Platform) (client : NewsApiClient) (path : Text) (options : RequestOptions) where
  -- When the request is answered and the text of the answer can be read, a call gives the parsed body
  -- of a successful answer; of any other it reports status, `retry-after` and the error's members if
  -- the body has them, and the status alone if it has not; and a text that is no JSON is a syntax
  -- error whatever the status.
  pub get_json-IsAnswer :
      (res : FetchResponse) (text : Text)
      → request P client path options ≡ resolved res
      → res.text ≡ resolved text
      → IsAnswer P res text (get_json P client path options)
  unfolding get_json
  get_json-IsAnswer res text sent read =
      rw (sent, read_json_of P res text read) (parsed-IsAnswer P res text)

  -- A conditional call gives what the plain call gives, with the entity tag, unless the answer is 304:
  -- then it gives the tag alone, and its text is not read.
  pub get_conditional_json-get_json :
      (res : FetchResponse)
      → request P client path options ≡ resolved res
      → get_conditional_json P client path options ≡ (
          if res.status == 304
          then resolved (not_modified res.etag)
          else (get_json P client path options >>= λ body. resolved (modified res.etag body)))
  unfolding get_conditional_json get_json
  get_conditional_json-get_json res sent = rw sent

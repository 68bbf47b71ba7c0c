-- ===== src/Http/RequestId/Laws.antt =====
-- What request identifiers and logged paths can hold.
use news_api.Base.{
  ℕ, zero, suc, ◌≤◌, ◌<◌, ◌≡◌, refl, ◌≢◌, Bool, true, false, some, [], ◌∷◌, arith, leb, ◌==◌,
  length, take, all, All, All-append, length-append, length-take-le, Bool-cases, inl, inr,
}
use news_api.Js.Text.{Text, codes, trim, trim_start, trim_end, is_space}
use news_api.Errors.{HeaderValue, nullish, text, texts, other}
use news_api.Http.RequestId.{
  max_request_id_length, max_log_path_length, is_alphanumeric, is_id_char, matches_request_id,
  check_request_id, normalize_request_id, before_query, or_root, bound_path, bounded_request_path,
}

-- A request identifier is not empty, at most 128 characters long, and holds only letters, digits
-- and `._:/~-`; so it holds no white space, no control character and no quote.
pub record IsRequestId (s : Text) : Type 0 where
  pub not_empty : 0 < length s
  pub bounded : length s ≤ max_request_id_length
  pub plain : All (λ c. is_id_char c ≡ true) s

All-of_all : (p : ℕ → Bool) (s : Text) → all p s ≡ true → All (λ c. p c ≡ true) s
All-of_all p [] h = tt
All-of_all p (c ∷ s) h = (ground arith, All-of_all p s (ground arith))

id_char_of_alphanumeric : (c : ℕ) → is_alphanumeric c ≡ true → is_id_char c ≡ true
unfolding is_id_char
id_char_of_alphanumeric c h = ground arith

check-IsRequestId : (s r : Text) → check_request_id s ≡ some r → (s ≡ r) × IsRequestId s
unfolding matches_request_id
check-IsRequestId [] r h = ground arith
check-IsRequestId (c ∷ s) r h =
    let first : is_alphanumeric c ≡ true = ground arith in
    let rest : all is_id_char s ≡ true = ground arith in
    let short : length (c ∷ s) ≤ max_request_id_length = ground arith in
    (
      ground arith,
      record {
        not_empty = omega arith;
        bounded = short;
        plain = (id_char_of_alphanumeric c first, All-of_all is_id_char s rest);
      },
    )

-- Whatever a client sends, an identifier that is accepted is well formed.
pub normalize_request_id-IsRequestId :
    (value : HeaderValue) (r : Text) → normalize_request_id value ≡ some r → IsRequestId r
unfolding normalize_request_id
normalize_request_id-IsRequestId (text value) r h =
    let (same, good) = check-IsRequestId (trim value) r h in rw same at good
normalize_request_id-IsRequestId nullish r h = ground arith
normalize_request_id-IsRequestId (texts vs) r h = ground arith
normalize_request_id-IsRequestId other r h = ground arith

not-space_of_id_char : (c : ℕ) → is_id_char c ≡ true → is_space c ≡ false
unfolding is_id_char is_space
not-space_of_id_char c h = ground arith

trim_end_of_plain : (s : Text) → All (λ c. is_id_char c ≡ true) s → trim_end s ≡ s
unfolding trim_end
trim_end_of_plain [] h = refl
trim_end_of_plain (c ∷ []) h = rw (not-space_of_id_char c h.0)
trim_end_of_plain (c ∷ d ∷ s) h = rw (trim_end_of_plain (d ∷ s) h.1)

trim_of_plain : (s : Text) → All (λ c. is_id_char c ≡ true) s → trim s ≡ s
unfolding trim trim_start
trim_of_plain [] h = refl
trim_of_plain (c ∷ s) h = rw (not-space_of_id_char c h.0) (trim_end_of_plain (c ∷ s) h)

-- An accepted identifier is accepted again unchanged.
pub normalize_request_id_idempotent :
    (value : HeaderValue) (r : Text)
    → normalize_request_id value ≡ some r
    → normalize_request_id (text r) ≡ some r
unfolding normalize_request_id
normalize_request_id_idempotent (text value) r h =
    let (same, good) = check-IsRequestId (trim value) r h in
    let plain : All (λ c. is_id_char c ≡ true) r = rw same at good.plain in
    rw (trim_of_plain r plain) (rw same at h)
normalize_request_id_idempotent nullish r h = ground arith
normalize_request_id_idempotent (texts vs) r h = ground arith
normalize_request_id_idempotent other r h = ground arith

abbrev pub HasNoQuery : Text → Type 0
HasNoQuery s = All (λ c. c ≢ b'?') s

before_query-HasNoQuery : (s : Text) → HasNoQuery (before_query s)
unfolding before_query
before_query-HasNoQuery [] = tt
before_query-HasNoQuery (c ∷ s) = elim (Bool-cases (c == b'?')) [
  | inl q ↦ rw q tt
  | inr p ↦ rw p (ground arith, before_query-HasNoQuery s)
]

or_root-HasNoQuery : (s : Text) → HasNoQuery s → HasNoQuery (or_root s) × (0 < length (or_root s))
or_root-HasNoQuery [] h = ((ground arith, tt), omega arith)
or_root-HasNoQuery (c ∷ s) h = (h, omega arith)

take-HasNoQuery : (n : ℕ) (s : Text) → HasNoQuery s → HasNoQuery (take n s)
take-HasNoQuery zero s h = tt
take-HasNoQuery (suc n) [] h = tt
take-HasNoQuery (suc n) (c ∷ s) h = (h.0, take-HasNoQuery n s h.1)

-- A path fit for a log: never empty, at most 512 characters, and without the query string.
pub record IsLoggedPath (s : Text) : Type 0 where
  pub not_empty : 0 < length s
  pub bounded : length s ≤ max_log_path_length
  pub no_query : HasNoQuery s

root-IsLoggedPath : IsLoggedPath (codes "/")
root-IsLoggedPath = record {
  not_empty = omega arith;
  bounded = omega arith;
  no_query = (ground arith, tt);
}

bound_path-IsLoggedPath : (s : Text) → 0 < length s → HasNoQuery s → IsLoggedPath (bound_path s)
bound_path-IsLoggedPath s pos h = elim (Bool-cases (leb (length s) max_log_path_length)) [
  | inl short ↦ rw short (record { not_empty = pos; bounded = ground arith; no_query = h })
  | inr long ↦
      let n = length-append (take 509 s) (codes "...") in
      rw long (record {
        not_empty = omega (arith, n);
        bounded = omega (arith, n, length-take-le 509 s);
        no_query = All-append _ (take 509 s) (codes "...") (take-HasNoQuery 509 s h) (omega arith);
      })
]

-- Every path that is logged is bounded and carries no query string.
pub bounded_request_path-IsLoggedPath :
    (value : HeaderValue) → IsLoggedPath (bounded_request_path value)
unfolding bounded_request_path
bounded_request_path-IsLoggedPath nullish = root-IsLoggedPath
bounded_request_path-IsLoggedPath (texts vs) = root-IsLoggedPath
bounded_request_path-IsLoggedPath other = root-IsLoggedPath
bounded_request_path-IsLoggedPath (text s) = elim (Bool-cases (length s == 0)) [
  | inl empty ↦ rw empty root-IsLoggedPath
  | inr full ↦
      let (clean, pos) = or_root-HasNoQuery (before_query s) (before_query-HasNoQuery s) in
      rw full (bound_path-IsLoggedPath _ pos clean)
]

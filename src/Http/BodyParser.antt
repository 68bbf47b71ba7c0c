-- ===== src/Http/BodyParser.antt =====
-- src/http/bodyParser.ts: the answers to a request body that could not be read. The table is a
-- plain object, so a type that names a member of `Object.prototype` finds that member.
use news_api.Base.{
  ℕ, ◌≤◌, ◌<◌, String, ◌≡◌, ◌≢◌, inl, inr, Bool, true, false, none, some, List, [], ◌∷◌, arith,
  eq_iff, str_eq, if◌then◌else◌, Bool-cases, Option-cases, any, All,
}
use news_api.Errors.{no_error, error, ErrorObject, Thrown, error}

pub record BodyParserErrorContract : Type 0 where
  pub kind : String
  pub status_code : ℕ
  pub code : String
  pub message : String

-- What indexing the table gives: nothing, an entry, or an inherited member, which has no fields of
-- an entry.
pub data TableEntry : Type 0 where
  missing : TableEntry
  own : BodyParserErrorContract → TableEntry
  inherited : TableEntry

abbrev pub contract : String → ℕ → String → String → BodyParserErrorContract
contract kind status code message = record {
  kind = kind;
  status_code = status;
  code = code;
  message = message;
}

-- `BODY_PARSER_ERROR_CONTRACTS`.
abbrev pub body_parser_error_contracts : List BodyParserErrorContract
body_parser_error_contracts =
    contract "entity.too.large" 413 "request_body_too_large" "Request body too large"
    ∷ contract "entity.parse.failed" 400 "invalid_json_body" "Invalid JSON request body"
    ∷ contract "request.aborted" 400 "request_body_aborted" "Request body was aborted"
    ∷ contract "request.size.invalid" 400 "invalid_request_size" "Invalid request body size"
    ∷ contract "encoding.unsupported" 415 "unsupported_content_encoding"
        "Unsupported request content encoding"
    ∷ contract "charset.unsupported" 415 "unsupported_charset" "Unsupported request charset"
    ∷ contract "entity.verify.failed" 403 "request_body_rejected" "Request body rejected"
    ∷ contract "parameters.too.many" 413 "too_many_parameters" "Too many request parameters"
    ∷ []

-- The names that every plain object inherits.
abbrev pub prototype_members : List String
prototype_members =
    "constructor" ∷ "toString" ∷ "valueOf" ∷ "hasOwnProperty" ∷ "isPrototypeOf"
    ∷ "propertyIsEnumerable" ∷ "toLocaleString" ∷ "__proto__" ∷ "__defineGetter__"
    ∷ "__defineSetter__" ∷ "__lookupGetter__" ∷ "__lookupSetter__" ∷ []

-- What a type that is no key of the table finds.
abbrev pub from_prototype : Bool → TableEntry
from_prototype true = inherited
from_prototype false = missing

abbrev pub find_contract : List BodyParserErrorContract → String → TableEntry
find_contract [] kind = from_prototype (any (str_eq kind) prototype_members)
find_contract (c ∷ cs) kind = if str_eq c.kind kind then own c else find_contract cs kind

unfoldable pub get_body_parser_error_contract : Thrown → TableEntry
get_body_parser_error_contract no_error = missing
get_body_parser_error_contract (error e) = elim e.body_type [
  | none ↦ missing
  | some kind ↦ find_contract body_parser_error_contracts kind
]

from_prototype-ne-own : (b : Bool) {c : BodyParserErrorContract} → from_prototype b ≢ own c
from_prototype-ne-own true = cc
from_prototype-ne-own false = cc

-- Every entry that is found answers with a client error under the type that was asked for.
find_contract_sound :
    (cs : List BodyParserErrorContract) (kind : String) (c : BodyParserErrorContract)
    → All (λ d. (400 ≤ d.status_code) × (d.status_code < 500)) cs
    → find_contract cs kind ≡ own c
    → (c.kind ≡ kind) × (400 ≤ c.status_code) × (c.status_code < 500)
find_contract_sound [] kind c h e = absurd (from_prototype-ne-own _ e)
find_contract_sound (d ∷ cs) kind c h e = elim (Bool-cases (str_eq d.kind kind)) [
  | inl same ↦
      let e' : own d ≡ own c = rw same at e in let t : d ≡ c = cc in rw t at (found d kind same h.0)
  | inr other ↦ find_contract_sound cs kind c h.1 (rw other at e)
]
  where
    found :
        (d : BodyParserErrorContract) (kind : String)
        → str_eq d.kind kind ≡ true
        → (400 ≤ d.status_code) × (d.status_code < 500)
        → (d.kind ≡ kind) × (400 ≤ d.status_code) × (d.status_code < 500)
    found d kind s b = ((eq_iff d.kind kind).0 s, b.0, b.1)

-- A contract for an error has the error's own type, and a status from 400 to 499.
pub body_parser_contract_sound :
    (e : ErrorObject) (c : BodyParserErrorContract)
    → get_body_parser_error_contract (error e) ≡ own c
    → (e.body_type ≡ some c.kind) × (400 ≤ c.status_code) × (c.status_code < 500)
unfolding get_body_parser_error_contract
body_parser_contract_sound e c h = elim (Option-cases e.body_type) [
  | inl untyped ↦ absurd (ground arith)
  | inr (kind, is) ↦
      let (same, lo, hi) =
        find_contract_sound body_parser_error_contracts kind c (omega arith) (rw is at h) in
      (rw (is, same), lo, hi)
]

-- ===== src/Http/Conditional.antt =====
-- src/http/conditional.ts: weak entity tags and `If-None-Match`. The SHA-256 digest of the JSON
-- text of a representation, in base64url, is an argument.
pub mod Laws
use mathlib.Core.Option
use news_api.Base.{
  ℕ, zero, suc, Bool, false, not, ◌&&◌, ◌||◌, Option, none, some, List, [], ◌∷◌, ◌++◌, ◌==◌,
  if◌then◌else◌, length, any,
}
use news_api.Errors.{HeaderValue, text, texts}
use news_api.Js.Text.{Text, is_space, text_eq, codes}

abbrev pub quote : ℕ
quote = 34

abbrev pub backslash : ℕ
backslash = 92

-- ``W/"sha256-${digest}"``.
unfoldable pub create_weak_entity_tag : Text → Text
create_weak_entity_tag digest = b'W' ∷ b'/' ∷ quote ∷ (codes "sha256-" ++ (digest ++ quote ∷ []))

-- The loop over separators: commas and white space.
unfoldable pub skip_separators : Text → Text
unfolding is_space
skip_separators [] = []
skip_separators (c ∷ s) = if c == b',' || is_space c then skip_separators s else c ∷ s

-- The loops up to the next comma.
unfoldable pub skip_to_comma : Text → Text
skip_to_comma [] = []
skip_to_comma (c ∷ s) = if c == b',' then c ∷ s else skip_to_comma s

-- The loop inside quotes: the text up to and with the closing quote, and what follows it. A
-- backslash takes the next character with it: `escaped` says that one stood before. `none`: the
-- quotes are not closed.
unfoldable pub scan_quoted : (escaped : Bool) → Text → Option (Text × Text)
scan_quoted escaped [] = none
scan_quoted escaped (c ∷ s) =
    let rest = scan_quoted (not escaped && c == backslash) s in
    if not escaped && c == quote
    then some (c ∷ [], s)
    else Option.map (λ (p : Text × Text). (c ∷ p.0, p.1)) rest

-- The optional `W/`, and what follows it.
unfoldable pub split_weak : Text → Text × Text
split_weak (c ∷ d ∷ s) = if c == b'W' && d == b'/' then (c ∷ d ∷ [], s) else ([], c ∷ d ∷ s)
split_weak s = ([], s)

-- The round from a tag's start, after the optional `W/`, and the round's way on.
abbrev pub tag_round : (Text → List Text) → Text → Text → List Text
tag_round next prefix [] = next []
tag_round next prefix (c ∷ s) =
    if c == quote
    then elim (scan_quoted false s) [
      | none ↦ []
      | some (body, rest) ↦ (prefix ++ c ∷ body) ∷ next (skip_to_comma rest)
    ]
    else next (skip_to_comma (c ∷ s))

-- The outer loop, on the text from `index` on. Each round takes at least one character, so the
-- length of the header is fuel enough.
unfoldable pub parse_from : ℕ → Text → List Text
unfolding skip_separators skip_to_comma scan_quoted split_weak
parse_from zero s = []
parse_from (suc f) s = elim (skip_separators s) [
  | [] ↦ []
  | c ∷ r ↦
      if c == b'*'
      then (c ∷ []) ∷ parse_from f r
      else (let (prefix, t) = split_weak (c ∷ r) in tag_round (parse_from f) prefix t)
]

unfoldable pub parse_entity_tags : Text → List Text
unfolding parse_from
parse_entity_tags header = parse_from (suc (length header)) header

-- `withoutWeakPrefix`.
unfoldable pub without_weak_prefix : Text → Text
without_weak_prefix (c ∷ d ∷ s) = if c == b'W' && d == b'/' then s else c ∷ d ∷ s
without_weak_prefix s = s

-- `header.join(",")`.
unfoldable pub join_comma : List Text → Text
join_comma [] = []
join_comma (s ∷ []) = s
join_comma (s ∷ t ∷ ts) = s ++ b',' ∷ join_comma (t ∷ ts)

abbrev pub tag_matches : Text → Text → Bool
tag_matches current candidate =
    text_eq candidate (codes "*")
    || text_eq (without_weak_prefix candidate) (without_weak_prefix current)

unfoldable pub matches_if_none_match : HeaderValue → Text → Bool
unfolding parse_entity_tags join_comma without_weak_prefix text_eq
matches_if_none_match (text value) current =
    not (length value == 0) && any (tag_matches current) (parse_entity_tags value)
matches_if_none_match (texts values) current =
    any (tag_matches current) (parse_entity_tags (join_comma values))
matches_if_none_match _ current = false

-- ===== src/Http/Conditional/Laws.antt =====
-- Reading entity tags back, and the fuel of the parser.
use news_api.Errors.{text}
use mathlib.Core.List.{append_assoc, append-nil}
use news_api.Http.Conditional.{
  parse_from, scan_quoted, quote, skip_to_comma, backslash, join_comma, split_weak,
  parse_entity_tags, text_eq, codes, create_weak_entity_tag, matches_if_none_match, tag_matches,
  without_weak_prefix, text,
}
use news_api.Js.Text.{Text, text_eq, codes, text_eq_refl}
use news_api.Base.{
  ℕ, zero, suc, ◌≤◌, ◌<◌, ◌≡◌, refl, sym, ap, ◌∙◌, ◌≢◌, Bool, true, false, ◌||◌, some, List, [],
  ◌∷◌, ◌++◌, map, arith, ◌==◌, length, any, length-append, All, All-append,
}

-- The characters between the quotes of a tag: no quote and no backslash.
abbrev pub IsOpaque : Text → Type 0
IsOpaque s = All (λ c. (c ≢ quote) × (c ≢ backslash)) s

-- An entity tag, weak or strong.
abbrev pub entity_tag : Bool → Text → Text
entity_tag true body = b'W' ∷ b'/' ∷ quote ∷ (body ++ quote ∷ [])
entity_tag false body = quote ∷ (body ++ quote ∷ [])

scan_quoted-IsOpaque :
    (body rest : Text)
    → IsOpaque body
    → scan_quoted false (body ++ quote ∷ rest) ≡ some (body ++ quote ∷ [], rest)
unfolding scan_quoted
scan_quoted-IsOpaque [] rest h = refl
scan_quoted-IsOpaque (c ∷ body) rest h =
    let q : (c == quote) ≡ false = ground arith in
    let b : (c == backslash) ≡ false = ground arith in rw (q, b, scan_quoted-IsOpaque body rest h.1)

split_weak-quote : (s : Text) → split_weak (quote ∷ s) ≡ ([], quote ∷ s)
unfolding split_weak
split_weak-quote [] = refl
split_weak-quote (d ∷ s) = refl

parse_from-entity_tag :
    (f : ℕ) (weak : Bool) (body rest : Text)
    → IsOpaque body
    → parse_from (suc f) (entity_tag weak body ++ rest)
      ≡ entity_tag weak body ∷ parse_from f (skip_to_comma rest)
unfolding parse_from
parse_from-entity_tag f true body rest h = rw (append_assoc, scan_quoted-IsOpaque body rest h)
parse_from-entity_tag f false body rest h =
    rw (append_assoc, split_weak-quote (body ++ quote ∷ rest), scan_quoted-IsOpaque body rest h)

-- A separator before a tag changes nothing.
parse_from-comma : (f : ℕ) (s : Text) → parse_from f (b',' ∷ s) ≡ parse_from f s
unfolding parse_from
parse_from-comma zero s = refl
parse_from-comma (suc f) s = refl

abbrev pub Tag : Type 0
Tag = Bool × Text

abbrev pub render : Tag → Text
render t = entity_tag t.0 t.1

abbrev pub AreOpaque : List Tag → Type 0
AreOpaque ts = All (λ (t : Tag). IsOpaque t.1) ts

parse_from-nil : (f : ℕ) → parse_from f [] ≡ []
unfolding parse_from
parse_from-nil zero = refl
parse_from-nil (suc f) = refl

parse_from-join :
    (f : ℕ) (t : Tag) (ts : List Tag)
    → AreOpaque (t ∷ ts)
    → length ts < f
    → parse_from f (join_comma (map render (t ∷ ts))) ≡ map render (t ∷ ts)
unfolding join_comma skip_to_comma
parse_from-join zero t ts h lt = elim lt [ ]
parse_from-join (suc f) t [] h lt =
    ap (parse_from (suc f)) (sym (append-nil (render t)))
    ∙ parse_from-entity_tag f t.0 t.1 [] h.0
    ∙ ap (◌∷◌ (render t)) (parse_from-nil f)
parse_from-join (suc f) t (u ∷ ts) h lt =
    parse_from-entity_tag f t.0 t.1 (b',' ∷ join_comma (map render (u ∷ ts))) h.0
    ∙ ap (◌∷◌ (render t)) (parse_from-comma f _ ∙ parse_from-join f u ts h.1 (omega arith))

length-entity_tag : (weak : Bool) (body : Text) → 1 ≤ length (entity_tag weak body)
length-entity_tag true body = omega arith
length-entity_tag false body = omega arith

length-le-join : (t : Tag) (ts : List Tag) → length ts < length (join_comma (map render (t ∷ ts)))
unfolding join_comma
length-le-join t [] = length-entity_tag t.0 t.1
length-le-join t (u ∷ ts) =
    omega (
      arith,
      length-append (render t) (b',' ∷ join_comma (map render (u ∷ ts))),
      length-le-join u ts,
    )

-- Tags whose texts hold no quote and no backslash, written one after another with a comma between
-- two, are read back as they are: none is lost, split or altered.
pub parse_entity_tags-join :
    (t : Tag) (ts : List Tag)
    → AreOpaque (t ∷ ts)
    → parse_entity_tags (join_comma (map render (t ∷ ts))) ≡ map render (t ∷ ts)
unfolding parse_entity_tags
parse_entity_tags-join t ts h =
    parse_from-join (suc (length (join_comma (map render (t ∷ ts))))) t ts h
      (omega (arith, length-le-join t ts))

text_eq-nil_concat : (y : Text) (c : ℕ) → text_eq [] (y ++ c ∷ []) ≡ false
unfolding text_eq
text_eq-nil_concat [] c = refl
text_eq-nil_concat (b ∷ y) c = refl

text_eq-concat_nil : (x : Text) (c : ℕ) → text_eq (x ++ c ∷ []) [] ≡ false
unfolding text_eq
text_eq-concat_nil [] c = refl
text_eq-concat_nil (a ∷ x) c = refl

text_eq-concat : (x y : Text) (c : ℕ) → text_eq (x ++ c ∷ []) (y ++ c ∷ []) ≡ text_eq x y
unfolding text_eq
text_eq-concat [] [] c = ground arith
text_eq-concat [] (b ∷ y) c = ground (arith, text_eq-nil_concat y c)
text_eq-concat (a ∷ x) [] c = ground (arith, text_eq-concat_nil x c)
text_eq-concat (a ∷ x) (b ∷ y) c = rw (text_eq-concat x y c)

without_weak_prefix-render :
    (t : Tag) → without_weak_prefix (render t) ≡ quote ∷ (t.1 ++ quote ∷ [])
unfolding without_weak_prefix
without_weak_prefix-render (true, body) = refl
without_weak_prefix-render (false, []) = refl
without_weak_prefix-render (false, c ∷ body) = refl

render-ne-star : (t : Tag) → text_eq (render t) (codes "*") ≡ false
unfolding text_eq
render-ne-star (true, body) = refl
render-ne-star (false, body) = refl

tag_matches-render : (t u : Tag) → tag_matches (render u) (render t) ≡ text_eq t.1 u.1
tag_matches-render t u =
    rw (render-ne-star t, without_weak_prefix-render t, without_weak_prefix-render u)
      (text_eq_quoted t.1 u.1)
  where
    text_eq_quoted :
        (x y : Text) → text_eq (quote ∷ (x ++ quote ∷ [])) (quote ∷ (y ++ quote ∷ [])) ≡ text_eq x y
    text_eq_quoted x y = unfold text_eq in text_eq-concat x y quote

any-map :
    (u : Tag) (ts : List Tag)
    → any (tag_matches (render u)) (map render ts) ≡ any (λ (t : Tag). text_eq t.1 u.1) ts
any-map u [] = refl
any-map u (t ∷ ts) = rw (tag_matches-render t u, any-map u ts)

pub matches_if_none_match-join :
    (t u : Tag) (ts : List Tag)
    → AreOpaque (t ∷ ts)
    → matches_if_none_match (text (join_comma (map render (t ∷ ts)))) (render u)
      ≡ any (λ (s : Tag). text_eq s.1 u.1) (t ∷ ts)
unfolding matches_if_none_match
matches_if_none_match-join t u ts h =
    let long : (length (join_comma (map render (t ∷ ts))) == 0) ≡ false =
      ground (arith, length-le-join t ts) in
    rw (long, parse_entity_tags-join t ts h) (any-map u (t ∷ ts))

-- The tag that the server sent, sent back alone, matches.
pub matches_own_tag :
    (digest : Text)
    → IsOpaque digest
    → matches_if_none_match (text (create_weak_entity_tag digest)) (create_weak_entity_tag digest)
      ≡ true
unfolding create_weak_entity_tag join_comma
matches_own_tag digest h =
    let body : Text = codes "sha256-" ++ digest in
    let opaque : IsOpaque body = All-append _ (codes "sha256-") digest (omega arith) h in
    matches_if_none_match-join (true, body) (true, body) [] (opaque, tt)
    ∙ ap (λ b. b || false) (text_eq_refl body)

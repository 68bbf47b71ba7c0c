-- ===== src/Js/Text.antt =====
-- JavaScript strings as lists of UTF-16 code units, where the program looks inside them:
-- `trim`, `startsWith`, `slice`, `toLowerCase` on ASCII letters and the character classes of the
-- program's regular expressions. Texts that are only compared are native strings elsewhere.
use mathlib.Core.Option.{none}
use Prim.Native.Char.{code}
use Prim.Native.String.{String}
use news_api.Base.{
  ℕ, ◌+◌, ◌≤◌, ◌≡◌, refl, Bool, true, false, ◌&&◌, ◌||◌, List, [], ◌∷◌, arith, leb, ◌==◌,
  if◌then◌else◌, length, Option, some,
}

-- A JavaScript string.
abbrev pub Text : Type 0
Text = List ℕ

-- The code units of an ASCII literal.
abbrev pub codes : String → Text
codes String.[] = []
codes (String.◌∷◌ c s) = code c ∷ codes s

unfoldable pub text_eq : Text → Text → Bool
text_eq [] [] = true
text_eq [] (b ∷ ys) = false
text_eq (a ∷ xs) [] = false
text_eq (a ∷ xs) (b ∷ ys) = a == b && text_eq xs ys

-- `value === text`, of a text that can be missing.
abbrev pub text_is : Option Text → Text → Bool
text_is none t = false
text_is (some s) t = text_eq s t

pub text_eq_sound : (x y : Text) → text_eq x y ≡ true → x ≡ y
unfolding text_eq
text_eq_sound [] [] h = refl
text_eq_sound [] (b ∷ ys) h = ground arith
text_eq_sound (a ∷ xs) [] h = ground arith
text_eq_sound (a ∷ xs) (b ∷ ys) h = ground (arith, text_eq_sound xs ys)

pub text_eq_refl : (x : Text) → text_eq x x ≡ true
unfolding text_eq
text_eq_refl [] = refl
text_eq_refl (a ∷ xs) = ground (arith, text_eq_refl xs)

-- White space of `trim` and of `\s`: WhiteSpace and LineTerminator of the language.
unfoldable pub is_space : ℕ → Bool
is_space c =
    (leb 9 c && leb c 13)
    || c == 32
    || c == 160
    || c == 0x1680
    || (leb 0x2000 c && leb c 0x200a)
    || c == 0x2028
    || c == 0x2029
    || c == 0x202f
    || c == 0x205f
    || c == 0x3000
    || c == 0xfeff

unfoldable pub trim_start : Text → Text
trim_start [] = []
trim_start (c ∷ s) = if is_space c then trim_start s else c ∷ s

unfoldable pub trim_end : Text → Text
trim_end [] = []
trim_end (c ∷ s) = elim (trim_end s) [ [] ↦ if is_space c then [] else c ∷ [] | d ∷ r ↦ c ∷ d ∷ r ]

unfoldable pub trim : Text → Text
unfolding trim_start trim_end is_space
trim s = trim_end (trim_start s)

unfoldable pub is_digit : ℕ → Bool
is_digit c = leb b'0' c && leb c b'9'

-- `[a-z]` under the flag `i`, and `[A-Za-z]`.
unfoldable pub is_letter : ℕ → Bool
is_letter c = (leb b'a' c && leb c b'z') || (leb b'A' c && leb c b'Z')

unfoldable pub to_lower : ℕ → ℕ
to_lower c = if leb b'A' c && leb c b'Z' then c + 32 else c

-- Whether `s` starts with `p`.
unfoldable pub starts_with : Text → Text → Bool
starts_with [] s = true
starts_with (a ∷ p) [] = false
starts_with (a ∷ p) (b ∷ s) = a == b && starts_with p s

pub trim_end-length-le : (s : Text) → length (trim_end s) ≤ length s
unfolding trim_end
trim_end-length-le [] = omega arith
trim_end-length-le (c ∷ s) = ground (arith, trim_end-length-le s)

pub trim_start-length-le : (s : Text) → length (trim_start s) ≤ length s
unfolding trim_start
trim_start-length-le [] = omega arith
trim_start-length-le (c ∷ s) = ground (arith, trim_start-length-le s)

pub trim-length-le : (s : Text) → length (trim s) ≤ length s
unfolding trim
trim-length-le s = omega (arith, trim_end-length-le (trim_start s), trim_start-length-le s)

trim_example : trim (codes "  ab c ") ≡ codes "ab c"
unfolding trim
trim_example = refl

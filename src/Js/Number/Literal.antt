-- ===== src/Js/Number/Literal.antt =====
-- Reading a numeric literal: signs, decimals with exponent, `Infinity`, and 0x, 0o, 0b.
pub mod Laws
use news_api.Base.{
  ℕ, ◌+◌, ◌-◌, ◌*◌, ◌^◌, Bool, true, false, not, ◌&&◌, ◌||◌, Option, none, some, [], ◌∷◌, ◌++◌, leb,
  ltb, ◌==◌, if◌then◌else◌, length,
}
use news_api.Js.Text.{Text, codes, text_eq, trim, is_digit, to_lower}
use news_api.Js.Decimal.{value_from}
use news_api.Js.Number.Rounding.{Number, nan, infinite, integer, round_double}

-- The longest run of digits at the front, and the rest.
pub span_digits : Text → Text × Text
span_digits [] = ([], [])
span_digits (c ∷ s) =
    let (digits, rest) = span_digits s in if is_digit c then (c ∷ digits, rest) else ([], c ∷ s)

-- A decimal exponent: whether it is negative, and its size. `none`: no exponent can be read.
exponent_digits : Bool → Text → Option (Bool × ℕ)
exponent_digits neg s =
    let (digits, rest) = span_digits s in
    if length digits == 0 || not (length rest == 0) then none else some (neg, value_from 0 digits)

exponent : Text → Option (Bool × ℕ)
unfolding exponent_digits
exponent [] = some (false, 0)
exponent (e ∷ s) = if e == b'e' || e == b'E' then signed s else none
  where
    signed : Text → Option (Bool × ℕ)
    signed [] = none
    signed (c ∷ r) =
        if c == b'+'
        then exponent_digits false r
        else if c == b'-'
        then exponent_digits true r
        else exponent_digits false (c ∷ r)

-- The double nearest to (whole ++ frac) * 10 ^ (exponent - length frac).
decimal_value : Bool → Text → Text → Option (Bool × ℕ) → Number
decimal_value neg whole frac none = nan
decimal_value neg whole frac (some (true, e)) =
    round_double neg (value_from 0 (whole ++ frac)) (10 ^ (length frac + e))
decimal_value neg whole frac (some (false, e)) =
    round_double neg (value_from 0 (whole ++ frac) * 10 ^ e) (10 ^ length frac)

-- StrUnsignedDecimalLiteral, without `Infinity`.
abbrev after_whole : Bool → Text → Text → Number
after_whole neg [] [] = nan
after_whole neg (d ∷ ds) [] = decimal_value neg (d ∷ ds) [] (some (false, 0))
after_whole neg whole (c ∷ rest) =
    if c == b'.'
    then (let (frac, tail) = span_digits rest in
        if (length whole + length frac) == 0
        then nan
        else decimal_value neg whole frac (exponent tail))
    else if length whole == 0
    then nan
    else decimal_value neg whole [] (exponent (c ∷ rest))

unsigned : Bool → Text → Number
unfolding text_eq
unsigned neg s =
    if text_eq s (codes "Infinity")
    then infinite neg
    else (let (whole, rest) = span_digits s in after_whole neg whole rest)

-- A digit of base sixteen or below; 16 for any other character.
digit_value : ℕ → ℕ
digit_value c =
    if is_digit c
    then c - b'0'
    else if leb b'a' (to_lower c) && leb (to_lower c) b'f'
    then to_lower c - 87
    else 16

-- NonDecimalIntegerLiteral: at least one digit, all below the base.
radix_value : ℕ → ℕ → Text → Option ℕ
radix_value base acc [] = some acc
radix_value base acc (c ∷ s) =
    if ltb (digit_value c) base then radix_value base (acc * base + digit_value c) s else none

radix : ℕ → Text → Number
radix base [] = nan
radix base (c ∷ s) = elim (radix_value base 0 (c ∷ s)) [
  | none ↦ nan
  | some n ↦ round_double false n 1
]

-- The trimmed literal; a sign is read on decimal literals only.
literal : Text → Number
literal [] = integer false 0
literal (c ∷ []) = unsigned false (c ∷ [])
literal (c ∷ d ∷ s) =
    if c == b'0' && to_lower d == b'x'
    then radix 16 s
    else if c == b'0' && to_lower d == b'o'
    then radix 8 s
    else if c == b'0' && to_lower d == b'b'
    then radix 2 s
    else if c == b'+'
    then unsigned false (d ∷ s)
    else if c == b'-'
    then unsigned true (d ∷ s)
    else unsigned false (c ∷ d ∷ s)

-- `Number(s)`.
unfoldable pub to_number : Text → Number
unfolding literal radix radix_value digit_value unsigned decimal_value exponent span_digits
    round_double value_from text_eq trim is_digit to_lower
to_number s = literal (trim s)

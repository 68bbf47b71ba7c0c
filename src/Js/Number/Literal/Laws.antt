-- ===== src/Js/Number/Literal/Laws.antt =====
-- `Number` reads back every safe integer that `String` prints.
use mathlib.Core.List.{append-nil}
use native.Mathlib.Nat.{mul-one}
use news_api.Base.{ℕ, ◌≤◌, ◌≡◌, refl, Bool, true, false, [], ◌∷◌, arith, ◌==◌}
use news_api.Js.Text.{
  codes, Text, text_eq, trim, trim_start, trim_end, is_space, is_digit, to_lower,
}
use news_api.Js.Decimal.{IsDigits, show, value_from, value_from-show, show-IsDigits, show-cons}
use news_api.Js.Number.Rounding.{nan, infinite, fraction, integer, round_double, max_safe}
use news_api.Js.Number.Literal.{span_digits, decimal_value, unsigned, literal, to_number}

not-space_of_digit : (c : ℕ) → is_digit c ≡ true → is_space c ≡ false
unfolding is_digit is_space
not-space_of_digit c h = ground arith

trim_end_of_IsDigits : (s : Text) → IsDigits s → trim_end s ≡ s
unfolding trim_end
trim_end_of_IsDigits [] h = refl
trim_end_of_IsDigits (c ∷ []) h = rw (not-space_of_digit c h.0)
trim_end_of_IsDigits (c ∷ d ∷ s) h = rw (trim_end_of_IsDigits (d ∷ s) h.1)

-- White space is cut off no digits.
pub trim_of_IsDigits : (s : Text) → IsDigits s → trim s ≡ s
unfolding trim trim_start
trim_of_IsDigits [] h = refl
trim_of_IsDigits (c ∷ s) h = rw (not-space_of_digit c h.0) (trim_end_of_IsDigits (c ∷ s) h)

span_digits_of_IsDigits : (s : Text) → IsDigits s → span_digits s ≡ (s, [])
unfolding span_digits
span_digits_of_IsDigits [] h = refl
span_digits_of_IsDigits (c ∷ s) h = rw (span_digits_of_IsDigits s h.1, h.0)

round_double_safe : (neg : Bool) (n : ℕ) → n ≤ max_safe → round_double neg n 1 ≡ integer neg n
unfolding round_double
round_double_safe neg n h = ground arith

unsigned_of_IsDigits :
    (c : ℕ) (s : Text)
    → IsDigits (c ∷ s)
    → value_from 0 (c ∷ s) ≤ max_safe
    → unsigned false (c ∷ s) ≡ integer false (value_from 0 (c ∷ s))
unfolding unsigned text_eq decimal_value is_digit
unsigned_of_IsDigits c s h bound =
    let e : (c == b'I') ≡ false = ground arith in
    rw (e, span_digits_of_IsDigits (c ∷ s) h)
      (rw (append-nil, mul-one) (round_double_safe false _ bound))

literal_of_IsDigits :
    (c : ℕ) (s : Text)
    → IsDigits (c ∷ s)
    → value_from 0 (c ∷ s) ≤ max_safe
    → literal (c ∷ s) ≡ integer false (value_from 0 (c ∷ s))
unfolding literal is_digit to_lower
literal_of_IsDigits c [] h bound = unsigned_of_IsDigits c [] h bound
literal_of_IsDigits c (d ∷ s) h bound = ground (arith, unsigned_of_IsDigits c (d ∷ s) h bound)

-- A printed safe integer reads as itself.
pub to_number-show : (n : ℕ) → n ≤ max_safe → to_number (show n) ≡ integer false n
unfolding to_number
to_number-show n h =
    let (c, s, e) = show-cons n in
    let v : value_from 0 (c ∷ s) ≡ n = rw e at (value_from-show n) in
    let d : IsDigits (c ∷ s) = rw e at (show-IsDigits n) in
    rw (trim_of_IsDigits (show n) (show-IsDigits n), e)
      (rw v at (literal_of_IsDigits c s d (rw v h)))

to_number_tests :
    (to_number (codes " 1e2 ") ≡ integer false 100)
    × (to_number (codes "0x1F") ≡ integer false 31)
    × (to_number (codes "12.50") ≡ fraction false)
    × (to_number (codes "-3") ≡ integer true 3)
    × (to_number (codes "1.00000000000000000001") ≡ integer false 1)
    × (to_number (codes "1e309") ≡ infinite false)
    × (to_number (codes "9007199254740993") ≡ integer false 9_007_199_254_740_992)
    × (to_number (codes "12px") ≡ nan)
unfolding to_number
to_number_tests = (refl, refl, refl, refl, refl, refl, refl, refl)

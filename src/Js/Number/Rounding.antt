-- ===== src/Js/Number/Rounding.antt =====
-- The doubles, as far as the program tells them apart, and rounding a rational to one.
use news_api.Base.{
  ℕ, zero, suc, ◌+◌, ◌-◌, ◌*◌, ◌/◌, ◌%◌, ◌^◌, Bool, true, false, ◌&&◌, ◌||◌, ltb, leb, ◌==◌,
  if◌then◌else◌,
}

-- `integer neg n` is n, or -n if `neg`; `fraction` is a finite double that is no integer.
pub data Number : Type 0 where
  nan : Number
  infinite : (neg : Bool) → Number
  integer : (neg : Bool) (magnitude : ℕ) → Number
  fraction : (neg : Bool) → Number

-- `Number.isInteger`.
unfoldable pub is_integer : Number → Bool
is_integer (integer neg n) = true
is_integer _ = false

-- `Number.MAX_SAFE_INTEGER`.
abbrev pub max_safe : ℕ
max_safe = 9_007_199_254_740_991

-- `Number.isSafeInteger`.
unfoldable pub is_safe_integer : Number → Bool
is_safe_integer (integer neg n) = leb n max_safe
is_safe_integer _ = false

-- The number of binary digits; `n` itself is fuel enough, since each round halves it.
bit_length_fuel : ℕ → ℕ → ℕ
bit_length_fuel zero n = 0
bit_length_fuel (suc f) n = let rest = 1 + bit_length_fuel f (n / 2) in if n == 0 then 0 else rest

abbrev bit_length : ℕ → ℕ
bit_length n = bit_length_fuel n n

-- The integer nearest to p / q, the even one of two.
round_half_even : ℕ → ℕ → ℕ
round_half_even p q =
    let n = p / q in
    let twice = 2 * (p % q) in if ltb twice q || (twice == q && (n % 2) == 0) then n else n + 1

-- A double as a multiple of the least one, 2 ^ -1074.
of_units : Bool → ℕ → Number
of_units neg u =
    if leb (2 ^ 2098) u
    then infinite neg
    else if (u % 2 ^ 1074) == 0
    then integer neg (u / 2 ^ 1074)
    else fraction neg

-- The double nearest to p / q: 53 binary digits are kept, fewer below the normal range. An
-- integer below 2 ^ 53 is a double itself.
unfoldable pub round_double : Bool → ℕ → ℕ → Number
unfolding of_units round_half_even bit_length_fuel
round_double neg p q =
    if (p % q) == 0 && ltb (p / q) (2 ^ 53)
    then integer neg (p / q)
    else (let units = p * 2 ^ 1074 in
        let shift = bit_length (units / q) - 53 in
        of_units neg (round_half_even units (q * 2 ^ shift) * 2 ^ shift))

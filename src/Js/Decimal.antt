-- ===== src/Js/Decimal.antt =====
-- `String(n)` of a natural number, and reading digits back.
use news_api.Base.{
  ℕ, zero, suc, ◌+◌, ◌-◌, ◌*◌, ◌/◌, ◌%◌, ◌<◌, ◌≡◌, refl, true, [], ◌∷◌, ◌++◌, arith, ltb,
  if◌then◌else◌, Bool-cases, inl, inr, All, All-append,
}
use news_api.Js.Text.{Text, is_digit}

-- The digits of `n` on fuel; the last digit last.
show_fuel : ℕ → ℕ → Text
show_fuel zero n = []
show_fuel (suc f) n =
    let rest = show_fuel f (n / 10) in
    if ltb n 10 then (b'0' + n) ∷ [] else rest ++ (b'0' + n % 10) ∷ []

-- `String(n)`; `n + 1` rounds are enough, since each divides by ten.
unfoldable pub show : ℕ → Text
unfolding show_fuel
show n = show_fuel (suc n) n

-- The number that a run of digits reads as.
unfoldable pub value_from : ℕ → Text → ℕ
value_from acc [] = acc
value_from acc (c ∷ s) = value_from (acc * 10 + (c - b'0')) s

abbrev pub IsDigits : Text → Type 0
IsDigits s = All (λ c. is_digit c ≡ true) s

value_from-append :
    (acc : ℕ) (s t : Text) → value_from acc (s ++ t) ≡ value_from (value_from acc s) t
unfolding value_from
value_from-append acc [] t = refl
value_from-append acc (c ∷ s) t = value_from-append (acc * 10 + (c - b'0')) s t

show_fuel-value : (f n : ℕ) → n < f → value_from 0 (show_fuel f n) ≡ n
unfolding show_fuel value_from
show_fuel-value zero n h = elim h [ ]
show_fuel-value (suc f) n h = elim (Bool-cases (ltb n 10)) [
  | inl small ↦ rw small (omega arith)
  | inr large ↦
      rw
        (
          large,
          value_from-append 0 (show_fuel f (n / 10)) ((b'0' + n % 10) ∷ []),
          show_fuel-value f (n / 10) (ground arith),
        )
        (omega arith)
]

-- Reading what `String` printed gives the number back.
pub value_from-show : (n : ℕ) → value_from 0 (show n) ≡ n
unfolding show
value_from-show n = show_fuel-value (suc n) n (omega arith)

show_fuel-IsDigits : (f n : ℕ) → IsDigits (show_fuel f n)
unfolding show_fuel is_digit
show_fuel-IsDigits zero n = tt
show_fuel-IsDigits (suc f) n = elim (Bool-cases (ltb n 10)) [
  | inl small ↦ rw small (ground arith, tt)
  | inr large ↦
      rw large
        (All-append _ (show_fuel f (n / 10)) _ (show_fuel-IsDigits f (n / 10)) (ground arith, tt))
]

-- `String` prints digits only.
pub show-IsDigits : (n : ℕ) → IsDigits (show n)
unfolding show
show-IsDigits n = show_fuel-IsDigits (suc n) n

-- `String` prints at least one digit.
pub show-cons : (n : ℕ) → (c : ℕ) × (s : Text) × (show n ≡ c ∷ s)
unfolding show show_fuel
show-cons n = elim (Bool-cases (ltb n 10)) [
  | inl small ↦ rw small (_, _, refl)
  | inr large ↦ rw large (snoc (show_fuel n (n / 10)) (b'0' + n % 10))
]
  where
    snoc : (s : Text) (d : ℕ) → (c : ℕ) × (r : Text) × (s ++ d ∷ [] ≡ c ∷ r)
    snoc [] d = (d, [], refl)
    snoc (c ∷ s) d = (c, s ++ d ∷ [], refl)

-- ===== src/Config/Numbers.antt =====
-- src/config/numbers.ts: integers from environment variables. `raw` is `none` where the variable
-- is not set. A default argument of the source is written out at each call.
use news_api.Base.{
  ℕ, min, Bool, false, not, ◌&&◌, ◌||◌, Option, none, some, ltb, ◌==◌, if◌then◌else◌, length,
}
use news_api.Js.Text.{Text, trim}
use news_api.Js.Number.{Number, integer, is_safe_integer, to_number}

-- `value < 0` of a safe integer; there is a -0, which is not below 0.
unfoldable pub is_negative : Number → Bool
is_negative (integer neg n) = neg && not (n == 0)
is_negative _ = false

-- The size of an integer.
unfoldable pub magnitude : Number → ℕ
magnitude (integer neg n) = n
magnitude _ = 0

-- The checks on the converted value.
abbrev pub check_number : Number → ℕ → ℕ → ℕ
check_number value fallback maximum =
    if not (is_safe_integer value) || is_negative value
    then fallback
    else min (magnitude value) maximum

unfoldable pub resolve_non_negative_integer_env : Option Text → ℕ → ℕ → ℕ
unfolding is_negative magnitude is_safe_integer
resolve_non_negative_integer_env none fallback maximum =
    check_number (integer false fallback) fallback maximum
resolve_non_negative_integer_env (some raw) fallback maximum =
    if length (trim raw) == 0 then fallback else check_number (to_number raw) fallback maximum

unfoldable pub resolve_positive_integer_env : Option Text → ℕ → ℕ → ℕ
unfolding resolve_non_negative_integer_env
resolve_positive_integer_env raw fallback maximum =
    let value = resolve_non_negative_integer_env raw fallback maximum in
    if ltb 0 value then value else fallback

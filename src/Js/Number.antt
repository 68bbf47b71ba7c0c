-- ===== src/Js/Number.antt =====
-- `Number(s)` of a string: the grammar of StringNumericLiteral, and rounding to a double. Of a
-- finite double that is no integer only its sign is kept: the program rejects it at once.
mod Rounding
mod Literal
pub use Rounding.{Number, nan, infinite, integer, fraction, max_safe}
unfoldable pub use Rounding.{is_integer, is_safe_integer}
unfoldable pub use Literal.{to_number}
pub use Literal.Laws.{to_number-show, trim_of_IsDigits}

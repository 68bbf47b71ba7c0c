-- ===== src/Js.antt =====
-- The parts of the language that the program's text and number handling rests on.
pub mod Text
pub mod Decimal
pub mod Number

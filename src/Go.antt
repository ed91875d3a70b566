-- ===== src/Go.antt =====
-- What the program uses of Go's language and standard library.
pub mod Strings
pub mod Strconv
pub mod Time
pub mod Decimal
pub mod Float
pub mod Split

-- ===== src/Go.antt =====
-- The functions of Go's standard library that the program calls, on bytes.
pub mod Strings
pub mod Strconv

-- ===== src/Golang.antt =====
-- The parts of Go's standard library that the program calls. Letters are folded in ASCII only.
pub mod Strings
pub mod Strconv
pub mod Atoi
pub mod Unquote
pub mod Glob

-- ===== src/Std.antt =====
-- What the program uses of Go's standard library: `strconv`, `strings` and `net`.
pub mod Strconv
pub mod Strings
pub mod Net

-- ===== src/Golang.antt =====
-- What the modelled code uses of Go's standard library: texts in UTF-8, integers, strings.
pub mod Utf8
pub mod Int
pub mod Strconv
pub mod Strings
pub mod Bufio
pub mod Base64

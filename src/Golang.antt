-- ===== src/Golang.antt =====
-- What the program uses of Go's language and standard library: int64, strings and strconv.
pub mod Int64
pub mod Strings
pub mod Strconv
pub mod Splitting
pub mod Sorting

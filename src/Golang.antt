-- ===== src/Golang.antt =====
-- What the program uses of Go's standard library: number texts, flags, addresses, text searches.
pub mod Strconv
pub mod Flag
pub mod Float
pub mod HostPort
pub mod Trim
pub mod Escape
pub mod Ip

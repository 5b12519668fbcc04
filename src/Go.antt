-- ===== src/Go.antt =====
-- What the source uses of the Go language and its standard library: packages `strings`, `bytes`,
-- `strconv`, `fmt` (Sscanf, Fscan), `bufio` (Scanner), `path/filepath`, `os`, slices and the
-- built-in maps.
pub mod Strings
pub mod Slices
pub mod Numbers
pub mod Maps
pub mod Paths
pub mod Files

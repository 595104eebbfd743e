-- ===== src/Go.antt =====
-- What the program uses of the Go language and its standard library: 64-bit words, maps, byte
-- strings (`strings`, `sort`), paths (`path/filepath`), and the variable-length integers of `encoding/binary`.
pub mod Word
pub mod Map
pub mod Varint
pub mod Text
pub mod Decimal
pub mod Filepath

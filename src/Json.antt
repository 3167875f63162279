-- ===== src/Json.antt =====
-- server/libjson.hpp: JSON values, the parser and the printer.
pub mod Value
pub mod Object
pub mod Chars
pub mod Parse
pub mod Fuel
pub mod Total
pub mod Print
pub mod Strings
pub mod Tests
pub mod Plain
pub mod RoundTrip
pub mod Whole
pub mod Reread
pub mod Double
pub mod Cell
pub mod Blocks

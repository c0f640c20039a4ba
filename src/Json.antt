-- ===== src/Json.antt =====
-- xmlrpc-c/src/json.c: JSON text from values, and values from JSON text.
pub mod Scan
pub mod Token
pub mod Strings
pub mod Parse
pub mod Print
pub mod Pieces
pub mod Writing
pub mod RoundTrip

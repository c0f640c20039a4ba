-- ===== src/Tests.antt =====
-- Runs of the definitions on concrete inputs, and each property at such an input.
pub mod Text
pub mod Data
pub mod Parse
pub mod Documents
pub mod Calls
pub mod Registry
pub mod Rpc
pub mod Times
pub mod Json
pub mod Blocks

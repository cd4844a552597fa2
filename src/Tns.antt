-- ===== src/Tns.antt =====
-- The TNS protocol: src/oracle_tns.c but for the two text functions, which are Connect and Visible.
-- A handler takes the memory from the packet's pointer on, the length that its caller names, and
-- the session; it returns its code, the session and what it printed, or `none` where it reads
-- outside the memory or follows a null pointer.
pub mod Types
pub mod Payload
pub mod Table
pub mod Handlers
pub mod Parse
pub mod Keeps
pub mod Handled
pub mod Outcome
pub mod Texts
pub mod TextAnswer
pub mod ConnectText
pub mod OverRead
pub mod Total
pub mod DataTotal
pub mod Whole
mod Examples

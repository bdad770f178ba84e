-- ===== src/Forms.antt =====
-- src/github.com/latacora/formaldehyd: a compiler of plain-text forms to JSON.
pub mod Tokens
pub mod Nodes
pub mod Rounds
pub mod Fields
pub mod Parser
pub mod Json
pub mod Print
pub mod Passwords
mod Tests

-- ===== src/Web.antt =====
-- src/matasano/web: a lexer, a parser and an annotator of HTTP requests.
pub mod Lexer
pub mod Nodes
pub mod Parser
pub mod Annotate
pub mod Rules
mod Tests

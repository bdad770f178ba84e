-- ===== src/Web/Tests.antt =====
-- Tests of the lexer, the parser and the annotator, and their theorems at concrete inputs.
mod Lexing
mod Parsing
mod Annotating

-- ===== src/Parser.antt =====
-- pkg/parser/parser.go
pub mod Block
pub mod Command
pub mod References
pub mod Blocks
pub mod Match
pub mod Neighbours

-- ===== src/Parser/Block.antt =====
-- The blocks of pkg/parser/parser.go.
use skylark.Base.{ℕ}
use skylark.Text.{Text}

pub data BlockType : Type 0 where
  header list paragraph quote table code_block : BlockType

pub record Block : Type 0 where
  pub type : BlockType
  pub level : ℕ
  pub content : Text

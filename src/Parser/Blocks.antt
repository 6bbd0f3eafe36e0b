-- ===== src/Parser/Blocks.antt =====
-- `ParseBlocks` of pkg/parser/parser.go.
pub mod Headers
pub mod Fences
use skylark.Base.{
  Bool, true, false, ◌||◌, List, [], ◌∷◌, ◌++◌, Option, none, some, drop, ◌==◌, ℕ_eq, List_eq,
  if◌then◌else◌,
}
use skylark.Text.{Text, is_nil, newline, hash, bytes, has_prefix, count_byte}
use skylark.Text.Lines.{split_lines}
use skylark.Text.Trim.{trim_space}
use skylark.Parser.Block.{Block, BlockType, header, list, paragraph, quote, table, code_block}

-- `blocks` and `currentBlock`
pub record State : Type 0 where
  pub blocks : List Block
  pub current : Option Block

abbrev pub same_type : BlockType → BlockType → Bool
same_type header header = true
same_type list list = true
same_type paragraph paragraph = true
same_type quote quote = true
same_type table table = true
same_type code_block code_block = true
same_type _ _ = false

abbrev pub new_block : BlockType → Block
new_block type = record { type = type; level = 0; content = [] }

-- The first line of a block is its content; each further line goes behind a newline.
unfoldable pub add_line : Text → Block → Block
add_line line b = record b {
  content = if is_nil b.content then line else b.content ++ (newline ∷ line);
}

-- if currentBlock != nil { blocks = append(blocks, *currentBlock) }
unfoldable pub flush : State → List Block
flush s = elim s.current [ none ↦ s.blocks | some b ↦ s.blocks ++ (b ∷ []) ]

-- A line of a block type: it goes on with the current block, if that has the type.
unfoldable pub extend : BlockType → Text → State → State
extend type line s = elim s.current [
  | none ↦ record s { current = some (add_line line (new_block type)) }
  | some b ↦
      if same_type b.type type
      then record s { current = some (add_line line b) }
      else record { blocks = flush s; current = some (add_line line (new_block type)) }
]

abbrev pub in_code : Option Block → Bool
in_code none = false
in_code (some b) = same_type b.type code_block

abbrev pub fence : Text
fence = bytes "```"

abbrev pub is_fence : Text → Bool
is_fence trimmed = has_prefix trimmed fence

-- A fence opens a code block, and closes one if nothing follows it on its line.
unfoldable pub fence_line : Text → State → State
fence_line trimmed s =
    if in_code s.current
    then (if trim_space trimmed == fence then record { blocks = flush s; current = none } else s)
    else record s { current = some (new_block code_block) }

-- The level is the number of all '#' in the line.
unfoldable pub header_block : Text → Block
header_block trimmed =
    let level = count_byte hash trimmed in
    record { type = header; level = level; content = trim_space (drop level trimmed) }

abbrev pub is_header_line : Text → Bool
is_header_line trimmed = has_prefix trimmed (bytes "#")

-- the cases of the switch behind that for headers
unfoldable pub other_line : Text → Text → State → State
other_line line trimmed s =
    if has_prefix trimmed (bytes "-") || has_prefix trimmed (bytes "*")
    then extend list trimmed s
    else if has_prefix trimmed (bytes ">")
    then extend quote (trim_space (drop 1 trimmed)) s
    else if has_prefix trimmed (bytes "|")
    then extend table trimmed s
    else if is_nil trimmed
    then record { blocks = flush s; current = none }
    else extend paragraph line s

-- the switch
unfoldable pub plain_line : Text → Text → State → State
plain_line line trimmed s =
    if is_header_line trimmed
    then record { blocks = flush s; current = some (header_block trimmed) }
    else other_line line trimmed s

-- the body of the loop
unfoldable pub step : Text → State → State
step line s =
    let trimmed = trim_space line in
    if is_fence trimmed
    then fence_line trimmed s
    else if in_code s.current
    then record s { current = elim s.current [ none ↦ none | some b ↦ some (add_line line b) ] }
    else plain_line line trimmed s

unfoldable pub run : List Text → State → List Block
run [] s = flush s
run (line ∷ lines) s = run lines (step line s)

abbrev pub start : State
start = record { blocks = []; current = none }

unfoldable pub parse_blocks : Text → List Block
parse_blocks content = run (split_lines content) start

-- ===== src/Tests/Blocks.antt =====
-- Runs of the block functions of pkg/parser/parser.go.
use skylark.Base.{ℕ, ◌≡◌, refl, [], ◌∷◌, map, keep, true, ℕ_eq}
use skylark.Text.{Text, bytes}
use skylark.Text.Lines.{split_lines}
use skylark.Text.Trim.{trim_space, trim_left, trim_right, is_blank, width}
use skylark.Parser.Block.{Block, header, paragraph}
use skylark.Parser.Blocks.{
  run, parse_blocks, header_block, is_header_line, step, plain_line, other_line, fence_line, extend,
  add_line, flush,
}
use skylark.Parser.Blocks.Headers.{is_header, no_fences, parse_blocks-headers}

abbrev header_of : Text → ℕ → Block
header_of content level = record { type = header; level = level; content = content }

abbrev words : Block
words = record { type = paragraph; level = 0; content = bytes "Some words" }

abbrev page : Text
page = bytes "# Plan\nSome words\n\n- item"

page_blocks :
    map (λ (b : Block). b.content) (parse_blocks page)
    ≡ bytes "Plan" ∷ bytes "Some words" ∷ bytes "- item" ∷ []
unfolding parse_blocks run step plain_line other_line fence_line extend add_line flush header_block
    trim_space trim_left trim_right is_blank width
page_blocks = refl

plain_page : no_fences (split_lines page) ≡ true
unfolding trim_space trim_left trim_right is_blank width
plain_page = refl

parse_blocks-headers_example :
    keep is_header (parse_blocks page)
    ≡ map header_block (keep is_header_line (map trim_space (split_lines page)))
parse_blocks-headers_example = parse_blocks-headers page plain_page

-- The paragraph right above a fence is lost.
paragraph_lost : parse_blocks (bytes "words\n```\nx\n```") ≡ parse_blocks (bytes "```\nx\n```")
unfolding parse_blocks run step fence_line trim_space trim_left trim_right is_blank width add_line
    plain_line other_line extend
paragraph_lost = refl

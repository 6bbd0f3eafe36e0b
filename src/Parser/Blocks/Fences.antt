-- ===== src/Parser/Blocks/Fences.antt =====
-- What a code fence does in `ParseBlocks` of pkg/parser/parser.go.
use skylark.Base.{
  ◌≡◌, refl, true, false, not, List, [], ◌∷◌, ◌++◌, none, some, all, arith, ap, ◌∙◌, List_eq, ℕ_eq,
}
use skylark.Text.{Text}
use skylark.Text.Trim.{trim_space, trim_left, trim_right, is_blank, width}
use skylark.Parser.Block.{Block, code_block}
use skylark.Parser.Blocks.{
  new_block, add_line, flush, fence, is_fence, same_type, fence_line, step, run,
}

abbrev add_lines : List Text → Block → Block
add_lines [] b = b
add_lines (line ∷ lines) b = add_lines lines (add_line line b)

same_type-add_line :
    (line : Text) (b : Block)
    → same_type (add_line line b).type code_block ≡ same_type b.type code_block
unfolding add_line
same_type-add_line line b = refl

step-in_code :
    (line : Text) (blocks : List Block) (b : Block)
    → same_type b.type code_block ≡ true
    → is_fence (trim_space line) ≡ false
    → step line (record { blocks = blocks; current = some b })
      ≡ record { blocks = blocks; current = some (add_line line b) }
unfolding step
step-in_code line blocks b h f = rw (f, h)

run-in_code :
    (body rest : List Text) (blocks : List Block) (b : Block)
    → same_type b.type code_block ≡ true
    → all (λ l. not (is_fence (trim_space l))) body ≡ true
    → run (body ++ rest) (record { blocks = blocks; current = some b })
      ≡ run rest (record { blocks = blocks; current = some (add_lines body b) })
unfolding run
run-in_code [] rest blocks b h n = refl
run-in_code (l ∷ body) rest blocks b h n =
    ap (run (body ++ rest)) (step-in_code l blocks b h (ground arith))
    ∙ run-in_code body rest blocks (add_line l b) (same_type-add_line l b ∙ h) (ground arith)

same_type-add_lines :
    (lines : List Text) (b : Block)
    → same_type (add_lines lines b).type code_block ≡ same_type b.type code_block
same_type-add_lines [] b = refl
same_type-add_lines (l ∷ lines) b =
    same_type-add_lines lines (add_line l b) ∙ same_type-add_line l b

trim_space-fence : trim_space fence ≡ fence
unfolding trim_space trim_left trim_right is_blank width
trim_space-fence = refl

step-opening :
    (line : Text) (blocks : List Block)
    → is_fence (trim_space line) ≡ true
    → step line (record { blocks = blocks; current = none })
      ≡ record { blocks = blocks; current = some (new_block code_block) }
unfolding step fence_line
step-opening line blocks f = rw f

step-closing :
    (line : Text) (blocks : List Block) (b : Block)
    → same_type b.type code_block ≡ true
    → trim_space line ≡ fence
    → step line (record { blocks = blocks; current = some b })
      ≡ record { blocks = blocks ++ (b ∷ []); current = none }
unfolding step fence_line flush
step-closing line blocks b h c = rw (c, trim_space-fence, h)

-- The lines between an opening fence and a closing one make one code block, whatever they hold;
-- the text behind them is read as from a fresh start.
run_code_block :
    (blocks : List Block) (open_line close_line : Text) (body rest : List Text)
    → is_fence (trim_space open_line) ≡ true
    → all (λ l. not (is_fence (trim_space l))) body ≡ true
    → trim_space close_line ≡ fence
    → run (open_line ∷ (body ++ (close_line ∷ rest))) (record { blocks = blocks; current = none })
      ≡ run rest (record {
        blocks = blocks ++ (add_lines body (new_block code_block) ∷ []);
        current = none;
      })
unfolding run
run_code_block blocks open_line close_line body rest f n c =
    ap (run (body ++ (close_line ∷ rest))) (step-opening open_line blocks f)
    ∙ run-in_code body (close_line ∷ rest) blocks (new_block code_block) refl n
    ∙ ap (run rest) (
        step-closing close_line blocks (add_lines body (new_block code_block))
          (same_type-add_lines body (new_block code_block)) c)

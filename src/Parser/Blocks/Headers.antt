-- ===== src/Parser/Blocks/Headers.antt =====
-- The headers that `ParseBlocks` of pkg/parser/parser.go finds outside code.
use mathlib.Core.List.{append_assoc, append-nil}
use skylark.Base.{
  ◌≡◌, refl, ap, sym, ◌∙◌, Bool, true, false, not, List, [], ◌∷◌, ◌++◌, Option, none, some, all,
  map, keep, keep-append, arith, Bool-cases, ℕ_eq, List_eq, if◌then◌else◌, inl, inr, drop,
}
use skylark.Text.{Text}
use skylark.Text.Lines.{split_lines}
use skylark.Text.Trim.{trim_space}
use skylark.Parser.Block.{Block, BlockType, header, list, paragraph, quote, table, code_block}
use skylark.Parser.Blocks.{
  State, same_type, add_line, flush, extend, in_code, is_fence, header_block, is_header_line,
  plain_line, step, run, start, parse_blocks, other_line,
}

abbrev pub is_header : Block → Bool
is_header b = same_type b.type header

headers : List Block → List Block
headers = keep is_header

-- A block type that is neither a header nor code.
abbrev is_plain : BlockType → Bool
is_plain header = false
is_plain code_block = false
is_plain _ = true

headers-append_other :
    (bs : List Block) (b : Block) → is_header b ≡ false → headers (bs ++ (b ∷ [])) ≡ headers bs
unfolding headers
headers-append_other bs b h =
    keep-append is_header bs (b ∷ []) ∙ rw h (append-nil (keep is_header bs))

same_type-plain :
    (a t : BlockType) → is_plain t ≡ true → same_type a t ≡ true → same_type a header ≡ false
same_type-plain a t h k = ground arith

plain-other : (t : BlockType) → is_plain t ≡ true → same_type t header ≡ false
plain-other t h = ground arith

extend_current :
    (type : BlockType) (line : Text) (bs : List Block) (current : Option Block)
    → is_plain type ≡ true
    → headers (flush (extend type line (record { blocks = bs; current = current })))
      ≡ headers (flush (record { blocks = bs; current = current }))
unfolding extend add_line flush
extend_current type line bs none h = headers-append_other bs _ (plain-other type h)
extend_current type line bs (some b) h = elim (Bool-cases (same_type b.type type)) [
  | inl e ↦ rw e (
      headers-append_other bs (add_line line b) (same_type-plain b.type type h e)
      ∙ sym (headers-append_other bs b (same_type-plain b.type type h e)))
  | inr e ↦ rw e (headers-append_other (bs ++ (b ∷ [])) _ (plain-other type h))
]

headers-flush-extend :
    (type : BlockType) (line : Text) (s : State)
    → is_plain type ≡ true
    → headers (flush (extend type line s)) ≡ headers (flush s)
headers-flush-extend type line s h = extend_current type line s.blocks s.current h

in_code_current :
    (type : BlockType) (line : Text) (bs : List Block) (current : Option Block)
    → is_plain type ≡ true
    → in_code (extend type line (record { blocks = bs; current = current })).current ≡ false
unfolding extend add_line
in_code_current type line bs none h = ground arith
in_code_current type line bs (some b) h = ground arith

in_code-extend :
    (type : BlockType) (line : Text) (s : State)
    → is_plain type ≡ true
    → in_code (extend type line s).current ≡ false
in_code-extend type line s h = in_code_current type line s.blocks s.current h

-- The header that one trimmed line makes, if it is a header line.
abbrev pub header_of : Text → List Block
header_of trimmed = if is_header_line trimmed then header_block trimmed ∷ [] else []

flush-none : (bs : List Block) → flush (record { blocks = bs; current = none }) ≡ bs
unfolding flush
flush-none bs = refl

headers-other_line :
    (line trimmed : Text) (s : State)
    → headers (flush (other_line line trimmed s)) ≡ headers (flush s)
unfolding other_line
headers-other_line line trimmed s = ground (
  arith,
  headers-flush-extend list trimmed s refl,
  headers-flush-extend quote (trim_space (drop 1 trimmed)) s refl,
  headers-flush-extend table trimmed s refl,
  headers-flush-extend paragraph line s refl,
  ap headers (flush-none (flush s)),
)

in_code-other_line :
    (line trimmed : Text) (s : State) → in_code (other_line line trimmed s).current ≡ false
unfolding other_line
in_code-other_line line trimmed s = ground (
  arith,
  in_code-extend list trimmed s refl,
  in_code-extend quote (trim_space (drop 1 trimmed)) s refl,
  in_code-extend table trimmed s refl,
  in_code-extend paragraph line s refl,
)

headers-header_line :
    (bs : List Block) (trimmed : Text)
    → headers (flush (record { blocks = bs; current = some (header_block trimmed) }))
      ≡ headers bs ++ (header_block trimmed ∷ [])
unfolding flush headers header_block
headers-header_line bs trimmed = keep-append is_header bs (header_block trimmed ∷ [])

headers-plain_line :
    (line trimmed : Text) (s : State)
    → headers (flush (plain_line line trimmed s)) ≡ headers (flush s) ++ header_of trimmed
unfolding plain_line
headers-plain_line line trimmed s = elim (Bool-cases (is_header_line trimmed)) [
  | inl e ↦ rw e (headers-header_line (flush s) trimmed)
  | inr e ↦ rw e (headers-other_line line trimmed s ∙ sym (append-nil (headers (flush s))))
]

in_code-plain_line :
    (line trimmed : Text) (s : State) → in_code (plain_line line trimmed s).current ≡ false
unfolding plain_line header_block
in_code-plain_line line trimmed s = ground (arith, in_code-other_line line trimmed s)

headers_of : List Text → List Block
headers_of lines = map header_block (keep is_header_line (map trim_space lines))

headers_of-cons :
    (line : Text) (lines : List Text)
    → headers_of (line ∷ lines) ≡ header_of (trim_space line) ++ headers_of lines
unfolding headers_of
headers_of-cons line lines = ground arith

-- No line opens or closes code.
abbrev pub no_fences : List Text → Bool
no_fences lines = all (λ line. not (is_fence (trim_space line))) lines

step-plain :
    (line : Text) (s : State)
    → is_fence (trim_space line) ≡ false
    → in_code s.current ≡ false
    → step line s ≡ plain_line line (trim_space line) s
unfolding step
step-plain line s h k = rw (h, k)

headers-run :
    (lines : List Text) (s : State)
    → no_fences lines ≡ true
    → in_code s.current ≡ false
    → headers (run lines s) ≡ headers (flush s) ++ headers_of lines
unfolding run headers_of
headers-run [] s n c = sym (append-nil (headers (flush s)))
headers-run (line ∷ lines) s n c =
    ap (λ t. headers (run lines t)) (step-plain line s (ground arith) c)
    ∙ headers-run lines (plain_line line (trim_space line) s) (ground arith)
        (in_code-plain_line line (trim_space line) s)
    ∙ ap (λ bs. bs ++ headers_of lines) (headers-plain_line line (trim_space line) s)
    ∙ append_assoc (headers (flush s)) _ _
    ∙ ap (λ bs. headers (flush s) ++ bs) (sym (headers_of-cons line lines))

-- In a text without fences the header blocks are those of its header lines, in order.
pub parse_blocks-headers :
    (content : Text)
    → no_fences (split_lines content) ≡ true
    → keep is_header (parse_blocks content)
      ≡ map header_block (keep is_header_line (map trim_space (split_lines content)))
unfolding parse_blocks headers headers_of flush
parse_blocks-headers content n = headers-run (split_lines content) start n refl

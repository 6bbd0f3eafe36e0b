-- ===== src/Context/Section.antt =====
-- `Reference`, `HeaderPattern` and `ParseReferences` of pkg/context/context.go.
pub mod Order
pub mod Headed
use skylark.Base.{
  ℕ, suc, ◌-◌, Bool, not, ◌&&◌, List, [], ◌∷◌, ◌++◌, Option, none, some, all, leb, length, ◌==◌,
  ℕ_eq, if◌then◌else◌, ◌||◌,
}
use skylark.Text.{Text, is_nil, hash, span}
use skylark.Text.Lines.{split_lines}
use skylark.Text.Trim.{trim_space}
use skylark.Parser.References.{re_space}

pub record Reference : Type 0 where
  pub header : Text
  pub level : ℕ
  pub start_line : ℕ
  pub end_line : ℕ

-- `(?:\s+#*)?$`
abbrev closes : Text → Bool
closes s =
    let (spaces, rest) = span re_space s in
    is_nil s || (not (is_nil spaces) && all (λ c. c == hash) rest)

-- `(.+?)`: the shortest title that the end of a header follows
unfoldable pub title : Text → Text
title [] = []
title (c ∷ s) = let rest = title s in if closes s then c ∷ [] else c ∷ rest

-- `^(#{1,6})\s+(.+?)(?:\s+#*)?$` on one line: how many '#' there are, and the title, trimmed. A title
-- of white space alone wants two spaces, since `\s+` takes one.
unfoldable pub match_header : Text → Option (ℕ × Text)
unfolding title
match_header line =
    let (hashes, behind) = span (λ c. c == hash) line in
    let (spaces, rest) = span re_space behind in
    if leb 1 (length hashes) && leb (length hashes) 6
    then (if is_nil rest
        then (if leb 2 (length spaces) then some (length hashes, []) else none)
        else if is_nil spaces
        then none
        else some (length hashes, trim_space (title rest)))
    else none

-- At the next header, or at the end: the section that stands open ends before line `i`, and is kept
-- if it has a line.
abbrev close_section : Option Reference → ℕ → List Reference → List Reference
close_section none i refs = refs
close_section (some r) i refs =
    if leb r.start_line (i - 1) then refs ++ (record r { end_line = i - 1 } ∷ []) else refs

-- the loop over the lines, from line `i` on, and what follows it
unfoldable pub scan_lines : List Text → ℕ → Option Reference → List Reference → List Reference
scan_lines [] i current refs = close_section current i refs
scan_lines (line ∷ lines) i current refs = elim (match_header line) [
  | none ↦ scan_lines lines (suc i) current refs
  | some (level, header) ↦
      scan_lines lines (suc i)
        (some (record { header = header; level = level; start_line = suc i; end_line = 0 }))
        (close_section current i refs)
]

unfoldable pub parse_references : Text → List Reference
unfolding scan_lines
parse_references content = scan_lines (split_lines content) 0 none []

-- ===== src/Tests/Context.antt =====
-- Runs of pkg/context/context.go.
use skylark.Base.{ℕ, ◌≡◌, refl, [], ◌∷◌, map, length, ℕ_eq}
use skylark.Text.{Text, bytes}
use skylark.Text.Lines.{split_lines}
use skylark.Text.Trim.{trim_space, trim_left, trim_right, is_blank, width}
use skylark.Context.Section.{Reference, parse_references, scan_lines, match_header, title}
use skylark.Context.Section.Order.{Ordered, parse_references-Ordered}
use skylark.Context.Section.Headed.{AllHeaded, parse_references-AllHeaded}
use skylark.Context.Priority.{
  sort_references_by_priority, Sorted, sort_references_by_priority-Sorted,
}
use skylark.Context.Truncate.{truncate_content, IsCut, truncate_content-IsCut}
use skylark.Context.Assemble.{assemble_context, requested}
use skylark.Context.Assemble.Limits.{IsWithin, assemble_context-IsWithin}
use mathlib.Core.List.{Perm}

abbrev note : Text
note = bytes "# Plan\nsome text. More\n## Next\nwords"

abbrev section : Text → ℕ → ℕ → Reference
section header level start_line = record {
  header = header;
  level = level;
  start_line = start_line;
  end_line = start_line;
}

abbrev plan : Reference
plan = section (bytes "plan") 1 1

abbrev next : Reference
next = section (bytes "next") 2 3

abbrev later : Reference
later = section (bytes "later") 2 5

abbrev last : Reference
last = section (bytes "last") 2 7

note_parses :
    map (λ (r : Reference). r.header) (parse_references note) ≡ bytes "Plan" ∷ bytes "Next" ∷ []
unfolding parse_references scan_lines match_header title trim_space trim_left trim_right is_blank
    width
note_parses = refl

parse_references-Ordered_example : Ordered 0 (parse_references note) (length (split_lines note))
parse_references-Ordered_example = parse_references-Ordered note

parse_references-AllHeaded_example :
    AllHeaded (map match_header (split_lines note)) (parse_references note)
parse_references-AllHeaded_example = parse_references-AllHeaded note

sort_references_by_priority-Sorted_example :
    Sorted (sort_references_by_priority (later ∷ next ∷ plan ∷ []))
    × Perm (sort_references_by_priority (later ∷ next ∷ plan ∷ [])) (later ∷ next ∷ plan ∷ [])
sort_references_by_priority-Sorted_example =
    sort_references_by_priority-Sorted (later ∷ next ∷ plan ∷ [])

truncate_content-IsCut_example :
    IsCut (bytes "One. Two three") 8 (truncate_content (bytes "One. Two three") 8)
truncate_content-IsCut_example = truncate_content-IsCut (bytes "One. Two three") 8

assemble_context-IsWithin_example :
    IsWithin
      (requested (bytes "plan" ∷ []))
      100
      20
      (assemble_context note (bytes "plan" ∷ []) 100 20)
assemble_context-IsWithin_example = assemble_context-IsWithin note (bytes "plan" ∷ []) 100 20

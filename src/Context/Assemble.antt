-- ===== src/Context/Assemble.antt =====
-- `AssembleContext` of pkg/context/context.go. The limits are not negative.
pub mod Limits
use skylark.Base.{
  ℕ, zero, suc, ◌+◌, ◌-◌, ◌/◌, ◌≡◌, refl, Bool, true, false, List, [], ◌∷◌, Option, none, some, any,
  keep, take, drop, length, ltb, leb, ◌==◌, ℕ_eq, List_eq, if◌then◌else◌,
}
use skylark.Base.Dict.{Dict, insert}
use skylark.Text.{Text, to_lower}
use skylark.Text.Lines.{split_lines, join_lines}
use skylark.Context.Section.{Reference, parse_references}
use skylark.Context.Priority.{sort_references_by_priority}
use skylark.Context.Truncate.{truncate_content}

pub record Context : Type 0 where
  pub references : Dict Text Text
  pub total_size : ℕ
  pub token_count : ℕ

unfoldable pub estimate_token_count : Text → ℕ
estimate_token_count text = length text / 4

-- `headerMap[strings.ToLower(header)]`
unfoldable pub requested : List Text → Text → Bool
requested headers header = any (λ h. to_lower h == to_lower header) headers

-- lines[ref.StartLine : ref.EndLine+1], once `EndLine` is within the lines
unfoldable pub section_content : List Text → Reference → Text
section_content lines ref =
    let last = if leb (length lines) ref.end_line then length lines - 1 else ref.end_line in
    join_lines (take (last + 1 - ref.start_line) (drop ref.start_line lines))

-- The content of a section, cut down to the room that is left; nothing if that is 100 bytes or less.
unfoldable pub fit_section : ℕ → Context → Text → Option Text
fit_section max_size ctx content =
    if ltb max_size (ctx.total_size + length content)
    then (if ltb 100 (max_size - ctx.total_size)
        then some (truncate_content content (max_size - ctx.total_size))
        else none)
    else some content

-- A section is left out if its tokens pass the limit.
unfoldable pub add_content : ℕ → Context → Text → Text → Context
unfolding estimate_token_count
add_content max_tokens ctx header content =
    if ltb max_tokens (ctx.token_count + estimate_token_count content) then ctx else record {
      references = insert header content ctx.references;
      total_size = ctx.total_size + length content;
      token_count = ctx.token_count + estimate_token_count content;
    }

-- the loop over the sorted matches
unfoldable pub add_sections : List Text → ℕ → ℕ → Context → List Reference → Context
add_sections lines max_size max_tokens ctx [] = ctx
add_sections lines max_size max_tokens ctx (ref ∷ refs) =
    elim (fit_section max_size ctx (section_content lines ref)) [
      | none ↦ add_sections lines max_size max_tokens ctx refs
      | some content ↦
          add_sections lines max_size max_tokens (add_content max_tokens ctx ref.header content)
            refs
    ]

abbrev pub empty_context : Context
empty_context = record { references = []; total_size = 0; token_count = 0 }

unfoldable pub matches : List Text → List Reference → List Reference
matches headers = keep (λ ref. requested headers ref.header)

unfoldable pub assemble_context : Text → List Text → ℕ → ℕ → Context
unfolding add_sections matches
assemble_context content headers max_size max_tokens =
    add_sections (split_lines content) max_size max_tokens empty_context
      (sort_references_by_priority (matches headers (parse_references content)))

-- ===== src/Parser/Command/Accepts.antt =====
-- Which texts `ParseCommands` accepts, and what it makes of their command lines.
use skylark.Base.{
  ℕ, ◌≡◌, refl, Bool, true, false, not, ◌&&◌, List, [], ◌∷◌, all, map, keep, arith, leb, length, ok,
  is_ok, ◌==◌, ℕ_eq, ◌≢◌, none, ◌↔◌, Result-cases, inl, inr,
}
use skylark.Text.{Text, newline}
use skylark.Text.Lines.{split_lines, one_line, split_lines-one_lines}
use skylark.Text.Trim.{trim_space, starts_with_bang}
use skylark.Text.Trim.Keeps.{all-trim_space}
use skylark.Parser.Command.{
  Command, match_command, match_words, max_command_size, parse_command, parse_lines, parse_commands,
}

-- The lines whose first byte behind the white space is a '!', trimmed.
abbrev pub command_lines_of : List Text → List Text
command_lines_of lines = keep starts_with_bang (map trim_space lines)

abbrev pub command_lines : Text → List Text
command_lines content = command_lines_of (split_lines content)

-- A '!' with a byte behind it, within the limit.
abbrev pub fits : Text → Bool
fits t = leb 2 (length t) && leb (length t) max_command_size

match_words-ne-none : (c : ℕ) (s : Text) → one_line (c ∷ s) ≡ true → match_words (c ∷ s) ≢ none
unfolding match_words
match_words-ne-none c s h = ground arith

match_words-nil : match_words [] ≡ none
unfolding match_words
match_words-nil = refl

match_command-fits :
    (t : Text)
    → starts_with_bang t ≡ true
    → one_line t ≡ true
    → (match_command t ≡ none) ↔ (leb 2 (length t) ≡ false)
unfolding match_command
match_command-fits [] b h = cc
match_command-fits (c ∷ []) b h = (λ e. refl, λ e. ground (arith, match_words-nil))
match_command-fits (c ∷ d ∷ s) b h =
    (λ e. ground (arith, match_words-ne-none d s), λ e. ground arith)

parse_command-fits :
    (line : Text)
    → starts_with_bang (trim_space line) ≡ true
    → one_line line ≡ true
    → is_ok (parse_command line) ≡ fits (trim_space line)
unfolding parse_command
parse_command-fits line b h = ground (
  arith,
  match_command-fits (trim_space line) b (all-trim_space (λ c. not (c == newline)) line h),
)

parse_lines-fits :
    (lines : List Text)
    → all one_line lines ≡ true
    → is_ok (parse_lines lines) ≡ all fits (command_lines_of lines)
unfolding parse_lines
parse_lines-fits [] h = refl
parse_lines-fits (line ∷ lines) h = ground (arith, parse_command-fits line, parse_lines-fits lines)

-- ParseCommands succeeds exactly when each command line, trimmed, has from 2 to 4000 bytes.
pub parse_commands-fits :
    (content : Text) → is_ok (parse_commands content) ≡ all fits (command_lines content)
unfolding parse_commands
parse_commands-fits content = parse_lines-fits (split_lines content) (split_lines-one_lines content)

parse_command-original :
    (line : Text) (command : Command)
    → parse_command line ≡ ok command
    → command.original ≡ trim_space line
unfolding parse_command
parse_command-original line command h = ground arith

parse_lines-originals :
    (lines : List Text) (commands : List Command)
    → parse_lines lines ≡ ok commands
    → map (λ c. c.original) commands ≡ command_lines_of lines
unfolding parse_lines
parse_lines-originals [] commands h = ground arith
parse_lines-originals (line ∷ lines) commands h = elim (Result-cases (parse_command line)) [
  | inl (c, e) ↦ elim (Result-cases (parse_lines lines)) [
    | inl (cs, f) ↦
        ground (arith, parse_command-original line c e, parse_lines-originals lines cs f)
    | inr (x, f) ↦ ground arith
  ]
  | inr (x, e) ↦ ground (arith, parse_lines-originals lines commands)
]

-- The commands that ParseCommands returns are the command lines of the text, trimmed, in order.
pub parse_commands-originals :
    (content : Text) (commands : List Command)
    → parse_commands content ≡ ok commands
    → map (λ c. c.original) commands ≡ command_lines content
unfolding parse_commands
parse_commands-originals content commands h = parse_lines-originals (split_lines content) commands h

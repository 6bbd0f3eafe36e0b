-- ===== src/Parser/Command.antt =====
-- Commands of pkg/parser/parser.go: `ParseCommand` and `ParseCommands`.
pub mod Accepts
use skylark.Base.{
  ℕ, Bool, true, false, not, ◌&&◌, List, [], ◌∷◌, Option, none, some, length, ltb, if◌then◌else◌,
  Result, ok, err, ◌>>=◌, wrap, ◌==◌, ℕ_eq, List_eq,
}
use skylark.Base.Dict.{Dict}
use skylark.Text.{Text, is_nil, bang, span, to_lower, bytes}
use skylark.Text.Lines.{split_lines, one_line}
use skylark.Text.Trim.{trim_space, starts_with_bang}
use skylark.Parser.Block.{Block}
use skylark.Parser.References.{re_space, parse_references}

pub record Command : Type 0 where
  pub assistant : Text
  pub text : Text
  pub original : Text
  pub references : List Text
  pub context : Dict Text Block

pub data Error : Type 0 where
  command_too_large : Error
  invalid_format : Text → Error
  parse_failed : Error → Error

abbrev pub max_command_size : ℕ
max_command_size = 4000

-- `(.+)$`
abbrev match_text : Text → Option (Text × Text)
match_text s = if not (is_nil s) && one_line s then some ([], s) else none

-- `(?:\s*(\S+)\s+)?(.+)$`. The text is trimmed, so the second `\s+` need not give a byte back.
match_words : Text → Option (Text × Text)
match_words s =
    let (lead, after_lead) = span re_space s in
    let (word, after_word) = span (λ c. not (re_space c)) after_lead in
    let (gap, rest) = span re_space after_word in
    if not (is_nil word) && not (is_nil gap) && not (is_nil rest) && one_line rest
    then some (word, rest)
    else match_text s

-- `^!(?:\s*(\S+)\s+)?(.+)$`: the two groups
match_command : Text → Option (Text × Text)
unfolding match_words
match_command [] = none
match_command (c ∷ s) = if c == bang then match_words s else none

abbrev assistant_of : Text → Text
assistant_of [] = bytes "default"
assistant_of (c ∷ word) = to_lower (c ∷ word)

unfoldable pub parse_command : Text → Result Error Command
unfolding match_command
parse_command line =
    let trimmed = trim_space line in
    if ltb max_command_size (length trimmed)
    then err command_too_large
    else elim (match_command trimmed) [
      | none ↦ err (invalid_format line)
      | some (word, text) ↦ ok (record {
        assistant = assistant_of word;
        text = text;
        original = trimmed;
        references = parse_references text;
        context = [];
      })
    ]

unfoldable pub parse_lines : List Text → Result Error (List Command)
parse_lines [] = ok []
parse_lines (line ∷ lines) =
    let rest = parse_lines lines in
    if starts_with_bang (trim_space line)
    then (do
      command ← wrap parse_failed (parse_command line)
      commands ← rest
      ok (command ∷ commands))
    else rest

unfoldable pub parse_commands : Text → Result Error (List Command)
unfolding parse_lines
parse_commands content = parse_lines (split_lines content)

-- ===== src/Tests/Parser.antt =====
-- pkg/parser/parser.go at concrete inputs.
use skylark.Base.{is_ok, all, ◌≡◌, refl, ok, map, [], ◌∷◌, List}
use skylark.Text.{Text, bytes}
use skylark.Text.Trim.{trim_space, trim_left, trim_right, is_blank, width}
use skylark.Parser.Command.{Command, parse_command, parse_commands}
use skylark.Parser.Command.Accepts.{
  fits, command_lines, parse_commands-fits, parse_commands-originals,
}
use skylark.Parser.References.{parse_references}

references_test : parse_references (bytes "see # A b # and #c#d") ≡ bytes "A b" ∷ bytes "c" ∷ []
unfolding parse_references trim_space trim_left trim_right is_blank width
references_test = refl

abbrev note : Text
note = bytes "# T\n  !Bot say # A # \nx\n!hi"

abbrev note_commands : List Command
note_commands =
    record {
      assistant = bytes "bot";
      text = bytes "say # A #";
      original = bytes "!Bot say # A #";
      references = bytes "A" ∷ [];
      context = [];
    }
    ∷ record {
      assistant = bytes "default";
      text = bytes "hi";
      original = bytes "!hi";
      references = [];
      context = [];
    }
    ∷ []

note_parses : parse_commands note ≡ ok note_commands
unfolding parse_commands parse_command parse_references trim_space trim_left trim_right is_blank
    width
note_parses = refl

parse_commands-originals_example :
    map (λ (c : Command). c.original) note_commands ≡ command_lines note
parse_commands-originals_example = parse_commands-originals note note_commands note_parses

parse_commands-fits_example :
    is_ok (parse_commands (bytes "!\nx")) ≡ all fits (command_lines (bytes "!\nx"))
parse_commands-fits_example = parse_commands-fits (bytes "!\nx")

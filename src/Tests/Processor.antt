-- ===== src/Tests/Processor.antt =====
-- pkg/processor/concrete/processor.go at concrete inputs.
use mathlib.Core.Option.{some-injective}
use mathlib.Core.List.{Sublistᴰ, [], List, map}
use skylark.Processor.{stops_after, Error, Response}
use skylark.Text.Lines.{split_lines, join_lines}
use skylark.Processor.Rewrite.{remaining, command_lines-new_content}
use skylark.Processor.Kept.{has_text, marked, new_content-sublist}
use skylark.Processor.Update.{IsUpdated, present, update_file-present, update_file-content}
use skylark.Base.{
  subst, ap, keep, all, is_ok, ◌++◌, ℕ_eq, List_eq, ◌≡◌, refl, ok, some, Option, Result, [], List,
  ◌∷◌, false, map,
}
use skylark.Text.{Text, bytes, is_nil}
use skylark.Text.Trim.{trim_space, trim_left, trim_right, is_blank, width}
use skylark.Parser.Command.{Command, parse_command, parse_commands}
use skylark.Parser.References.{parse_references}
use skylark.Processor.{
  File, process, process_all, responses_to, process_file, update_file, new_content, new_lines,
  response_for, commands_found, first_missing, drop_blank_end, put_line, read_file, write_file,
}
use skylark.Processor.Update.{holding}
use skylark.Parser.Command.Accepts.{command_lines}
use skylark.Processor.Idle.{IsTrimmed, process_file_idle}
use skylark.Processor.Settles.{process_file_settles}

-- An assistant that says "done".
abbrev get_any : Text → Option Text
get_any name = some name

abbrev say_done : Text → Command → Option Text
say_done name command = some (bytes "done")

abbrev asked : File
asked = holding (bytes "a\n!hi\nb\n\n")

asked_runs :
    process_file get_any say_done (λ g. g) asked ≡ (ok tt, holding (bytes "a\n-!hi\n\ndone\n\nb\n"))
unfolding process_file responses_to process_all process update_file new_content new_lines
    response_for commands_found first_missing drop_blank_end put_line read_file write_file
    parse_commands parse_command parse_references trim_space trim_left trim_right is_blank width
asked_runs = refl

say_done-quiet :
    (name : Text) (command : Command) (r : Text)
    → say_done name command ≡ some r
    → (is_nil r ≡ false) × (command_lines r ≡ [])
unfolding trim_space trim_left trim_right is_blank width
say_done-quiet name command r h =
    subst (λ t. (is_nil t ≡ false) × (command_lines t ≡ [])) (some-injective (bytes "done") r h)
      (refl, refl)

asked_runs_ok : (process_file get_any say_done (λ g. g) asked).0 ≡ ok tt
asked_runs_ok = ap (λ (r : Result Error (Unit {0}) × File). r.0) asked_runs

process_file_settles_example :
    (content : Text) × ((process_file get_any say_done (λ g. g) asked).1.content ≡ some content)
    × (command_lines content ≡ [])
process_file_settles_example =
    process_file_settles get_any say_done say_done-quiet asked asked_runs_ok

idle_text : command_lines (bytes "a\n\n") ≡ []
unfolding trim_space trim_left trim_right is_blank width
idle_text = refl

process_file_idle_example :
    (after : Text) × (process_file get_any say_done (λ g. g) (holding (bytes "a\n\n"))
      ≡ (ok tt, holding after))
    × IsTrimmed (bytes "a\n\n") after
    × (process_file get_any say_done (λ g. g) (holding after) ≡ (ok tt, holding after))
process_file_idle_example = process_file_idle get_any say_done (bytes "a\n\n") idle_text

abbrev hi_response : Response
hi_response = record {
  command = record {
    assistant = bytes "default";
    text = bytes "hi";
    original = bytes "!hi";
    references = [];
    context = [];
  };
  response = bytes "done";
}

command_lines-new_content_example :
    command_lines (new_content (hi_response ∷ []) (bytes "!hi\n!ho"))
    ≡ remaining (hi_response ∷ []) (split_lines (bytes "!hi\n!ho"))
command_lines-new_content_example = command_lines-new_content (hi_response ∷ []) (bytes "!hi\n!ho")

new_content-sublist_example :
    (written : List Text) × (new_content (hi_response ∷ []) (bytes "!hi\nx")
      ≡ join_lines (written ++ ([] ∷ [])))
    × Sublistᴰ
        (keep has_text (map (marked (hi_response ∷ [])) (split_lines (bytes "!hi\nx"))))
        (keep has_text written)
new_content-sublist_example = new_content-sublist (hi_response ∷ []) (bytes "!hi\nx")

update_file-present_example :
    is_ok (update_file (hi_response ∷ []) (holding (bytes "!ho"))).0
    ≡ all (present (split_lines (bytes "!ho"))) (hi_response ∷ [])
update_file-present_example = update_file-present (hi_response ∷ []) (bytes "!ho")

abbrev cut_short : File
cut_short = record { content = some (bytes "!hi"); writing = stops_after 3 }

update_file-content_example :
    IsUpdated
      (hi_response ∷ [])
      (bytes "!hi")
      (stops_after 3)
      (update_file (hi_response ∷ []) cut_short)
update_file-content_example = update_file-content (hi_response ∷ []) cut_short (bytes "!hi") refl

-- ===== src/Processor.antt =====
-- pkg/processor/concrete/processor.go: `Process`, `ProcessFile`, `HandleResponse` and `UpdateFile`.
-- A file is its content, or its absence, and what becomes of writing it. The assistants are
-- parameters: one to look an assistant up, one to ask it.
pub mod Rewrite
pub mod Update
pub mod Settles
pub mod Kept
pub mod Idle
use skylark.Base.{
  take, ℕ, Bool, true, false, List, [], ◌∷◌, ◌++◌, Option, none, some, map, any, keep, ◌==◌,
  if◌then◌else◌, Result, ok, err, wrap, ◌>>=◌, List_eq, ℕ_eq,
}
use skylark.Text.{Text, is_nil}
use skylark.Text.Lines.{split_lines, join_lines}
use skylark.Text.Trim.{trim_space, invalidate, starts_with_bang}
use skylark.Parser.Command
use skylark.Parser.Command.{Command, parse_commands}

pub record Response : Type 0 where
  pub command : Command
  pub response : Text

pub data Error : Type 0 where
  no_assistant process_failed read_failed write_failed command_required response_required : Error
  parse_error : Command.Error → Error
  command_not_found : Text → Error
  update_failed : Error → Error

-- the loop over `responses`, up to its `break`
unfoldable pub response_for : List Response → Text → Option Text
response_for [] trimmed = none
response_for (r ∷ rs) trimmed =
    if trimmed == r.command.original then some r.response else response_for rs trimmed

abbrev pub answered : List Response → Text → Bool
answered rs trimmed = elim (response_for rs trimmed) [ none ↦ false | some _ ↦ true ]

abbrev blank_before : Text → List Text
blank_before line = if is_nil (trim_space line) then [] else [] ∷ []

-- Before a next line that is neither blank nor a command a blank line is added.
abbrev blank_after : List Text → List Text
blank_after [] = []
blank_after (next ∷ lines) =
    let next_line = trim_space next in
    if is_nil next_line then [] else if starts_with_bang next_line then [] else [] ∷ []

-- What one line adds to `newLines`, and what the lines behind it are.
unfoldable pub new_lines_at : Option Text → Text → List Text → List Text
new_lines_at none line lines = line ∷ []
new_lines_at (some response) line lines =
    let marked = invalidate line in marked ∷ (blank_before marked ++ (response ∷ blank_after lines))

-- the loop over the lines
unfoldable pub new_lines : List Response → List Text → List Text
unfolding new_lines_at
new_lines rs [] = []
new_lines rs (line ∷ lines) =
    new_lines_at (response_for rs (trim_space line)) line lines ++ new_lines rs lines

-- `commandsFound`: the trimmed lines for which there is a response
unfoldable pub commands_found : List Response → List Text → List Text
commands_found rs lines = keep (answered rs) (map trim_space lines)

-- the loop that verifies that all commands were found
unfoldable pub first_missing : List Text → List Response → Option Text
first_missing found [] = none
first_missing found (r ∷ rs) =
    if any (λ f. f == r.command.original) found
    then first_missing found rs
    else some r.command.original

-- the loop that drops blank lines at the end
unfoldable pub put_line : Text → List Text → List Text
put_line line [] = if is_nil (trim_space line) then [] else line ∷ []
put_line line (l ∷ ls) = line ∷ l ∷ ls

unfoldable pub drop_blank_end : List Text → List Text
drop_blank_end [] = []
drop_blank_end (line ∷ lines) = put_line line (drop_blank_end lines)

-- `newContent`
unfoldable pub new_content : List Response → Text → Text
new_content rs content =
    join_lines (drop_blank_end (new_lines rs (split_lines content)) ++ ([] ∷ []))

-- What becomes of writing a file: it cannot be opened, or the writing stops after some bytes, of a file
-- that os.WriteFile has truncated.
pub data Writing : Type 0 where
  writes_all refuses : Writing
  stops_after : ℕ → Writing

pub record File : Type 0 where
  pub content : Option Text
  pub writing : Writing

-- os.ReadFile and os.WriteFile
unfoldable pub read_file : File → Result Error Text
read_file f = elim f.content [ none ↦ err read_failed | some content ↦ ok content ]

unfoldable pub write_as : Writing → Text → File → Result Error (Unit {0}) × File
write_as writes_all content f = (ok tt, record f { content = some content })
write_as refuses content f = (err write_failed, f)
write_as (stops_after n) content f =
    (err write_failed, record f { content = some (take n content) })

unfoldable pub write_file : Text → File → Result Error (Unit {0}) × File
unfolding write_as
write_file content f = write_as f.writing content f

unfoldable pub update_content : List Response → Text → File → Result Error (Unit {0}) × File
unfolding write_file
update_content rs content f = elim (first_missing (commands_found rs (split_lines content)) rs) [
  | some original ↦ (err (command_not_found original), f)
  | none ↦
      if content == new_content rs content
      then (ok tt, f)
      else write_file (new_content rs content) f
]

unfoldable pub update_file : List Response → File → Result Error (Unit {0}) × File
unfolding read_file update_content
update_file rs f = elim (read_file f) [
  | err e ↦ (err e, f)
  | ok content ↦ update_content rs content f
]

unfoldable pub handle_response : Option Command → Text → Result Error (Unit {0})
handle_response none response = err command_required
handle_response (some command) [] = err response_required
handle_response (some command) (c ∷ response) = ok tt

module _ {A : Type 0} (get : Text → Option A) (ask : A → Command → Option Text) where
  unfoldable pub process : Command → Result Error Text
  process command = elim (get command.assistant) [
    | none ↦ err no_assistant
    | some assistant ↦ elim (ask assistant command) [
      | none ↦ err process_failed
      | some response ↦ ok response
    ]
  ]

  -- An empty response is dropped, and so its command stays as it is.
  unfoldable pub process_all : List Command → Result Error (List Response)
  process_all [] = ok []
  process_all (command ∷ commands) =
      let rest = process_all commands in
      process command >>= λ response. rest >>= λ responses.
      if is_nil response
      then ok responses
      else ok (record { command = command; response = response } ∷ responses)

  unfoldable pub responses_to : Text → Result Error (List Response)
  responses_to content = elim (parse_commands content) [
    | err e ↦ err (parse_error e)
    | ok commands ↦ process_all commands
  ]

  -- `meanwhile` is what others do to the file while the assistants are asked.
  unfoldable pub process_file : (File → File) → File → Result Error (Unit {0}) × File
  unfolding read_file
  process_file meanwhile f = elim (read_file f) [
    | err e ↦ (err e, f)
    | ok content ↦ elim (responses_to content) [
      | err e ↦ (err e, meanwhile f)
      | ok responses ↦
          let (result, f') = update_file responses (meanwhile f) in (wrap update_failed result, f')
    ]
  ]

-- ===== src/Processor/Rewrite.antt =====
-- What `UpdateFile` does to the command lines of a file.
use mathlib.Core.List.{map-append, append_assoc, append-nil}
use mathlib.Core.Path.{ap₂}
use skylark.Base.{
  ℕ, ◌≡◌, refl, ap, sym, ◌∙◌, true, false, ◌||◌, List, [], ◌∷◌, ◌++◌, Option, none, some, all, any,
  map, arith, keep-append, Bool-cases, ◌==◌, ℕ_eq, List_eq, inl, inr,
}
use skylark.Text.{Text, is_nil, bang, newline}
use skylark.Text.Split.{push_byte}
use skylark.Text.Lines.{
  split_lines, join_lines, one_line, split_lines-one_lines, split_lines-append,
  split_lines-one_line,
}
use skylark.Text.Trim.{
  trim_space, trim_left, trim_right, starts_with_bang, invalidate,
  starts_with_bang-trim_space-invalidate,
}
use skylark.Text.Trim.Keeps.{has_bang, has_bang-trim_space}
use skylark.Parser.Command.Accepts.{command_lines, command_lines_of}
use skylark.Processor.{
  Response, response_for, blank_before, blank_after, new_lines_at, new_lines, drop_blank_end,
  put_line, new_content,
}

command_lines_of-append :
    (ls ms : List Text) → command_lines_of (ls ++ ms) ≡ command_lines_of ls ++ command_lines_of ms
command_lines_of-append ls ms =
    rw map-append (keep-append starts_with_bang (map trim_space ls) (map trim_space ms))

-- The command lines of texts that are joined by newlines.
abbrev commands_in : List Text → List Text
commands_in [] = []
commands_in (l ∷ ls) = command_lines l ++ commands_in ls

commands_in-append : (ls ms : List Text) → commands_in (ls ++ ms) ≡ commands_in ls ++ commands_in ms
commands_in-append [] ms = refl
commands_in-append (l ∷ ls) ms =
    ap (◌++◌ (command_lines l)) (commands_in-append ls ms)
    ∙ sym (append_assoc (command_lines l) _ _)

command_lines-nil : command_lines [] ≡ []
unfolding trim_space trim_left trim_right
command_lines-nil = refl

command_lines-join_lines : (ls : List Text) → command_lines (join_lines ls) ≡ commands_in ls
command_lines-join_lines [] = command_lines-nil
command_lines-join_lines (l ∷ []) = sym (append-nil _)
command_lines-join_lines (l ∷ m ∷ ls) =
    ap command_lines_of (split_lines-append l (join_lines (m ∷ ls)))
    ∙ command_lines_of-append (split_lines l) (split_lines (join_lines (m ∷ ls)))
    ∙ ap (◌++◌ (command_lines l)) (command_lines-join_lines (m ∷ ls))

-- A text with no '!' has no command line.
has_bang-starts_with_bang : (t : Text) → has_bang t ≡ false → starts_with_bang t ≡ false
has_bang-starts_with_bang [] h = refl
has_bang-starts_with_bang (c ∷ t) h = ground arith

has_bang-push_byte :
    (c : ℕ) (ls : List Text)
    → any has_bang (push_byte newline c ls) ≡ (c == bang || any has_bang ls)
has_bang-push_byte c [] = ground arith
has_bang-push_byte c (l ∷ ls) = ground arith

has_bang-split_lines : (s : Text) → any has_bang (split_lines s) ≡ has_bang s
has_bang-split_lines [] = refl
has_bang-split_lines (c ∷ s) =
    ground (arith, has_bang-split_lines s, has_bang-push_byte c (split_lines s))

command_lines_of-no_bang : (ls : List Text) → any has_bang ls ≡ false → command_lines_of ls ≡ []
command_lines_of-no_bang [] h = refl
command_lines_of-no_bang (l ∷ ls) h = ground (
  arith,
  command_lines_of-no_bang ls,
  has_bang-starts_with_bang (trim_space l),
  has_bang-trim_space l,
)

command_lines-blank : (s : Text) → is_nil (trim_space s) ≡ true → command_lines s ≡ []
command_lines-blank s h =
    command_lines_of-no_bang (split_lines s)
      (has_bang-split_lines s ∙ sym (has_bang-trim_space s) ∙ no_bang (trim_space s) h)
  where
    no_bang : (t : Text) → is_nil t ≡ true → has_bang t ≡ false
    no_bang [] e = refl
    no_bang (c ∷ t) e = cc

commands_in-put_line :
    (l : Text) (ls : List Text) → commands_in (put_line l ls) ≡ command_lines l ++ commands_in ls
unfolding put_line
commands_in-put_line l [] = elim (Bool-cases (is_nil (trim_space l))) [
  | inl e ↦ rw (e, command_lines-blank l e)
  | inr e ↦ rw e
]
commands_in-put_line l (m ∷ ls) = refl

commands_in-drop_blank_end : (ls : List Text) → commands_in (drop_blank_end ls) ≡ commands_in ls
unfolding drop_blank_end
commands_in-drop_blank_end [] = refl
commands_in-drop_blank_end (l ∷ ls) =
    commands_in-put_line l (drop_blank_end ls)
    ∙ ap (◌++◌ (command_lines l)) (commands_in-drop_blank_end ls)

one_line-invalidate : (l : Text) → one_line l ≡ true → one_line (invalidate l) ≡ true
one_line-invalidate [] h = refl
one_line-invalidate (c ∷ l) h = ground (arith, one_line-invalidate l)

-- The command line of one line, if it is one.
abbrev command_line : Text → List Text
command_line line = command_lines_of (line ∷ [])

command_lines-one_line : (l : Text) → one_line l ≡ true → command_lines l ≡ command_line l
command_lines-one_line l h = ap command_lines_of (split_lines-one_line l h)

command_lines-invalidate : (l : Text) → one_line l ≡ true → command_lines (invalidate l) ≡ []
command_lines-invalidate l h =
    command_lines-one_line (invalidate l) (one_line-invalidate l h)
    ∙ rw (starts_with_bang-trim_space-invalidate l)

-- What is left of one line: itself, without a response; else the command lines of the response.
abbrev left_of : Option Text → Text → List Text
left_of none line = command_line line
left_of (some response) line = command_lines response

abbrev pub remaining : List Response → List Text → List Text
remaining rs [] = []
remaining rs (line ∷ lines) = left_of (response_for rs (trim_space line)) line ++ remaining rs lines

commands_in-blank_before : (l : Text) → commands_in (blank_before l) ≡ []
commands_in-blank_before l = elim (Bool-cases (is_nil (trim_space l))) [
  | inl e ↦ rw e
  | inr e ↦ rw e (rw command_lines-nil)
]

commands_in-blank_after : (ls : List Text) → commands_in (blank_after ls) ≡ []
commands_in-blank_after [] = refl
commands_in-blank_after (l ∷ ls) = elim (Bool-cases (is_nil (trim_space l))) [
  | inl e ↦ rw e
  | inr e ↦ elim (Bool-cases (starts_with_bang (trim_space l))) [
    | inl f ↦ rw (e, f)
    | inr f ↦ rw (e, f) (rw command_lines-nil)
  ]
]

commands_in-new_lines_at :
    (o : Option Text) (l : Text) (ls : List Text)
    → one_line l ≡ true
    → commands_in (new_lines_at o l ls) ≡ left_of o l
unfolding new_lines_at
commands_in-new_lines_at none l ls h = append-nil _ ∙ command_lines-one_line l h
commands_in-new_lines_at (some r) l ls h =
    rw
      (
        command_lines-invalidate l h,
        commands_in-append (blank_before (invalidate l)) (r ∷ blank_after ls),
        commands_in-blank_before (invalidate l),
        commands_in-blank_after ls,
      )
      (append-nil (command_lines r))

commands_in-new_lines :
    (rs : List Response) (ls : List Text)
    → all one_line ls ≡ true
    → commands_in (new_lines rs ls) ≡ remaining rs ls
unfolding new_lines
commands_in-new_lines rs [] h = refl
commands_in-new_lines rs (l ∷ ls) h =
    commands_in-append (new_lines_at (response_for rs (trim_space l)) l ls) (new_lines rs ls)
    ∙ ap₂ ◌++◌ (commands_in-new_lines_at (response_for rs (trim_space l)) l ls (ground arith))
        (commands_in-new_lines rs ls (ground arith))

-- The command lines of the new content are those that had no response, and those that the
-- responses bring in, in the order of the old lines. No marked line is a command line.
pub command_lines-new_content :
    (rs : List Response) (content : Text)
    → command_lines (new_content rs content) ≡ remaining rs (split_lines content)
unfolding new_content
command_lines-new_content rs content =
    command_lines-join_lines (drop_blank_end lines ++ ([] ∷ []))
    ∙ commands_in-append (drop_blank_end lines) ([] ∷ [])
    ∙ ap₂ ◌++◌ (commands_in-drop_blank_end lines) (append-nil _ ∙ command_lines-nil)
    ∙ append-nil _
    ∙ commands_in-new_lines rs (split_lines content) (split_lines-one_lines content)
  where
    lines : List Text
    lines = new_lines rs (split_lines content)

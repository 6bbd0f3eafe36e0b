-- ===== src/Processor/Settles.antt =====
-- Once `ProcessFile` of pkg/processor/concrete/processor.go has succeeded, the watcher's next pass
-- over the file finds no command, if no response brought one in.
use mathlib.Core.List.{append_assoc}
use mathlib.Core.Path.{ap₂, subst}
use skylark.Base.{
  ◌≡◌, refl, ◌∙◌, true, false, ◌&&◌, List, [], ◌∷◌, ◌++◌, Option, some, all, map, arith, ok, ℕ_eq,
  List_eq, Result-cases, Option-cases, inl, inr, subst,
}
use skylark.Text.{Text, is_nil}
use skylark.Text.Trim.{trim_space}
use skylark.Parser.Command.{Command, parse_commands}
use skylark.Parser.Command.Accepts.{command_lines, command_lines_of, parse_commands-originals}
use skylark.Processor.{
  Response, response_for, answered, process, process_all, responses_to, process_file, split_lines,
  File, new_content,
}
use skylark.Processor.Rewrite.{remaining, command_lines-new_content}
use skylark.Processor.Update.{answered-known, known_self, update_file-ok}

-- No response brings in a command line.
abbrev AllQuiet : List Response → Type 0
AllQuiet [] = Unit {0}
AllQuiet (r ∷ rs) = (command_lines r.response ≡ []) × AllQuiet rs

abbrev originals : List Response → List Text
originals = map (λ r. r.command.original)

response_for-quiet :
    (rs : List Response) (t r : Text)
    → AllQuiet rs
    → response_for rs t ≡ some r
    → command_lines r ≡ []
unfolding response_for
response_for-quiet [] t r q h = cc
response_for-quiet (x ∷ rs) t r q h = ground (arith, response_for-quiet rs t r q.1)

remaining-quiet :
    (rs : List Response) (lines : List Text)
    → AllQuiet rs
    → all (answered rs) (command_lines_of lines) ≡ true
    → remaining rs lines ≡ []
remaining-quiet rs [] q h = refl
remaining-quiet rs (l ∷ lines) q h = elim (Option-cases (response_for rs (trim_space l))) [
  | inl e ↦ rw e (ground (arith, remaining-quiet rs lines q))
  | inr (r, e) ↦
      rw (e, response_for-quiet rs (trim_space l) r q e) (remaining-quiet rs lines q (ground arith))
]

all-answered_self :
    (before rs : List Response) → all (answered (before ++ rs)) (originals rs) ≡ true
all-answered_self before [] = refl
all-answered_self before (r ∷ rs) =
    ap₂ ◌&&◌ (answered-known (before ++ (r ∷ rs)) r.command.original ∙ known_self before rs r)
      (rw append_assoc at (all-answered_self (before ++ (r ∷ [])) rs))

module _ {A : Type 0} (get : Text → Option A) (ask : A → Command → Option Text)
    (quiet : (a : A) (c : Command) (r : Text)
      → ask a c ≡ some r
      → (is_nil r ≡ false) × (command_lines r ≡ [])) where
  process-quiet :
      (c : Command) (r : Text)
      → process get ask c ≡ ok r
      → (is_nil r ≡ false) × (command_lines r ≡ [])
  unfolding process
  process-quiet c r h = elim (Option-cases (get c.assistant)) [
    | inl e ↦ ground arith
    | inr (a, e) ↦ ground (arith, quiet a c r)
  ]

  process_all-quiet :
      (cs : List Command) (rs : List Response)
      → process_all get ask cs ≡ ok rs
      → (originals rs ≡ map (λ c. c.original) cs) × AllQuiet rs
  unfolding process_all
  process_all-quiet [] rs h = ground arith
  process_all-quiet (c ∷ cs) rs h = elim (Result-cases (process get ask c)) [
    | inr (x, e) ↦ ground arith
    | inl (r, e) ↦ elim (Result-cases (process_all get ask cs)) [
      | inr (x, f) ↦ ground arith
      | inl (rs', f) ↦ ground (arith, process-quiet c r e, process_all-quiet cs rs' f)
    ]
  ]

  remaining-responses :
      (content : Text) (rs : List Response)
      → responses_to get ask content ≡ ok rs
      → remaining rs (split_lines content) ≡ []
  unfolding responses_to
  remaining-responses content rs h = elim (Result-cases (parse_commands content)) [
    | inr (x, e) ↦ ground arith
    | inl (cs, e) ↦
        let all_quiet = process_all-quiet cs rs (ground arith) in
        remaining-quiet rs (split_lines content) all_quiet.1 (
          subst (λ ls. all (answered rs) ls ≡ true)
            (all_quiet.0 ∙ parse_commands-originals content cs e) (all-answered_self [] rs))
  ]

  -- If ProcessFile succeeds, the file that it leaves has no command line, when nothing else wrote
  -- the file in the meantime and no response is empty or has a command line of its own.
  pub process_file_settles :
      (f : File)
      → (process_file get ask (λ g. g) f).0 ≡ ok tt
      → (content : Text) × ((process_file get ask (λ g. g) f).1.content ≡ some content)
        × (command_lines content ≡ [])
  unfolding process_file
  process_file_settles f h = elim (Option-cases f.content) [
    | inl e ↦ ground arith
    | inr (content, e) ↦ elim (Result-cases (responses_to get ask content)) [
      | inr (x, k) ↦ ground arith
      | inl (rs, k) ↦ (
        new_content rs content,
        ground (arith, update_file-ok rs f content e),
        command_lines-new_content rs content ∙ remaining-responses content rs k,
      )
    ]
  ]

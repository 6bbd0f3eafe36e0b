-- ===== src/Processor/Idle.antt =====
-- A pass of `ProcessFile` over a file with no command.
use skylark.Base.{
  false, ◌≡◌, refl, ap, sym, ◌∙◌, ◌≢◌, Bool, true, List, [], ◌∷◌, ◌++◌, Option, all, map, arith,
  all-append, Bool-cases, ok, ==_iff, ℕ_eq, List_eq, Result-cases, inl, inr, Result, wrap,
}
use skylark.Text.{Text, is_nil}
use skylark.Text.Lines.{
  split_lines, join_lines, one_line, split_lines-one_lines, split_lines-join_lines,
}
use skylark.Text.Trim.{trim_space, trim_left, trim_right}
use skylark.Parser.Command.{Command, parse_commands}
use skylark.Parser.Command.Accepts.{
  command_lines, command_lines_of, parse_commands-fits, parse_commands-originals,
}
use skylark.Processor.{
  File, Error, update_failed, response_for, put_line, drop_blank_end, new_lines, new_lines_at,
  new_content, update_file, process_all, responses_to, process_file, Error, update_failed,
  first_missing,
}
use skylark.Processor.Update.{holding}
use skylark.Processor.Rewrite.{remaining, command_lines-new_content}

new_lines-none : (lines : List Text) → new_lines [] lines ≡ lines
unfolding new_lines new_lines_at response_for
new_lines-none [] = refl
new_lines-none (l ∷ lines) = ap (◌∷◌ l) (new_lines-none lines)

all-put_line :
    (p : Text → Bool) (l : Text) (ls : List Text)
    → p l ≡ true
    → all p ls ≡ true
    → all p (put_line l ls) ≡ true
unfolding put_line
all-put_line p l [] h k = ground arith
all-put_line p l (m ∷ ls) h k = ground arith

all-drop_blank_end :
    (p : Text → Bool) (ls : List Text) → all p ls ≡ true → all p (drop_blank_end ls) ≡ true
unfolding drop_blank_end
all-drop_blank_end p [] h = refl
all-drop_blank_end p (l ∷ ls) h =
    all-put_line p l (drop_blank_end ls) (ground arith) (all-drop_blank_end p ls (ground arith))

put_line-drop :
    (l : Text) (ls : List Text)
    → drop_blank_end ls ≡ ls
    → drop_blank_end (put_line l ls) ≡ put_line l ls
unfolding put_line drop_blank_end
put_line-drop l [] h = elim (Bool-cases (is_nil (trim_space l))) [
  | inl e ↦ rw e
  | inr e ↦ rw e (rw e)
]
put_line-drop l (m ∷ ls) h = ap (put_line l) h

-- Dropping the blank lines at the end twice is dropping them once.
drop_blank_end_idem : (ls : List Text) → drop_blank_end (drop_blank_end ls) ≡ drop_blank_end ls
unfolding drop_blank_end
drop_blank_end_idem [] = refl
drop_blank_end_idem (l ∷ ls) = put_line-drop l (drop_blank_end ls) (drop_blank_end_idem ls)

drop_blank_end-append_blank :
    (ls : List Text) → drop_blank_end (ls ++ ([] ∷ [])) ≡ drop_blank_end ls
unfolding drop_blank_end put_line trim_space trim_left trim_right
drop_blank_end-append_blank [] = refl
drop_blank_end-append_blank (l ∷ ls) = ap (put_line l) (drop_blank_end-append_blank ls)

new_content-none :
    (content : Text)
    → new_content [] content ≡ join_lines (drop_blank_end (split_lines content) ++ ([] ∷ []))
unfolding new_content
new_content-none content =
    ap (λ ls. join_lines (drop_blank_end ls ++ ([] ∷ []))) (new_lines-none (split_lines content))

append_blank-ne-nil : (ls : List Text) → ls ++ ([] ∷ []) ≢ []
append_blank-ne-nil [] h = cc
append_blank-ne-nil (l ∷ ls) h = cc

split_lines-new_content :
    (content : Text)
    → split_lines (new_content [] content) ≡ drop_blank_end (split_lines content) ++ ([] ∷ [])
split_lines-new_content content =
    ap split_lines (new_content-none content)
    ∙ split_lines-join_lines (drop_blank_end (split_lines content) ++ ([] ∷ []))
        (append_blank-ne-nil (drop_blank_end (split_lines content)))
        (all-append one_line (drop_blank_end (split_lines content)) ([] ∷ [])
          ∙ rw (all-drop_blank_end one_line (split_lines content) (split_lines-one_lines content)))

-- Without responses, a second update finds nothing to change.
new_content_idem :
    (content : Text) → new_content [] (new_content [] content) ≡ new_content [] content
new_content_idem content =
    new_content-none (new_content [] content)
    ∙ ap (λ ls. join_lines (drop_blank_end ls ++ ([] ∷ []))) (split_lines-new_content content)
    ∙ ap (λ ls. join_lines (ls ++ ([] ∷ [])))
        (drop_blank_end-append_blank (drop_blank_end (split_lines content))
          ∙ drop_blank_end_idem (split_lines content))
    ∙ sym (new_content-none content)

parse_commands-none : (content : Text) → command_lines content ≡ [] → parse_commands content ≡ ok []
parse_commands-none content h = elim (Result-cases (parse_commands content)) [
  | inr (x, e) ↦ ground (arith, parse_commands-fits content, h)
  | inl (cs, e) ↦ e ∙ ap ok (no_commands cs (parse_commands-originals content cs e ∙ h))
]
  where
    no_commands : (cs : List Command) → map (λ c. c.original) cs ≡ [] → cs ≡ []
    no_commands [] k = refl
    no_commands (c ∷ cs) k = cc

update_file-none :
    (content : Text) → update_file [] (holding content) ≡ (ok tt, holding (new_content [] content))
unfolding update_file first_missing
update_file-none content = ground (arith, ==_iff content (new_content [] content))

-- The last line is not blank.
abbrev EndsFull : List Text → Type 0
EndsFull [] = Unit {0}
EndsFull (l ∷ []) = is_nil (trim_space l) ≡ false
EndsFull (l ∷ m ∷ ls) = EndsFull (m ∷ ls)

-- The lines of the second text are those of the first but for the blank ones at its end, and an empty
-- one, which follows the last newline.
pub record IsTrimmed (content after : Text) : Type 0 where
  kept : List Text
  blanks : List Text
  before : split_lines content ≡ kept ++ blanks
  all_blank : all (λ l. is_nil (trim_space l)) blanks ≡ true
  full : EndsFull kept
  behind : split_lines after ≡ kept ++ ([] ∷ [])

put_line-split :
    (l : Text) (ls blanks : List Text)
    → all (λ b. is_nil (trim_space b)) blanks ≡ true
    → (bs : List Text) × (l ∷ (ls ++ blanks) ≡ put_line l ls ++ bs)
      × (all (λ b. is_nil (trim_space b)) bs ≡ true)
unfolding put_line
put_line-split l [] blanks h = elim (Bool-cases (is_nil (trim_space l))) [
  | inl e ↦ (l ∷ blanks, rw e refl, rw e h)
  | inr e ↦ (blanks, rw e refl, h)
]
put_line-split l (m ∷ ls) blanks h = (blanks, refl, h)

drop_blank_end-split :
    (ls : List Text)
    → (bs : List Text) × (ls ≡ drop_blank_end ls ++ bs)
      × (all (λ b. is_nil (trim_space b)) bs ≡ true)
unfolding drop_blank_end
drop_blank_end-split [] = ([], refl, refl)
drop_blank_end-split (l ∷ ls) =
    let rest = drop_blank_end-split ls in
    let here = put_line-split l (drop_blank_end ls) rest.0 rest.2 in
    (here.0, ap (◌∷◌ l) rest.1 ∙ here.1, here.2)

put_line-EndsFull : (l : Text) (ls : List Text) → EndsFull ls → EndsFull (put_line l ls)
unfolding put_line
put_line-EndsFull l [] f = elim (Bool-cases (is_nil (trim_space l))) [
  | inl e ↦ rw e tt
  | inr e ↦ rw e e
]
put_line-EndsFull l (m ∷ ls) f = f

drop_blank_end-EndsFull : (ls : List Text) → EndsFull (drop_blank_end ls)
unfolding drop_blank_end
drop_blank_end-EndsFull [] = tt
drop_blank_end-EndsFull (l ∷ ls) =
    put_line-EndsFull l (drop_blank_end ls) (drop_blank_end-EndsFull ls)

new_content-IsTrimmed : (content : Text) → IsTrimmed content (new_content [] content)
new_content-IsTrimmed content =
    let s = drop_blank_end-split (split_lines content) in
    record {
      kept = drop_blank_end (split_lines content);
      blanks = s.0;
      before = s.1;
      all_blank = s.2;
      full = drop_blank_end-EndsFull (split_lines content);
      behind = split_lines-new_content content;
    }

-- Without responses all command lines remain.
remaining-none : (ls : List Text) → remaining [] ls ≡ command_lines_of ls
unfolding response_for
remaining-none [] = refl
remaining-none (l ∷ ls) = ground (arith, remaining-none ls)

module _ {A : Type 0} (get : Text → Option A) (ask : A → Command → Option Text) where
  responses_to-none :
      (content : Text) → command_lines content ≡ [] → responses_to get ask content ≡ ok []
  unfolding responses_to process_all
  responses_to-none content h = rw (parse_commands-none content h, responses_to)

  first_pass :
      (content : Text)
      → command_lines content ≡ []
      → process_file get ask (λ g. g) (holding content) ≡ (ok tt, holding (new_content [] content))
  unfolding process_file
  first_pass content h =
      rw (responses_to-none content h, process_file)
        (ap (λ (r : Result Error (Unit {0}) × File). (wrap update_failed r.0, r.1))
          (update_file-none content))

  -- A pass of ProcessFile over a file with no command line, which can be written, only takes the blank
  -- lines at its end away and ends its last line, whatever the assistants are; and the pass after that
  -- succeeds and leaves the file as it is.
  pub process_file_idle :
      (content : Text)
      → command_lines content ≡ []
      → (after : Text) × (process_file get ask (λ g. g) (holding content) ≡ (ok tt, holding after))
        × IsTrimmed content after
        × (process_file get ask (λ g. g) (holding after) ≡ (ok tt, holding after))
  process_file_idle content h = (
    new_content [] content,
    first_pass content h,
    new_content-IsTrimmed content,
    first_pass (new_content [] content)
          (command_lines-new_content [] content ∙ remaining-none (split_lines content) ∙ h)
        ∙ ap (λ text. (ok tt, holding text)) (new_content_idem content),
  )

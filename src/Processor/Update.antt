-- ===== src/Processor/Update.antt =====
-- When `UpdateFile` of pkg/processor/concrete/processor.go succeeds, and what the file holds then.
use mathlib.Core.Path.{ap₂}
use mathlib.Core.List.{append_assoc}
use skylark.Base.{
  Option-cases, if-cases, ap, ◌∙◌, ℕ, take, false, ◌⊎◌, Result, ok, err, ◌≡◌, refl, Bool, true,
  ◌&&◌, List, [], ◌∷◌, ◌++◌, none, some, all, any, map, keep, arith, Bool-cases, is_ok, ◌==◌,
  ==_iff, ==_refl, ℕ_eq, List_eq, inl, ◌↔◌, inr,
}
use skylark.Text.{Text}
use skylark.Text.Lines.{split_lines}
use skylark.Text.Trim.{trim_space}
use skylark.Processor.{
  Writing, writes_all, refuses, stops_after, write_as, write_file, read_file, update_content,
  write_failed, Error, Response, File, answered, response_for, commands_found, first_missing,
  new_content, update_file,
}

-- A trimmed line is the command of some response.
abbrev pub known : List Response → Text → Bool
known rs t = any (λ r. t == r.command.original) rs

-- The command of a response is a line of the file.
abbrev pub present : List Text → Response → Bool
present lines r = any (λ t. t == r.command.original) (map trim_space lines)

pub answered-known : (rs : List Response) (t : Text) → answered rs t ≡ known rs t
unfolding response_for
answered-known [] t = refl
answered-known (r ∷ rs) t = ground (arith, answered-known rs t)

any-keep-answered :
    (rs : List Response) (o : Text) (ts : List Text)
    → known rs o ≡ true
    → any (λ t. t == o) (keep (answered rs) ts) ≡ any (λ t. t == o) ts
any-keep-answered rs o [] h = refl
any-keep-answered rs o (t ∷ ts) h = elim (Bool-cases (t == o)) [
  | inl e ↦ ground (arith, ==_iff t o, answered-known rs t, any-keep-answered rs o ts h)
  | inr e ↦ ground (arith, any-keep-answered rs o ts h)
]

pub known_self :
    (before rs : List Response) (r : Response)
    → known (before ++ (r ∷ rs)) r.command.original ≡ true
known_self [] rs r = rw (==_refl r.command.original)
known_self (x ∷ before) rs r = ground (arith, known_self before rs r)

-- The command of a response is among the lines that were found.
abbrev found_in : List Text → Response → Bool
found_in found r = any (λ f. f == r.command.original) found

first_missing-found :
    (found : List Text) (rs : List Response)
    → (first_missing found rs ≡ none) ↔ (all (found_in found) rs ≡ true)
unfolding first_missing
first_missing-found found [] = (λ h. refl, λ h. refl)
first_missing-found found (r ∷ rs) = (
  λ h. ground (arith, first_missing-found found rs),
  λ h. ground (arith, first_missing-found found rs),
)

found_in-present :
    (lines : List Text) (before rs : List Response)
    → all (found_in (commands_found (before ++ rs) lines)) rs ≡ all (present lines) rs
unfolding commands_found
found_in-present lines before [] = refl
found_in-present lines before (r ∷ rs) =
    ap₂ ◌&&◌
      (any-keep-answered (before ++ (r ∷ rs)) r.command.original (map trim_space lines)
        (known_self before rs r))
      (rw append_assoc at (found_in-present lines (before ++ (r ∷ [])) rs))

-- The file as ReadFile and WriteFile see it is there, and can be written.
abbrev pub holding : Text → File
holding content = record { content = some content; writing = writes_all }

-- UpdateFile succeeds, on a file that can be read and written, exactly when the command of each
-- response is a line of it.
pub update_file-present :
    (rs : List Response) (content : Text)
    → is_ok (update_file rs (holding content)).0 ≡ all (present (split_lines content)) rs
unfolding update_file
update_file-present rs content = ground (
  arith,
  first_missing-found (commands_found rs (split_lines content)) rs,
  found_in-present (split_lines content) [] rs,
)

-- What an update has made of a file, with its result.
abbrev pub IsUpdated : List Response → Text → Writing → Result Error (Unit {0}) × File → Type 0
IsUpdated rs content writing r =
    ((r.0 ≡ ok tt) × (r.1.content ≡ some (new_content rs content)))
    ⊎ (((is_ok r.0 ≡ false) × (r.1.content ≡ some content))
        ⊎ ((n : ℕ) × (writing ≡ stops_after n)
            × (r.0 ≡ err write_failed)
            × (r.1.content ≡ some (take n (new_content rs content)))))

write_as-IsUpdated :
    (rs : List Response) (content : Text) (w : Writing) (f : File)
    → f.content ≡ some content
    → f.writing ≡ w
    → IsUpdated rs content f.writing (write_as w (new_content rs content) f)
unfolding write_as
write_as-IsUpdated rs content writes_all f h w = inl (refl, refl)
write_as-IsUpdated rs content refuses f h w = inr (inl (refl, h))
write_as-IsUpdated rs content (stops_after n) f h w = inr (inr (n, w, refl, refl))

update_content-IsUpdated :
    (rs : List Response) (content : Text) (f : File)
    → f.content ≡ some content
    → IsUpdated rs content f.writing (update_content rs content f)
unfolding update_content write_file
update_content-IsUpdated rs content f h =
    elim (Option-cases (first_missing (commands_found rs (split_lines content)) rs)) [
      | inr (original, e) ↦ rw (e, update_content) (inr (inl (refl, h)))
      | inl e ↦
          rw (e, update_content)
            (if-cases (IsUpdated rs content f.writing) (content == new_content rs content) _ _
              (λ same. inl (refl, h ∙ ap some ((==_iff content (new_content rs content)).0 same)))
              (λ other. write_as-IsUpdated rs content f.writing f h refl))
    ]

-- If UpdateFile succeeds, the file holds the new content; if it fails, the file is what it was, unless
-- the writing has stopped after some bytes, and then the error says so and the file holds those bytes
-- of the new content.
pub update_file-content :
    (rs : List Response) (f : File) (content : Text)
    → f.content ≡ some content
    → IsUpdated rs content f.writing (update_file rs f)
unfolding update_file read_file
update_file-content rs f content h = rw (h, update_file) (update_content-IsUpdated rs content f h)

pub update_file-ok :
    (rs : List Response) (f : File) (content : Text)
    → f.content ≡ some content
    → is_ok (update_file rs f).0 ≡ true
    → (update_file rs f).1.content ≡ some (new_content rs content)
update_file-ok rs f content h k = elim (update_file-content rs f content h) [
  | inl u ↦ u.1
  | inr (inl u) ↦ absurd (cc (k, u.0))
  | inr (inr u) ↦ absurd (cc (k, u.2))
]

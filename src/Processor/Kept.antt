-- ===== src/Processor/Kept.antt =====
-- What `UpdateFile` of pkg/processor/concrete/processor.go keeps of the lines of a file.
use mathlib.Core.List.{Sublistᴰ, append_assoc}
use mathlib.Core.List.Sublistᴰ.{slnil, cons, cons-cons}
use skylark.Base.{
  ◌≡◌, refl, ap, ◌∙◌, Bool, not, List, [], ◌∷◌, ◌++◌, Option, none, some, map, keep, if◌then◌else◌,
  Bool-cases, ℕ_eq, List_eq, inl, inr,
}
use skylark.Text.{Text, is_nil}
use skylark.Text.Lines.{split_lines, join_lines}
use skylark.Text.Trim.{trim_space, invalidate}
use skylark.Processor.{
  Response, response_for, put_line, drop_blank_end, new_lines, new_lines_at, blank_before,
  blank_after, new_content,
}

-- A line with a response gets its mark; any other stays.
abbrev mark : Option Text → Text → Text
mark none line = line
mark (some response) line = invalidate line

abbrev pub marked : List Response → Text → Text
marked rs line = mark (response_for rs (trim_space line)) line

abbrev pub has_text : Text → Bool
has_text line = not (is_nil (trim_space line))

sublist-append {ℓ} : {A : Type ℓ} (zs xs ys : List A) → Sublistᴰ xs ys → Sublistᴰ xs (zs ++ ys)
sublist-append [] xs ys s = s
sublist-append (z ∷ zs) xs ys s = cons (sublist-append zs xs ys s)

sublist-keep {ℓ} :
    {A : Type ℓ} (p : A → Bool) {xs ys : List A} → Sublistᴰ xs ys → Sublistᴰ (keep p xs) (keep p ys)
sublist-keep p slnil = slnil
sublist-keep p (cons {a = a} s) = elim (Bool-cases (p a)) [
  | inl e ↦ rw e (cons (sublist-keep p s))
  | inr e ↦ rw e (sublist-keep p s)
]
sublist-keep p (cons-cons {a = a} {b = b} h s) = elim (Bool-cases (p b)) [
  | inl e ↦ rw (h, e) (cons-cons refl (sublist-keep p s))
  | inr e ↦ rw (h, e) (sublist-keep p s)
]

sublist-new_lines :
    (rs : List Response) (lines : List Text) → Sublistᴰ (map (marked rs) lines) (new_lines rs lines)
unfolding new_lines
sublist-new_lines rs [] = slnil
sublist-new_lines rs (l ∷ lines) =
    at_line (response_for rs (trim_space l)) (sublist-new_lines rs lines)
  where
    at_line :
        (o : Option Text)
        → Sublistᴰ (map (marked rs) lines) (new_lines rs lines)
        → Sublistᴰ (mark o l ∷ map (marked rs) lines) (new_lines_at o l lines ++ new_lines rs lines)
    at_line none s = cons-cons refl s
    at_line (some r) s = cons-cons refl (
        rw append_assoc (
          sublist-append (blank_before (invalidate l)) _ _
            (cons (sublist-append (blank_after lines) _ _ s))))

keep-put_line : (l : Text) (ls : List Text) → keep has_text (put_line l ls) ≡ keep has_text (l ∷ ls)
unfolding put_line
keep-put_line l [] = elim (Bool-cases (is_nil (trim_space l))) [
  | inl e ↦ rw e
  | inr e ↦ rw e (rw e)
]
keep-put_line l (m ∷ ls) = refl

keep-drop_blank_end : (ls : List Text) → keep has_text (drop_blank_end ls) ≡ keep has_text ls
unfolding drop_blank_end
keep-drop_blank_end [] = refl
keep-drop_blank_end (l ∷ ls) =
    keep-put_line l (drop_blank_end ls)
    ∙ ap (λ rest. if has_text l then l ∷ rest else rest) (keep-drop_blank_end ls)

-- The lines that UpdateFile writes, before the last newline, hold each line of the file that is not
-- blank, in order; a line that has a response only gets its mark.
pub new_content-sublist :
    (rs : List Response) (content : Text)
    → (written : List Text) × (new_content rs content ≡ join_lines (written ++ ([] ∷ [])))
      × Sublistᴰ (keep has_text (map (marked rs) (split_lines content))) (keep has_text written)
unfolding new_content
new_content-sublist rs content = (
  drop_blank_end (new_lines rs (split_lines content)),
  refl,
  rw (keep-drop_blank_end (new_lines rs (split_lines content)))
      (sublist-keep has_text (sublist-new_lines rs (split_lines content))),
)

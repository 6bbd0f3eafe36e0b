-- ===== src/Text/Lines.antt =====
-- Splitting a text at its newlines, and joining lines.
use skylark.Base.{◌≡◌, ◌≢◌, Bool, true, List, [], ◌∷◌, ◌++◌, all}
use skylark.Text.{Text, newline}
use skylark.Text.Split.{
  split_on, join_on, lacks, split_on-lacks, split_on-join_on, split_on-all_lack, split_on-append,
}

-- strings.Split(s, "\n")
abbrev pub split_lines : Text → List Text
split_lines = split_on newline

-- strings.Join(lines, "\n")
abbrev pub join_lines : List Text → Text
join_lines = join_on newline

-- No byte of the text is a newline.
abbrev pub one_line : Text → Bool
one_line = lacks newline

pub split_lines-one_line : (l : Text) → one_line l ≡ true → split_lines l ≡ l ∷ []
split_lines-one_line = split_on-lacks newline

pub split_lines-join_lines :
    (ls : List Text) → ls ≢ [] → all one_line ls ≡ true → split_lines (join_lines ls) ≡ ls
split_lines-join_lines = split_on-join_on newline

pub split_lines-one_lines : (s : Text) → all one_line (split_lines s) ≡ true
split_lines-one_lines = split_on-all_lack newline

pub split_lines-append :
    (s t : Text) → split_lines (s ++ (newline ∷ t)) ≡ split_lines s ++ split_lines t
split_lines-append = split_on-append newline

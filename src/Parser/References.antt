-- ===== src/Parser/References.antt =====
-- `ParseReferences` of pkg/parser/parser.go: the matches of `#\s*([^#\n]+?)(?:\s*#|$)`, in order.
pub mod Search
use skylark.Base.{
  ℕ, zero, suc, Bool, false, not, ◌||◌, List, [], ◌∷◌, Option, none, some, any, length, ◌==◌,
  if◌then◌else◌, ℕ_eq, List_eq,
}
use skylark.Text.{Text, newline, hash, span}
use skylark.Text.Trim.{trim_space}

-- `\s` of package regexp: '\t', '\n', '\f', '\r', ' '
abbrev pub re_space : ℕ → Bool
re_space c = c == 9 || c == 10 || c == 12 || c == 13 || c == 32

-- `[^#\n]`
abbrev body_byte : ℕ → Bool
body_byte c = not (c == hash || c == newline)

-- `(?:\s*#|$)` at the front of a text: what stands behind the match
abbrev close_with : Text → Option Text
close_with [] = none
close_with (c ∷ s) = if c == hash then some s else none

close : Text → Option Text
close [] = some []
close (c ∷ s) = close_with (span re_space (c ∷ s)).1

-- `([^#\n]+?)(?:\s*#|$)`: the shortest body that a close follows, and what stands behind the match
match_body : Text → Option (Text × Text)
unfolding close
match_body [] = none
match_body (c ∷ s) =
    if body_byte c
    then elim (close s) [
      | some rest ↦ some (c ∷ [], rest)
      | none ↦ elim (match_body s) [ none ↦ none | some (b, rest) ↦ some (c ∷ b, rest) ]
    ]
    else none

-- `\s*` before the body gives bytes back where no body follows it: the last that is no newline, before
-- a '#', or the last byte, at the end of the text, is then the body.
abbrev blank_body : Text → Bool
blank_body = any (λ c. not (c == newline))

abbrev last_is_body : Text → Bool
last_is_body [] = false
last_is_body (c ∷ []) = not (c == newline)
last_is_body (c ∷ d ∷ s) = last_is_body (d ∷ s)

-- The match behind a '#' and some white space: its group, trimmed, and the text behind it.
match_behind : Text → Text → Option (Text × Text)
match_behind spaces [] = if last_is_body spaces then some ([], []) else none
match_behind spaces (c ∷ rest) =
    if c == hash
    then (if blank_body spaces then some ([], rest) else none)
    else elim (match_body (c ∷ rest)) [ none ↦ none | some (b, t) ↦ some (trim_space b, t) ]

unfoldable pub match_reference : Text → Option (Text × Text)
unfolding match_behind match_body
match_reference s = let (spaces, rest) = span re_space s in match_behind spaces rest

-- FindAllStringSubmatch: each search begins behind the last match. Every round takes a byte at least.
unfoldable pub find_all : ℕ → Text → List Text
find_all zero s = []
find_all (suc fuel) [] = []
find_all (suc fuel) (c ∷ s) =
    if c == hash
    then elim (match_reference s) [
      | none ↦ find_all fuel s
      | some (r, rest) ↦ r ∷ find_all fuel rest
    ]
    else find_all fuel s

unfoldable pub parse_references : Text → List Text
unfolding find_all match_reference
parse_references s = find_all (suc (length s)) s

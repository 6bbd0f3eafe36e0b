-- ===== src/Text.antt =====
-- Go's strings, and the functions of package `strings` that the program calls. A text is the list of
-- its bytes, so `len` and slices count what Go counts. `to_lower` changes the letters of ASCII only.
pub mod Split
pub mod Lines
pub mod Prefix
pub mod Trim
use Prim.Native.Char.{code}
use Prim.Native.String
use skylark.Base.{
  ℕ, ◌+◌, ◌≡◌, refl, String, Bool, true, false, ◌&&◌, ◌||◌, List, [], ◌∷◌, ◌++◌, Option, none, some,
  map, leb, arith, ◌==◌, if◌then◌else◌, ℕ_eq, List_eq,
}

abbrev pub Text : Type 0
Text = List ℕ

-- The bytes of a literal in ASCII.
abbrev pub bytes : String → Text
bytes String.[] = []
bytes (String.◌∷◌ c s) = code c ∷ bytes s

abbrev pub newline : ℕ
newline = 10

abbrev pub bang : ℕ
bang = 33

abbrev pub hash : ℕ
hash = 35

-- strings.HasPrefix(s, p)
abbrev pub has_prefix : Text → Text → Bool
has_prefix s [] = true
has_prefix [] (c ∷ p) = false
has_prefix (a ∷ s) (c ∷ p) = a == c && has_prefix s p

-- strings.HasSuffix(s, p)
abbrev pub has_suffix : Text → Text → Bool
has_suffix [] p = has_prefix [] p
has_suffix (a ∷ s) p = (a ∷ s) == p || has_suffix s p

-- strings.Contains(s, p)
abbrev pub contains : Text → Text → Bool
contains [] p = has_prefix [] p
contains (a ∷ s) p = has_prefix (a ∷ s) p || contains s p

abbrev pub lower_byte : ℕ → ℕ
lower_byte c = if leb b'A' c && leb c b'Z' then c + 32 else c

-- strings.ToLower(s)
abbrev pub to_lower : Text → Text
to_lower = map lower_byte

-- strings.Replace(s, old, new, 1), for `old` of one byte
abbrev pub replace_first : ℕ → Text → Text → Text
replace_first old new [] = []
replace_first old new (c ∷ s) = if c == old then new ++ s else c ∷ replace_first old new s

-- strings.Count(s, c), for `c` of one byte
abbrev pub count_byte : ℕ → Text → ℕ
count_byte c [] = 0
count_byte c (a ∷ s) = (if a == c then 1 else 0) + count_byte c s

-- The longest prefix whose bytes pass a test, and the rest.
abbrev pub span : (ℕ → Bool) → Text → Text × Text
span p [] = ([], [])
span p (c ∷ s) = let (taken, rest) = span p s in if p c then (c ∷ taken, rest) else ([], c ∷ s)

abbrev pub is_nil : Text → Bool
is_nil [] = true
is_nil (c ∷ s) = false

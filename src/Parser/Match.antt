-- ===== src/Parser/Match.antt =====
-- `MatchBlocks`, `normalizeText` and the warnings of pkg/parser/parser.go.
use skylark.Base.{
  ℕ, ◌≡◌, refl, ap, sym, ◌∙◌, Bool, true, false, ◌&&◌, ◌||◌, List, [], ◌∷◌, ◌++◌, keep, map, leb,
  arith, ◌==◌, ℕ_eq, List_eq, if◌then◌else◌, keep-append,
}
use skylark.Text.{Text, to_lower, lower_byte, contains, has_prefix}
use skylark.Text.Trim.{trim_space}
use skylark.Parser.Block.{Block}
use skylark.Parser.References.{re_space}
use mathlib.Core.Path.{ap₂}

-- `\w` of package regexp
abbrev word_byte : ℕ → Bool
word_byte c =
    (leb b'0' c && leb c b'9')
    || (leb b'A' c && leb c b'Z')
    || c == b'_'
    || (leb b'a' c && leb c b'z')

-- `[^\w\s]` becomes a space. A rune of several bytes becomes several, which are one after `collapse`.
unfoldable punctuation_to_space : Text → Text
punctuation_to_space = map (λ c. if word_byte c || re_space c then c else 32)

-- `\s+` becomes a space; the flag says that the byte before was white space.
unfoldable collapse : Bool → Text → Text
collapse after_space [] = []
collapse after_space (c ∷ s) =
    (if re_space c then (if after_space then [] else 32 ∷ []) else c ∷ [])
    ++ collapse (re_space c) s

unfoldable pub normalize_text : Text → Text
unfolding punctuation_to_space collapse
normalize_text text = trim_space (collapse false (punctuation_to_space (to_lower text)))

pub data Warning : Type 0 where
  no_blocks_matched : Text → Warning

abbrev pub matches : Text → Block → Bool
matches ref b = contains (normalize_text b.content) (normalize_text ref)

-- A query that finds nothing adds a warning.
unfoldable report : List Warning → Text → List Block → List Warning × List Block
report warnings ref [] = (warnings ++ (no_blocks_matched ref ∷ []), [])
report warnings ref (b ∷ bs) = (warnings, b ∷ bs)

-- The parser's warnings, and the blocks that match.
unfoldable match_blocks : List Warning → List Block → Text → List Warning × List Block
match_blocks warnings blocks ref = report warnings ref (keep (matches ref) blocks)

lower_byte_idem : (c : ℕ) → lower_byte (lower_byte c) ≡ lower_byte c
lower_byte_idem c = ground arith

to_lower_idem : (t : Text) → to_lower (to_lower t) ≡ to_lower t
to_lower_idem [] = refl
to_lower_idem (c ∷ t) = ap₂ ◌∷◌ (lower_byte_idem c) (to_lower_idem t)

normalize_text-to_lower : (t : Text) → normalize_text (to_lower t) ≡ normalize_text t
unfolding normalize_text
normalize_text-to_lower t =
    ap (λ s. trim_space (collapse false (punctuation_to_space s))) (to_lower_idem t)

has_prefix_refl : (t : Text) → has_prefix t t ≡ true
has_prefix_refl [] = refl
has_prefix_refl (c ∷ t) = ground (arith, has_prefix_refl t)

contains_refl : (t : Text) → contains t t ≡ true
contains_refl [] = refl
contains_refl (c ∷ t) = ground (arith, has_prefix_refl (c ∷ t))

matches_self : (b : Block) (ref : Text) → to_lower ref ≡ to_lower b.content → matches ref b ≡ true
matches_self b ref h = rw same (contains_refl (normalize_text b.content))
  where
    same : normalize_text ref ≡ normalize_text b.content
    same =
        sym (normalize_text-to_lower ref) ∙ ap normalize_text h ∙ normalize_text-to_lower b.content

report-found :
    (warnings : List Warning) (ref : Text) (xs ys : List Block) (b : Block)
    → report warnings ref (xs ++ (b ∷ ys)) ≡ (warnings, xs ++ (b ∷ ys))
unfolding report
report-found warnings ref [] ys b = refl
report-found warnings ref (x ∷ xs) ys b = refl

-- A block is found by its own text, in any letter case, wherever it stands among the blocks, and
-- then no warning is added.
match_blocks_self :
    (warnings : List Warning) (before behind : List Block) (b : Block) (ref : Text)
    → to_lower ref ≡ to_lower b.content
    → match_blocks warnings (before ++ (b ∷ behind)) ref
      ≡ (warnings, keep (matches ref) before ++ (b ∷ keep (matches ref) behind))
unfolding match_blocks
match_blocks_self warnings before behind b ref h =
    ap (report warnings ref) (
      keep-append (matches ref) before (b ∷ behind)
      ∙ ap (λ found. keep (matches ref) before ++ found) (rw (matches_self b ref h)))
    ∙ report-found warnings ref (keep (matches ref) before) (keep (matches ref) behind) b

-- ===== src/Text/Trim.antt =====
-- strings.TrimSpace over UTF-8: the white space of Unicode, in one, two or three bytes.
pub mod Keeps
use skylark.Base.{
  ℕ, Bool, true, false, ◌&&◌, ◌||◌, [], ◌∷◌, leb, ◌==◌, if◌then◌else◌, ℕ_eq, List_eq, ◌≡◌, arith,
  refl, ◌<◌, Bool-cases, inl, inr, ◌∙◌, ap,
}
use skylark.Text.{Text, is_nil, has_prefix, replace_first, bang}

pub data Width : Type 0 where
  other one two three : Width

-- '\t', '\n', '\v', '\f', '\r', ' '
abbrev pub ascii_space : ℕ → Bool
ascii_space c = (leb 9 c && leb c 13) || c == 32

-- U+0085 and U+00A0
abbrev space_two : ℕ → ℕ → Bool
space_two a b = a == 0xc2 && (b == 0x85 || b == 0xa0)

-- U+1680, U+2000 to U+200A, U+2028, U+2029, U+202F, U+205F and U+3000
abbrev space_three : ℕ → ℕ → ℕ → Bool
space_three a b c =
    (a == 0xe1 && b == 0x9a && c == 0x80)
    || (a == 0xe2
        && b == 0x80
        && ((leb 0x80 c && leb c 0x8a) || c == 0xa8 || c == 0xa9 || c == 0xaf))
    || (a == 0xe2 && b == 0x81 && c == 0x9f)
    || (a == 0xe3 && b == 0x80 && c == 0x80)

-- How many bytes the white space at the front has; a byte behind the end of the text reads 0.
unfoldable pub width : ℕ → ℕ → ℕ → Width
width a b c =
    if ascii_space a
    then one
    else if space_two a b
    then two
    else if space_three a b c
    then three
    else other

-- strings.TrimLeftFunc(s, unicode.IsSpace)
unfoldable pub trim_left : Text → Text
trim_left [] = []
trim_left (a ∷ []) = elim (width a 0 0) [ one ↦ [] | _ ↦ a ∷ [] ]
trim_left (a ∷ b ∷ []) = elim (width a b 0) [
  | other ↦ a ∷ b ∷ []
  | one ↦ trim_left (b ∷ [])
  | _ ↦ []
]
trim_left (a ∷ b ∷ c ∷ s) = elim (width a b c) [
  | other ↦ a ∷ b ∷ c ∷ s
  | one ↦ trim_left (b ∷ c ∷ s)
  | two ↦ trim_left (c ∷ s)
  | three ↦ trim_left s
]

-- Nothing but white space.
unfoldable pub is_blank : Text → Bool
unfolding trim_left
is_blank s = is_nil (trim_left s)

-- strings.TrimRightFunc(s, unicode.IsSpace): cut before the longest suffix of white space
unfoldable pub trim_right : Text → Text
trim_right [] = []
trim_right (c ∷ s) = let rest = trim_right s in if is_blank (c ∷ s) then [] else c ∷ rest

unfoldable pub trim_space : Text → Text
trim_space s = trim_right (trim_left s)

abbrev pub starts_with_bang : Text → Bool
starts_with_bang s = has_prefix s (bang ∷ [])

-- strings.Replace(s, "!", "-!", 1)
abbrev pub invalidate : Text → Text
invalidate = replace_first bang (45 ∷ bang ∷ [])

width-bang : (b c : ℕ) → width bang b c ≡ other
unfolding width
width-bang b c = ground arith

width_dash : (b c : ℕ) → width 45 b c ≡ other
unfolding width
width_dash b c = ground arith

-- A byte of ASCII continues no longer white space.
width_second : (a b c : ℕ) → b < 128 → width a b c ≡ (if ascii_space a then one else other)
unfolding width
width_second a b c h = ground arith

width_third :
    (a b c : ℕ)
    → c < 128
    → width a b c ≡ (if ascii_space a then one else if space_two a b then two else other)
unfolding width
width_third a b c h = ground arith

-- No white space has a '!' in it, so marking it and cutting the white space before it commute.
trim_left-invalidate : (s : Text) → trim_left (invalidate s) ≡ invalidate (trim_left s)
unfolding trim_left
trim_left-invalidate [] = refl
trim_left-invalidate (a ∷ []) =
    ground (arith, width-bang 0 0, width_dash bang 0, width_second a 0 0)
trim_left-invalidate (a ∷ b ∷ []) = ground (
  arith,
  width-bang b 0,
  width-bang 0 0,
  width_dash bang b,
  width_dash bang 0,
  width_second a 45 bang,
  width_second a bang 0,
  width_second a b 0,
  trim_left-invalidate (b ∷ []),
)
trim_left-invalidate (a ∷ b ∷ c ∷ s) = elim (Bool-cases (a == bang)) [
  | inl e ↦ ground (arith, width-bang b c, width_dash bang b)
  | inr e ↦ elim (Bool-cases (b == bang)) [
    | inl f ↦
        ground (arith, width_second a 45 bang, width_second a b c, trim_left-invalidate (b ∷ c ∷ s))
    | inr f ↦ ground (
      arith,
      width_third a b 45,
      width_third a b c,
      trim_left-invalidate (b ∷ c ∷ s),
      trim_left-invalidate (c ∷ s),
      trim_left-invalidate s,
    )
  ]
]

trim_right-bang : (s : Text) → trim_right (bang ∷ s) ≡ bang ∷ trim_right s
unfolding trim_right is_blank
trim_right-bang [] = ground (arith, width-bang 0 0)
trim_right-bang (a ∷ []) = ground (arith, width-bang a 0)
trim_right-bang (a ∷ b ∷ s) = ground (arith, width-bang a b)

-- Cutting at the end leaves a first byte that is no white space.
starts_with_bang-trim_right : (s : Text) → starts_with_bang (trim_right s) ≡ starts_with_bang s
unfolding trim_right
starts_with_bang-trim_right [] = refl
starts_with_bang-trim_right (c ∷ s) = ground (arith, trim_right-bang s)

starts_with_bang-invalidate : (s : Text) → starts_with_bang (invalidate s) ≡ false
starts_with_bang-invalidate [] = refl
starts_with_bang-invalidate (c ∷ s) = ground arith

-- A line that has been marked begins with no '!' behind its white space.
pub starts_with_bang-trim_space-invalidate :
    (s : Text) → starts_with_bang (trim_space (invalidate s)) ≡ false
unfolding trim_space
starts_with_bang-trim_space-invalidate s =
    starts_with_bang-trim_right (trim_left (invalidate s))
    ∙ ap starts_with_bang (trim_left-invalidate s)
    ∙ starts_with_bang-invalidate (trim_left s)

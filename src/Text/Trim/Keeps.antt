-- ===== src/Text/Trim/Keeps.antt =====
-- What cutting the white space off a text keeps: a property of all its bytes, and each '!' in it.
use skylark.Base.{
  ℕ, ◌≡◌, refl, ap, sym, ◌∙◌, Bool, true, false, [], ◌∷◌, all, any, arith, ◌==◌, ℕ_eq, ◌⊎◌, inl,
  inr,
}
use skylark.Text.{Text, is_nil, bang}
use skylark.Text.Trim.{
  trim_left, trim_right, trim_space, is_blank, width-bang, width_second, width_third,
}

module _ (p : ℕ → Bool) where
  all-trim_left : (s : Text) → all p s ≡ true → all p (trim_left s) ≡ true
  unfolding trim_left
  all-trim_left [] h = h
  all-trim_left (a ∷ []) h = ground arith
  all-trim_left (a ∷ b ∷ []) h = ground (arith, all-trim_left (b ∷ []))
  all-trim_left (a ∷ b ∷ c ∷ s) h =
      ground (arith, all-trim_left (b ∷ c ∷ s), all-trim_left (c ∷ s), all-trim_left s)

  all-trim_right : (s : Text) → all p s ≡ true → all p (trim_right s) ≡ true
  unfolding trim_right
  all-trim_right [] h = h
  all-trim_right (c ∷ s) h = ground (arith, all-trim_right s)

  pub all-trim_space : (s : Text) → all p s ≡ true → all p (trim_space s) ≡ true
  unfolding trim_space
  all-trim_space s h = all-trim_right (trim_left s) (all-trim_left s h)

nil_cases : (s : Text) → (s ≡ []) ⊎ (is_nil s ≡ false)
nil_cases [] = inl refl
nil_cases (c ∷ s) = inr refl

abbrev pub has_bang : Text → Bool
has_bang = any (λ c. c == bang)

has_bang-trim_left : (s : Text) → has_bang (trim_left s) ≡ has_bang s
unfolding trim_left
has_bang-trim_left [] = refl
has_bang-trim_left (a ∷ []) = ground (arith, width-bang 0 0)
has_bang-trim_left (a ∷ b ∷ []) =
    ground (arith, width-bang b 0, width_second a b 0, has_bang-trim_left (b ∷ []))
has_bang-trim_left (a ∷ b ∷ c ∷ s) = ground (
  arith,
  width-bang b c,
  width_second a b c,
  width_third a b c,
  has_bang-trim_left (b ∷ c ∷ s),
  has_bang-trim_left (c ∷ s),
  has_bang-trim_left s,
)

-- White space holds no '!'.
has_bang-blank : (s : Text) → is_blank s ≡ true → has_bang s ≡ false
unfolding is_blank
has_bang-blank s h = elim (nil_cases (trim_left s)) [
  | inl e ↦ sym (has_bang-trim_left s) ∙ ap has_bang e
  | inr e ↦ cc
]

has_bang-trim_right : (s : Text) → has_bang (trim_right s) ≡ has_bang s
unfolding trim_right
has_bang-trim_right [] = refl
has_bang-trim_right (c ∷ s) = ground (arith, has_bang-blank (c ∷ s), has_bang-trim_right s)

pub has_bang-trim_space : (s : Text) → has_bang (trim_space s) ≡ has_bang s
unfolding trim_space
has_bang-trim_space s = has_bang-trim_right (trim_left s) ∙ has_bang-trim_left s

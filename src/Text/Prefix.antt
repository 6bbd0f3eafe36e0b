-- ===== src/Text/Prefix.antt =====
-- Texts and their prefixes.
use skylark.Base.{
  [], ◌∷◌, ◌++◌, ◌≡◌, refl, true, length, drop, ==_iff, ==_refl, arith, ℕ_eq, List_eq,
}
use skylark.Text.{Text, has_prefix}
use mathlib.Core.Path.{ap₂}

pub has_prefix-append : (p s : Text) → has_prefix (p ++ s) p ≡ true
has_prefix-append [] [] = refl
has_prefix-append [] (c ∷ s) = refl
has_prefix-append (c ∷ p) s = ground (arith, ==_refl c, has_prefix-append p s)

-- A text with a prefix is the prefix and the rest.
pub has_prefix-drop : (s p : Text) → has_prefix s p ≡ true → s ≡ p ++ drop (length p) s
has_prefix-drop s [] h = refl
has_prefix-drop [] (c ∷ p) h = absurd (cc h)
has_prefix-drop (a ∷ s) (c ∷ p) h =
    ap₂ (λ b t. b ∷ t) ((==_iff a c).0 (ground (arith, h)))
      (has_prefix-drop s p (ground (arith, h)))

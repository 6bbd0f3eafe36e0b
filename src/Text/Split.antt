-- ===== src/Text/Split.antt =====
-- strings.Split(s, sep) and strings.Join(parts, sep), for a separator of one byte.
use skylark.Base.{
  ℕ, ◌≡◌, refl, ap, ◌∙◌, ◌≢◌, Bool, true, false, not, List, [], ◌∷◌, ◌++◌, all, arith, ◌==◌,
  if◌then◌else◌, Bool-cases, ==_iff, inl, inr, ℕ_eq, List_eq, sym, ==_refl,
}
use skylark.Text.{Text}

module _ (sep : ℕ) where
  -- the byte is put before the first part
  abbrev pub push_byte : ℕ → List Text → List Text
  push_byte c [] = (c ∷ []) ∷ []
  push_byte c (l ∷ ls) = (c ∷ l) ∷ ls

  abbrev pub split_on : Text → List Text
  split_on [] = [] ∷ []
  split_on (c ∷ s) = let rest = split_on s in if c == sep then [] ∷ rest else push_byte c rest

  abbrev pub join_on : List Text → Text
  join_on [] = []
  join_on (l ∷ []) = l
  join_on (l ∷ m ∷ ls) = l ++ (sep ∷ join_on (m ∷ ls))

  -- No byte of the text is the separator.
  abbrev pub lacks : Text → Bool
  lacks = all (λ c. not (c == sep))

  split_on-ne-nil : (s : Text) → split_on s ≢ []
  split_on-ne-nil [] = λ h. cc
  split_on-ne-nil (c ∷ s) = ground (arith, split_on-ne-nil s)

  join_on-push_byte : (c : ℕ) (ls : List Text) → ls ≢ [] → join_on (push_byte c ls) ≡ c ∷ join_on ls
  join_on-push_byte c [] h = absurd (h refl)
  join_on-push_byte c (l ∷ []) h = refl
  join_on-push_byte c (l ∷ m ∷ ls) h = refl

  join_on-cons_nil : (ls : List Text) → ls ≢ [] → join_on ([] ∷ ls) ≡ sep ∷ join_on ls
  join_on-cons_nil [] h = absurd (h refl)
  join_on-cons_nil (l ∷ ls) h = refl

  pub join_on-split_on : (s : Text) → join_on (split_on s) ≡ s
  join_on-split_on [] = refl
  join_on-split_on (c ∷ s) = ground (
    arith,
    join_on-split_on s,
    join_on-push_byte c (split_on s),
    join_on-cons_nil (split_on s),
    split_on-ne-nil s,
    ==_iff c sep,
  )

  split_on-append_part : (l s : Text) → lacks l ≡ true → split_on (l ++ (sep ∷ s)) ≡ l ∷ split_on s
  split_on-append_part [] s h = rw (==_refl sep) refl
  split_on-append_part (c ∷ l) s h = ground (arith, split_on-append_part l s)

  pub split_on-lacks : (l : Text) → lacks l ≡ true → split_on l ≡ l ∷ []
  split_on-lacks [] h = refl
  split_on-lacks (c ∷ l) h = ground (arith, split_on-lacks l)

  -- Joining parts and splitting the text gives the parts back.
  pub split_on-join_on :
      (ls : List Text) → ls ≢ [] → all lacks ls ≡ true → split_on (join_on ls) ≡ ls
  split_on-join_on [] n h = absurd (n refl)
  split_on-join_on (l ∷ []) n h = split_on-lacks l (ground arith)
  split_on-join_on (l ∷ m ∷ ls) n h =
      split_on-append_part l (join_on (m ∷ ls)) (ground arith)
      ∙ ap (◌∷◌ l) (split_on-join_on (m ∷ ls) (λ e. cc) (ground arith))

  all-lacks-push_byte :
      (c : ℕ) (ls : List Text)
      → (c == sep) ≡ false
      → all lacks ls ≡ true
      → all lacks (push_byte c ls) ≡ true
  all-lacks-push_byte c [] h k = ground arith
  all-lacks-push_byte c (l ∷ ls) h k = ground arith

  -- No part of a split text has the separator in it.
  pub split_on-all_lack : (s : Text) → all lacks (split_on s) ≡ true
  split_on-all_lack [] = refl
  split_on-all_lack (c ∷ s) = elim (Bool-cases (c == sep)) [
    | inl e ↦ rw e (split_on-all_lack s)
    | inr e ↦ rw e (all-lacks-push_byte c (split_on s) e (split_on-all_lack s))
  ]

  push_byte-append :
      (c : ℕ) (ls ms : List Text) → ls ≢ [] → push_byte c ls ++ ms ≡ push_byte c (ls ++ ms)
  push_byte-append c [] ms h = absurd (h refl)
  push_byte-append c (l ∷ ls) ms h = refl

  -- A separator divides the parts of a text.
  pub split_on-append : (s t : Text) → split_on (s ++ (sep ∷ t)) ≡ split_on s ++ split_on t
  split_on-append [] t = rw (==_refl sep) refl
  split_on-append (c ∷ s) t = elim (Bool-cases (c == sep)) [
    | inl e ↦ rw e (ap (◌∷◌ []) (split_on-append s t))
    | inr e ↦ rw e (
        ap (push_byte c) (split_on-append s t)
        ∙ sym (push_byte-append c (split_on s) (split_on t) (split_on-ne-nil s)))
  ]

-- The last two parts, the very last one second.
abbrev pub last_two : Text → Text → List Text → Text × Text
last_two folder file [] = (folder, file)
last_two folder file (name ∷ names) = last_two file name names

-- ===== src/Context/Truncate.antt =====
-- `truncateContent` of pkg/context/context.go, with the two boundaries that it looks for.
use skylark.Base.{
  ℕ, zero, suc, ◌+◌, ◌≤◌, ◌<◌, ◌≡◌, refl, ap, Bool, ◌||◌, [], ◌∷◌, Option, none, some, get_elem?,
  take, length, arith, Bool-cases, Option-cases, ltb, leb, ◌==◌, ℕ_eq, if◌then◌else◌, length-take,
  inl, inr,
}
use skylark.Text.{Text}

-- ' ' or '\n'
abbrev is_gap : ℕ → Bool
is_gap c = c == 32 || c == 10

-- The body of the loop of `findLastSentenceBoundary` at `i`: where a sentence that ends there is cut.
unfoldable sentence_cut : Text → ℕ → Option ℕ
sentence_cut text i = elim (get_elem? text i) [
  | none ↦ none
  | some c ↦
      if c == b'.'
      then elim (get_elem? text (i + 1)) [
        | none ↦ some (i + 1)
        | some d ↦ if is_gap d then some (i + 2) else none
      ]
      else none
]

-- The body of the loop of `findLastWordBoundary` at `i`.
unfoldable word_cut : Text → ℕ → Option ℕ
word_cut text i = elim (get_elem? text i) [
  | none ↦ none
  | some c ↦ if is_gap c then some (i + 1) else none
]

-- for i := n - 1; i >= 0; i--
unfoldable last_cut : (ℕ → Option ℕ) → ℕ → Option ℕ
last_cut cut zero = none
last_cut cut (suc i) = elim (cut i) [ some k ↦ some k | none ↦ last_cut cut i ]

unfoldable pub find_last_sentence_boundary : Text → Option ℕ
unfolding last_cut sentence_cut
find_last_sentence_boundary text = last_cut (sentence_cut text) (length text)

unfoldable pub find_last_word_boundary : Text → Option ℕ
unfolding last_cut word_cut
find_last_word_boundary text = last_cut (word_cut text) (length text)

-- if idx := …; idx > 0 { return content[:idx] }
abbrev cut_at : Option ℕ → Text → Text → Text
cut_at none content otherwise = otherwise
cut_at (some k) content otherwise = if ltb 0 k then take k content else otherwise

unfoldable pub truncate_content : Text → ℕ → Text
truncate_content content max_size =
    let head = take max_size content in
    if leb (length content) max_size
    then content
    else cut_at (find_last_sentence_boundary head) content
        (cut_at (find_last_word_boundary head) content head)

get_elem?-lt : (t : Text) (i c : ℕ) → get_elem? t i ≡ some c → i < length t
get_elem?-lt [] i c h = cc
get_elem?-lt (x ∷ t) zero c h = omega arith
get_elem?-lt (x ∷ t) (suc i) c h = omega (arith, get_elem?-lt t i c h)

-- A cut lies behind the byte that it is found at, and within the text.
abbrev CutsWithin : Text → (ℕ → Option ℕ) → Type 0
CutsWithin t cut = (i k : ℕ) → cut i ≡ some k → (0 < k) × (k ≤ length t)

sentence_cut-within : (t : Text) → CutsWithin t (sentence_cut t)
unfolding sentence_cut
sentence_cut-within t i k h = elim (Option-cases (get_elem? t i)) [
  | inl e ↦ ground arith
  | inr (c, e) ↦ elim (Option-cases (get_elem? t (i + 1))) [
    | inl f ↦ ground (arith, get_elem?-lt t i c e)
    | inr (d, f) ↦ ground (arith, get_elem?-lt t (i + 1) d f)
  ]
]

word_cut-within : (t : Text) → CutsWithin t (word_cut t)
unfolding word_cut
word_cut-within t i k h = elim (Option-cases (get_elem? t i)) [
  | inl e ↦ ground arith
  | inr (c, e) ↦ ground (arith, get_elem?-lt t i c e)
]

last_cut-within :
    (t : Text) (cut : ℕ → Option ℕ) (n k : ℕ)
    → CutsWithin t cut
    → last_cut cut n ≡ some k
    → (0 < k) × (k ≤ length t)
unfolding last_cut
last_cut-within t cut zero k w h = ground arith
last_cut-within t cut (suc n) k w h = elim (Option-cases (cut n)) [
  | inl e ↦ last_cut-within t cut n k w (rw (e, last_cut) at h)
  | inr (j, e) ↦ ground (arith, w n k)
]

sentence-within :
    (t : Text) (k : ℕ) → find_last_sentence_boundary t ≡ some k → (0 < k) × (k ≤ length t)
unfolding find_last_sentence_boundary
sentence-within t k = last_cut-within t (sentence_cut t) (length t) k (sentence_cut-within t)

word-within : (t : Text) (k : ℕ) → find_last_word_boundary t ≡ some k → (0 < k) × (k ≤ length t)
unfolding find_last_word_boundary
word-within t k = last_cut-within t (word_cut t) (length t) k (word_cut-within t)

-- What is left of a content: a prefix, within the limit, and not empty if the limit allows.
pub record IsCut (content : Text) (max_size : ℕ) (result : Text) : Type 0 where
  pub size : ℕ
  pub prefix : result ≡ take size content
  pub within : size ≤ max_size
  pub fits : size ≤ length content
  pub nonempty : 0 < max_size → 0 < length content → 0 < size

cut_at-IsCut :
    (o : Option ℕ) (content otherwise : Text) (n : ℕ)
    → ((k : ℕ) → o ≡ some k → (0 < k) × (k ≤ length (take n content)))
    → n ≤ length content
    → IsCut content n otherwise
    → IsCut content n (cut_at o content otherwise)
cut_at-IsCut none content otherwise n w l c = c
cut_at-IsCut (some k) content otherwise n w l c = elim (Bool-cases (ltb 0 k)) [
  | inr e ↦ rw e c
  | inl e ↦ rw e (record {
    size = k;
    prefix = refl;
    within = omega (arith, w k refl, length-take n content);
    fits = omega (arith, w k refl, length-take n content);
    nonempty = λ _ _. (w k refl).0;
  })
]

take-length : (t : Text) → t ≡ take (length t) t
take-length [] = refl
take-length (c ∷ t) = ap (◌∷◌ c) (take-length t)

-- The truncated content is a prefix of the content, no longer than the limit.
pub truncate_content-IsCut :
    (content : Text) (max_size : ℕ) → IsCut content max_size (truncate_content content max_size)
unfolding truncate_content
truncate_content-IsCut content max_size = elim (Bool-cases (leb (length content) max_size)) [
  | inl e ↦ rw e (record {
    size = length content;
    prefix = take-length content;
    within = ground arith;
    fits = omega arith;
    nonempty = λ _ h. h;
  })
  | inr e ↦
      let shorter : max_size ≤ length content = ground arith in
      rw e (
        cut_at-IsCut (find_last_sentence_boundary (take max_size content)) content _ max_size
          (sentence-within (take max_size content)) shorter
          (cut_at-IsCut (find_last_word_boundary (take max_size content)) content _ max_size
            (word-within (take max_size content)) shorter
            (record {
              size = max_size;
              prefix = refl;
              within = omega arith;
              fits = shorter;
              nonempty = λ h _. h;
            })))
]

pub length-truncate_content :
    (content : Text) (max_size : ℕ) → length (truncate_content content max_size) ≤ max_size
length-truncate_content content max_size =
    let cut = truncate_content-IsCut content max_size in
    omega (arith, ap length cut.prefix, length-take cut.size content, cut.within)

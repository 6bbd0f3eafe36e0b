-- ===== src/Parser/References/Search.antt =====
-- The search of `ParseReferences` of pkg/parser/parser.go ends by itself: its fuel never runs out.
use skylark.Base.{
  ℕ, zero, suc, ◌+◌, ◌≤◌, ◌<◌, ◌≡◌, refl, ap, Bool, [], ◌∷◌, some, length, arith, ◌==◌, ℕ_eq,
  Bool-cases, Option-cases, inr, inl,
}
use skylark.Text.{Text, hash, span}
use skylark.Parser.References.{
  match_behind, re_space, body_byte, close_with, close, match_body, match_reference, find_all,
  parse_references,
}

length-span : (p : ℕ → Bool) (s : Text) → length (span p s).1 ≤ length s
length-span p [] = omega arith
length-span p (c ∷ s) = ground (arith, length-span p s)

length-close_with : (s rest : Text) → close_with s ≡ some rest → length rest ≤ length s
length-close_with [] rest h = cc
length-close_with (c ∷ s) rest h = ground arith

length-close : (s rest : Text) → close s ≡ some rest → length rest ≤ length s
unfolding close
length-close [] rest h = ground arith
length-close (c ∷ s) rest h =
    omega (arith, length-close_with (span re_space (c ∷ s)).1 rest h, length-span re_space (c ∷ s))

length-match_body : (s body rest : Text) → match_body s ≡ some (body, rest) → length rest ≤ length s
unfolding match_body
length-match_body [] body rest h = cc
length-match_body (c ∷ s) body rest h = elim (Bool-cases (body_byte c)) [
  | inr e ↦ ground arith
  | inl e ↦ elim (Option-cases (close s)) [
    | inr (t, f) ↦ ground (arith, length-close s t f)
    | inl f ↦ elim (Option-cases (match_body s)) [
      | inl g ↦ ground arith
      | inr (m, g) ↦ ground (arith, length-match_body s m.0 m.1 g)
    ]
  ]
]

length-match_behind :
    (spaces s r rest : Text) → match_behind spaces s ≡ some (r, rest) → length rest ≤ length s
unfolding match_behind
length-match_behind spaces [] r rest h = ground arith
length-match_behind spaces (c ∷ s) r rest h = elim (Bool-cases (c == hash)) [
  | inl e ↦ ground arith
  | inr e ↦ elim (Option-cases (match_body (c ∷ s))) [
    | inl f ↦ ground arith
    | inr (m, f) ↦ ground (arith, length-match_body (c ∷ s) m.0 m.1 f)
  ]
]

length-match_reference :
    (s r rest : Text) → match_reference s ≡ some (r, rest) → length rest ≤ length s
unfolding match_reference
length-match_reference s r rest h = omega (
  arith,
  length-match_behind (span re_space s).0 (span re_space s).1 r rest h,
  length-span re_space s,
)

find_all_enough : (f g : ℕ) (s : Text) → length s < f → length s < g → find_all f s ≡ find_all g s
unfolding find_all
find_all_enough zero g s h k = absurd (omega arith)
find_all_enough (suc f) zero s h k = absurd (omega arith)
find_all_enough (suc f) (suc g) [] h k = refl
find_all_enough (suc f) (suc g) (c ∷ s) h k = elim (Bool-cases (c == hash)) [
  | inr e ↦ rw e (find_all_enough f g s (omega arith) (omega arith))
  | inl e ↦ elim (Option-cases (match_reference s)) [
    | inl m ↦ rw (e, m, find_all) (find_all_enough f g s (omega arith) (omega arith))
    | inr (m, q) ↦
        rw (e, q, find_all)
          (ap (◌∷◌ m.0) (
            find_all_enough f g m.1 (omega (arith, length-match_reference s m.0 m.1 q))
              (omega (arith, length-match_reference s m.0 m.1 q))))
  ]
]

-- More rounds find nothing more.
parse_references_enough :
    (s : Text) (more : ℕ) → parse_references s ≡ find_all (suc (length s) + more) s
unfolding parse_references
parse_references_enough s more = find_all_enough (suc (length s)) _ s (omega arith) (omega arith)

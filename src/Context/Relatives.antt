-- ===== src/Context/Relatives.antt =====
-- `GetParentHeader` and `GetSiblingHeaders` of pkg/context/context.go.
use skylark.Base.{
  ◌≡◌, refl, ap, Bool, true, not, ◌&&◌, List, [], ◌∷◌, ◌++◌, Option, none, some, all, arith, ltb,
  ◌==◌, ==_refl, ◌∙◌, ℕ_eq, List_eq, if◌then◌else◌,
}
use skylark.Text.{Text}
use skylark.Context.Section.{Reference}

-- for i := range refs { if test(refs[i]) { …; break } }
unfoldable find_first : (Reference → Bool) → List Reference → Option Reference
find_first p [] = none
find_first p (r ∷ refs) = let rest = find_first p refs in if p r then some r else rest

-- for i := len(refs) - 1; i >= 0; i-- { if test(refs[i]) { …; break } }
unfoldable find_last : (Reference → Bool) → List Reference → Option Reference
find_last p [] = none
find_last p (r ∷ refs) = elim (find_last p refs) [
  | some s ↦ some s
  | none ↦ if p r then some r else none
]

-- "" stands for no header.
abbrev header_or_empty : Option Reference → Text
header_or_empty none = []
header_or_empty (some r) = r.header

abbrev pub named : Text → Reference → Bool
named header r = r.header == header

abbrev is_parent_of : Reference → Reference → Bool
is_parent_of target r = ltb r.start_line target.start_line && ltb r.level target.level

unfoldable get_parent_header : List Reference → Text → Text
get_parent_header refs header = elim (find_first (named header) refs) [
  | none ↦ []
  | some target ↦ header_or_empty (find_last (is_parent_of target) refs)
]

-- The target with what stands before and behind it.
unfoldable split_at : Text → List Reference → Option (List Reference × Reference × List Reference)
split_at header [] = none
split_at header (r ∷ refs) =
    let rest = split_at header refs in
    if named header r then some ([], r, refs) else elim rest [
      | none ↦ none
      | some (before, target, behind) ↦ some (r ∷ before, target, behind)
    ]

abbrev same_level : Reference → Reference → Bool
same_level target r = r.level == target.level

-- the previous sibling and the next one
unfoldable get_sibling_headers : List Reference → Text → Text × Text
get_sibling_headers refs header = elim (split_at header refs) [
  | none ↦ ([], [])
  | some (before, target, behind) ↦ (
    header_or_empty (find_last (same_level target) before),
    header_or_empty (find_first (same_level target) behind),
  )
]

-- No reference of a list passes the test.
abbrev NoneOf : (Reference → Bool) → List Reference → Type 0
NoneOf p refs = all (λ s. not (p s)) refs ≡ true

find_first-append :
    (p : Reference → Bool) (before : List Reference) (r : Reference) (behind : List Reference)
    → NoneOf p before
    → p r ≡ true
    → find_first p (before ++ (r ∷ behind)) ≡ some r
unfolding find_first
find_first-append p [] r behind n h = ground arith
find_first-append p (x ∷ before) r behind n h = ground (arith, find_first-append p before r behind)

find_last-NoneOf :
    (p : Reference → Bool) (refs : List Reference) → NoneOf p refs → find_last p refs ≡ none
unfolding find_last
find_last-NoneOf p [] n = refl
find_last-NoneOf p (r ∷ refs) n = ground (arith, find_last-NoneOf p refs)

find_last-append :
    (p : Reference → Bool) (before : List Reference) (r : Reference) (behind : List Reference)
    → p r ≡ true
    → NoneOf p behind
    → find_last p (before ++ (r ∷ behind)) ≡ some r
unfolding find_last
find_last-append p [] r behind h n = ground (arith, find_last-NoneOf p behind n)
find_last-append p (x ∷ before) r behind h n =
    ground (arith, find_last-append p before r behind h n)

split_at-append :
    (header : Text) (before : List Reference) (target : Reference) (behind : List Reference)
    → NoneOf (named header) before
    → target.header ≡ header
    → split_at header (before ++ (target ∷ behind)) ≡ some (before, target, behind)
unfolding split_at
split_at-append header [] target behind n e = rw (e, split_at, ==_refl header)
split_at-append header (x ∷ before) target behind n e =
    ground (arith, split_at-append header before target behind)

-- Of the sections above the first one of a name that are of a lower level, the last is its parent.
get_parent_header_nearest :
    (header : Text) (refs above below before : List Reference) (target parent : Reference)
    → refs ≡ above ++ (target ∷ below)
    → NoneOf (named header) above
    → target.header ≡ header
    → (behind : List Reference) → refs ≡ before ++ (parent ∷ behind)
    → is_parent_of target parent ≡ true
    → NoneOf (is_parent_of target) behind
    → get_parent_header refs header ≡ parent.header
unfolding get_parent_header
get_parent_header_nearest header refs above below before target parent e n h behind e' p n' =
    ground (
      arith,
      find_first-append (named header) above target below n
          (ap (λ (t : Text). t == header) h ∙ ==_refl header),
      find_last-append (is_parent_of target) before parent behind p n',
    )

-- The siblings of the first section of a name are the nearest sections of its level, on each side.
get_sibling_headers_nearest :
    (header : Text) (far_above above below far_below : List Reference)
    (previous target next : Reference)
    → NoneOf (named header) (far_above ++ (previous ∷ above))
    → target.header ≡ header
    → same_level target previous ≡ true
    → NoneOf (same_level target) above
    → same_level target next ≡ true
    → NoneOf (same_level target) below
    → get_sibling_headers
        ((far_above ++ (previous ∷ above)) ++ (target ∷ (below ++ (next ∷ far_below))))
        header
      ≡ (previous.header, next.header)
unfolding get_sibling_headers
get_sibling_headers_nearest header far_above above below far_below previous target next n e p a s
      b =
    rw (
      split_at-append header (far_above ++ (previous ∷ above)) target (below ++ (next ∷ far_below))
          n e,
      get_sibling_headers,
      find_last-append (same_level target) far_above previous above p a,
      find_first-append (same_level target) below next far_below b s,
    )

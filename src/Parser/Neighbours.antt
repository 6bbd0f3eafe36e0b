-- ===== src/Parser/Neighbours.antt =====
-- `AssembleContext` of pkg/parser/parser.go: the headers around a block.
use skylark.Base.{
  ℕ, suc, ◌<◌, ◌≤◌, ◌≡◌, refl, true, ◌&&◌, List, [], ◌∷◌, ◌++◌, Option, none, some, take, drop,
  get_elem?, all, ltb, arith, ◌==◌, ℕ_eq, if◌then◌else◌, Bool-cases, inl, inr,
}
use mathlib.Core.List.{reverse}
use skylark.Parser.Block.{Block}
use skylark.Parser.Blocks.Headers.{is_header}

-- The loop that collects parent headers, over the blocks above, the nearest first.
unfoldable pub collect_parents : ℕ → List Block → List Block → List Block
collect_parents level [] parents = parents
collect_parents level (b ∷ above) parents =
    if is_header b && ltb b.level level
    then collect_parents b.level above (b ∷ parents)
    else collect_parents level above parents

-- The most recent header above.
unfoldable pub recent_header : List Block → List Block
recent_header [] = []
recent_header (b ∷ above) = let rest = recent_header above in if is_header b then b ∷ [] else rest

-- The headers of a level, up to one of a lower level.
unfoldable pub collect_siblings : ℕ → List Block → List Block
collect_siblings level [] = []
collect_siblings level (b ∷ below) =
    let rest = collect_siblings level below in
    if is_header b
    then (if ltb b.level level then [] else if b.level == level then b ∷ rest else rest)
    else rest

unfoldable pub around : List Block → Block → List Block → List Block
around above b below =
    if is_header b
    then collect_parents b.level above [] ++ (b ∷ collect_siblings b.level below)
    else collect_parents 0 above [] ++ (recent_header above ++ (b ∷ []))

-- `none` is the panic at an index out of range.
unfoldable pub assemble_context : List Block → ℕ → Option (List Block)
unfolding around
assemble_context blocks current_index = elim (get_elem? blocks current_index) [
  | none ↦ none
  | some b ↦ some (around (reverse (take current_index blocks)) b (drop (suc current_index) blocks))
]

-- Headers of rising levels, each above the one before, up to a level.
abbrev Rising : List Block → ℕ → Type 0
Rising [] top = Unit {0}
Rising (b ∷ []) top = (is_header b ≡ true) × (b.level < top)
Rising (b ∷ c ∷ bs) top = (is_header b ≡ true) × (b.level < c.level) × Rising (c ∷ bs) top

-- The first of some headers is above a level, which they rise from.
abbrev From : ℕ → List Block → ℕ → Type 0
From level [] top = level ≤ top
From level (b ∷ bs) top = (level ≤ b.level) × Rising (b ∷ bs) top

From-cons :
    (b : Block) (level top : ℕ) (parents : List Block)
    → is_header b ≡ true
    → b.level < level
    → From level parents top
    → From b.level (b ∷ parents) top
From-cons b level top [] h l f = (omega arith, (h, omega arith))
From-cons b level top (p ∷ parents) h l f = (omega arith, (h, omega arith, f.1))

From-Rising : (level top : ℕ) (parents : List Block) → From level parents top → Rising parents top
From-Rising level top [] f = tt
From-Rising level top (b ∷ bs) f = f.1

collect_parents-Rising :
    (above : List Block) (level top : ℕ) (parents : List Block)
    → From level parents top
    → Rising (collect_parents level above parents) top
unfolding collect_parents
collect_parents-Rising [] level top parents f = From-Rising level top parents f
collect_parents-Rising (b ∷ above) level top parents f =
    elim (Bool-cases (is_header b && ltb b.level level)) [
      | inl e ↦ rw e (
          collect_parents-Rising above b.level top (b ∷ parents)
            (From-cons b level top parents (ground arith) (ground arith) f))
      | inr e ↦ rw e (collect_parents-Rising above level top parents f)
    ]

collect_siblings-level :
    (level : ℕ) (below : List Block)
    → all (λ b. is_header b && b.level == level) (collect_siblings level below) ≡ true
unfolding collect_siblings
collect_siblings-level level [] = refl
collect_siblings-level level (b ∷ below) = ground (arith, collect_siblings-level level below)

-- The context of a header is its parents, of rising levels below its own, the header itself, and
-- headers of its own level.
assemble_context-header :
    (above below : List Block) (b : Block)
    → is_header b ≡ true
    → (parents : List Block) × (siblings : List Block) × (around above b below
        ≡ parents ++ (b ∷ siblings))
      × Rising parents b.level
      × (all (λ s. is_header s && s.level == b.level) siblings ≡ true)
unfolding around
assemble_context-header above below b h = (
  collect_parents b.level above [],
  collect_siblings b.level below,
  rw h,
  collect_parents-Rising above b.level b.level [] (omega arith),
  collect_siblings-level b.level below,
)

-- ===== src/Context/Section/Headed.antt =====
-- Each section that `ParseReferences` of pkg/context/context.go finds follows its header line, and
-- has no header line in it.
use Prim.Native.Nat.add
use native.Mathlib.Decide.{ℕ_discrete}
use skylark.Base.{
  ℕ, suc, ◌+◌, ◌-◌, ◌≤◌, ◌<◌, ◌≡◌, ap, ◌∙◌, List, [], ◌∷◌, ◌++◌, Option, none, some, leb, arith,
  Bool-cases, Option-cases, map, get_elem?, inl, inr,
}
use skylark.Text.{Text}
use skylark.Text.Lines.{split_lines}
use skylark.Context.Section.{Reference, match_header, close_section, scan_lines, parse_references}

-- What the header pattern makes of each line of a text.
abbrev Heads : Type 0
Heads = List (Option (ℕ × Text))

pub record IsHeaded (heads : Heads) (i : ℕ) (r : Reference) : Type 0 where
  pub positive : 0 < r.start_line
  pub titled : get_elem? heads (r.start_line - 1) ≡ some (some (r.level, r.header))
  pub plain : (k : ℕ) → r.start_line ≤ k → k < i → get_elem? heads k ≡ some none

-- A section up to its last line.
abbrev pub AllHeaded : Heads → List Reference → Type 0
AllHeaded heads [] = Unit {0}
AllHeaded heads (r ∷ rs) = IsHeaded heads (suc r.end_line) r × AllHeaded heads rs

AllHeaded-append :
    (heads : Heads) (rs : List Reference) (r : Reference)
    → AllHeaded heads rs
    → IsHeaded heads (suc r.end_line) r
    → AllHeaded heads (rs ++ (r ∷ []))
AllHeaded-append heads [] r a h = (h, tt)
AllHeaded-append heads (x ∷ rs) r a h = (a.0, AllHeaded-append heads rs r a.1 h)

abbrev Open : Heads → ℕ → Option Reference → Type 0
Open heads i none = Unit {0}
Open heads i (some r) = IsHeaded heads i r

close_section-AllHeaded :
    (heads : Heads) (current : Option Reference) (i : ℕ) (refs : List Reference)
    → Open heads i current
    → AllHeaded heads refs
    → AllHeaded heads (close_section current i refs)
close_section-AllHeaded heads none i refs c a = a
close_section-AllHeaded heads (some r) i refs c a = elim (Bool-cases (leb r.start_line (i - 1))) [
  | inl e ↦ rw e (
      AllHeaded-append heads refs (record r { end_line = i - 1 }) a
        (record {
          positive = c.positive;
          titled = c.titled;
          plain = λ k h l. c.plain k h (ground arith);
        }))
  | inr e ↦ rw e a
]

-- The lines from `i` on are those of the text.
abbrev Ahead : Heads → ℕ → List Text → Type 0
Ahead heads i lines = (k : ℕ) → get_elem? heads (i + k) ≡ get_elem? (map match_header lines) k

Ahead-suc :
    (heads : Heads) (i : ℕ) (line : Text) (lines : List Text)
    → Ahead heads i (line ∷ lines)
    → Ahead heads (suc i) lines
Ahead-suc heads i line lines h k = ap (get_elem? heads) (shift i k) ∙ h (suc k)
  where
    shift : (a b : ℕ) → suc a + b ≡ a + suc b
    shift a b = omega arith

Ahead-now :
    (heads : Heads) (i : ℕ) (line : Text) (lines : List Text)
    → Ahead heads i (line ∷ lines)
    → get_elem? heads i ≡ some (match_header line)
Ahead-now heads i line lines h = ap (get_elem? heads) (at_zero i) ∙ h 0
  where
    at_zero : (a : ℕ) → a ≡ a + 0
    at_zero a = omega arith

Open-suc :
    (heads : Heads) (i : ℕ) (current : Option Reference)
    → get_elem? heads i ≡ some none
    → Open heads i current
    → Open heads (suc i) current
Open-suc heads i none h c = tt
Open-suc heads i (some r) h c = record {
  positive = c.positive;
  titled = c.titled;
  plain = λ k a b. elim (ℕ_discrete k i) [ yes e ↦ rw e h | no e ↦ c.plain k a (omega arith) ];
}

before : (i : ℕ) → suc i - 1 ≡ i
before i = omega arith

scan_lines-AllHeaded :
    (heads : Heads) (lines : List Text) (i : ℕ) (current : Option Reference) (refs : List Reference)
    → Ahead heads i lines
    → Open heads i current
    → AllHeaded heads refs
    → AllHeaded heads (scan_lines lines i current refs)
unfolding scan_lines
scan_lines-AllHeaded heads [] i current refs h c a =
    close_section-AllHeaded heads current i refs c a
scan_lines-AllHeaded heads (line ∷ lines) i current refs h c a =
    elim (Option-cases (match_header line)) [
      | inl e ↦
          rw (e, scan_lines)
            (scan_lines-AllHeaded heads lines (suc i) current refs (Ahead-suc heads i line lines h)
              (Open-suc heads i current (Ahead-now heads i line lines h ∙ ap some e) c) a)
      | inr (m, e) ↦
          rw (e, scan_lines)
            (scan_lines-AllHeaded heads lines (suc i)
              (some (record { header = m.1; level = m.0; start_line = suc i; end_line = 0 }))
              (close_section current i refs) (Ahead-suc heads i line lines h)
              (record {
                positive = omega arith;
                titled =
                    ap (get_elem? heads) (before i) ∙ Ahead-now heads i line lines h ∙ ap some e;
                plain = λ k x y. absurd (omega arith);
              })
              (close_section-AllHeaded heads current i refs c a))
    ]

-- Each section of a text stands behind a header line, with that line's level and title, and none of
-- its lines is a header.
pub parse_references-AllHeaded :
    (content : Text) → AllHeaded (map match_header (split_lines content)) (parse_references content)
unfolding parse_references
parse_references-AllHeaded content =
    scan_lines-AllHeaded (map match_header (split_lines content)) (split_lines content) 0 none []
      (λ k. ap (get_elem? (map match_header (split_lines content))) (add.zero k)) tt tt

-- ===== src/Context/Section/Order.antt =====
-- The sections that `ParseReferences` of pkg/context/context.go finds lie in the text, in order.
use skylark.Base.{
  ℕ, suc, ◌+◌, ◌-◌, ◌≤◌, ◌<◌, List, [], ◌∷◌, ◌++◌, Option, none, some, leb, length, arith,
  Bool-cases, Option-cases, inl, inr,
}
use skylark.Text.{Text}
use skylark.Text.Lines.{split_lines}
use skylark.Context.Section.{Reference, match_header, close_section, scan_lines, parse_references}

-- The sections lie between two line numbers, each behind the one before, and none is empty.
abbrev pub Ordered : ℕ → List Reference → ℕ → Type 0
Ordered lo [] hi = lo ≤ hi
Ordered lo (r ∷ rs) hi =
    (lo ≤ r.start_line) × (r.start_line ≤ r.end_line) × Ordered (suc r.end_line) rs hi

Ordered-mono :
    (lo hi top : ℕ) (rs : List Reference) → hi ≤ top → Ordered lo rs hi → Ordered lo rs top
Ordered-mono lo hi top [] h o = omega arith
Ordered-mono lo hi top (r ∷ rs) h o = (o.0, o.1, Ordered-mono (suc r.end_line) hi top rs h o.2)

Ordered-append :
    (lo hi top : ℕ) (rs : List Reference) (r : Reference)
    → hi ≤ r.start_line
    → r.start_line ≤ r.end_line
    → r.end_line < top
    → Ordered lo rs hi
    → Ordered lo (rs ++ (r ∷ [])) top
Ordered-append lo hi top [] r h k e o = (omega arith, k, e)
Ordered-append lo hi top (x ∷ rs) r h k e o =
    (o.0, o.1, Ordered-append (suc x.end_line) hi top rs r h k e o.2)

-- An open section begins behind those that are closed, and by line `i` at the latest.
abbrev Fits : Option Reference → ℕ → ℕ → Type 0
Fits none m i = m ≤ i
Fits (some r) m i = (m ≤ r.start_line) × (0 < r.start_line) × (r.start_line ≤ i)

close_section-Ordered :
    (current : Option Reference) (m i : ℕ) (refs : List Reference)
    → Fits current m i
    → Ordered 0 refs m
    → Ordered 0 (close_section current i refs) i
close_section-Ordered none m i refs f o = Ordered-mono 0 m i refs f o
close_section-Ordered (some r) m i refs f o = elim (Bool-cases (leb r.start_line (i - 1))) [
  | inl e ↦ rw e (
      Ordered-append 0 m i refs (record r { end_line = i - 1 }) f.0 (ground arith) (ground arith) o)
  | inr e ↦ rw e (Ordered-mono 0 m i refs (omega arith) o)
]

Fits-suc : (current : Option Reference) (m i : ℕ) → Fits current m i → Fits current m (suc i)
Fits-suc none m i f = omega arith
Fits-suc (some r) m i f = omega arith

scan_lines-Ordered :
    (lines : List Text) (i m : ℕ) (current : Option Reference) (refs : List Reference)
    → Fits current m i
    → Ordered 0 refs m
    → Ordered 0 (scan_lines lines i current refs) (i + length lines)
unfolding scan_lines
scan_lines-Ordered [] i m current refs f o =
    Ordered-mono 0 i (i + 0) (close_section current i refs) (omega arith)
      (close_section-Ordered current m i refs f o)
scan_lines-Ordered (line ∷ lines) i m current refs f o = elim (Option-cases (match_header line)) [
  | inl e ↦
      rw (e, scan_lines)
        (Ordered-mono 0 (suc i + length lines) _ _ (omega arith)
          (scan_lines-Ordered lines (suc i) m current refs (Fits-suc current m i f) o))
  | inr (h, e) ↦
      rw (e, scan_lines)
        (Ordered-mono 0 (suc i + length lines) _ _ (omega arith) (
          scan_lines-Ordered lines (suc i) i _ (close_section current i refs) (omega arith)
            (close_section-Ordered current m i refs f o)))
]

-- The sections of a text lie among its lines, in order, apart from one another, none empty.
pub parse_references-Ordered :
    (content : Text) → Ordered 0 (parse_references content) (length (split_lines content))
unfolding parse_references
parse_references-Ordered content =
    Ordered-mono 0 (0 + length (split_lines content)) _ _ (omega arith)
      (scan_lines-Ordered (split_lines content) 0 0 none [] (omega arith) (omega arith))

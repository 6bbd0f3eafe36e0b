-- ===== src/Sandbox/Version.antt =====
-- `VerifyToolVersion` of pkg/sandbox/sandbox.go, with what fmt.Sscanf makes of "%d.%d.%d".
use skylark.Base.{
  ℕ, zero, suc, ◌+◌, ◌-◌, ◌*◌, Bool, true, false, not, ◌&&◌, ◌||◌, Option, none, some, List, [],
  ◌∷◌, if◌then◌else◌, ltb, leb, ◌==◌, ℕ_eq, List_eq, ◌≡◌, refl,
}
use skylark.Base.Int.{ℤ, pos, negsuc, ltb_ℤ}
use skylark.Text.{Text, is_nil, bytes}
use skylark.Text.Trim.{ascii_space}
use skylark.Sandbox.{Sandbox}

abbrev is_digit : ℕ → Bool
is_digit c = leb 48 c && leb c 57

-- White space on the line is skipped.
unfoldable skip_space : Text → Text
skip_space [] = []
skip_space (c ∷ s) =
    let rest = skip_space s in if ascii_space c && not (c == 10) then rest else c ∷ s

-- The digits at the front, as a number that follows `n`.
unfoldable pub digits : ℕ → Text → ℕ × Text
digits n [] = (n, [])
digits n (c ∷ s) =
    let rest = digits (n * 10 + (c - 48)) s in if is_digit c then rest else (n, c ∷ s)

abbrev starts_with_digit : Text → Bool
starts_with_digit [] = false
starts_with_digit (c ∷ s) = is_digit c

abbrev negated : ℕ → ℤ
negated zero = pos 0
negated (suc n) = negsuc n

-- What stands behind a sign; a number that `int` does not hold is an error.
unfoldable unsigned : Bool → Text → Option (ℤ × Text)
unfolding digits
unsigned negative s =
    let (n, rest) = digits 0 s in
    if not (starts_with_digit s)
    then none
    else if negative
    then (if leb n 9223372036854775808 then some (negated n, rest) else none)
    else if ltb n 9223372036854775808
    then some (pos n, rest)
    else none

unfoldable pub signed : Text → Option (ℤ × Text)
unfolding unsigned
signed [] = none
signed (c ∷ s) =
    if c == 45
    then unsigned true s
    else if c == 43
    then unsigned false s
    else unsigned false (c ∷ s)

unfoldable scan_int : Text → Option (ℤ × Text)
unfolding skip_space signed
scan_int s = signed (skip_space s)

abbrev scan_dot : Text → Option Text
scan_dot [] = none
scan_dot (c ∷ s) = if c == 46 then some s else none

abbrev behind_dot : Option Text → Option (ℤ × Text)
behind_dot none = none
behind_dot (some s) = scan_int s

abbrev next_int : Option (ℤ × Text) → Option (ℤ × Text)
next_int none = none
next_int (some (n, rest)) = behind_dot (scan_dot rest)

abbrev value_of : Option (ℤ × Text) → ℤ
value_of none = pos 0
value_of (some (n, rest)) = n

-- The components that are not scanned are 0.
unfoldable parse_version : Text → List ℤ
unfolding scan_int
parse_version version =
    let first = scan_int version in
    let second = next_int first in
    value_of first ∷ value_of second ∷ value_of (next_int second) ∷ []

-- the loop over the components
unfoldable not_below : List ℤ → List ℤ → Bool
not_below (c ∷ current) (m ∷ minimum) =
    let rest = not_below current minimum in
    if ltb_ℤ c m then false else if ltb_ℤ m c then true else rest
not_below current minimum = true

unfoldable verify_tool_version : Text → Sandbox → Bool
unfolding parse_version not_below
verify_tool_version min_version s =
    if is_nil s.tool_version || is_nil min_version
    then true
    else not_below (parse_version s.tool_version) (parse_version min_version)

abbrev of_version : Text → Sandbox
of_version version = record {
  max_cpu_time = 0;
  env_whitelist = [];
  tool_version = version;
  cache_enabled = false;
}

-- 1.10.0 is not below 1.9.12, and 1.2 is below 1.2.1.
compares_numbers : verify_tool_version (bytes "1.9.12") (of_version (bytes "1.10.0")) ≡ true
unfolding verify_tool_version
compares_numbers = refl

fills_with_0 : verify_tool_version (bytes "1.2.1") (of_version (bytes "1.2")) ≡ false
unfolding verify_tool_version
fills_with_0 = refl

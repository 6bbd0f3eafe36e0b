-- ===== src/Security/Paths.antt =====
-- filepath.Abs, filepath.Clean and `isSubPath`, which pkg/security/concrete/file_guard.go compares
-- paths by. The paths are those of Unix, and `Clean` is called on paths that begin with a slash.
use skylark.Base.{
  ℕ, List, [], Option, Bool, ◌∷◌, if◌then◌else◌, true, ◌&&◌, all, ◌||◌, some, false, not, ◌≡◌, ◌==◌,
  ◌++◌, arith, ap, ℕ_eq, List_eq, sym, refl, ◌∙◌, none,
}
use skylark.Text.{Text, bytes, has_prefix, is_nil}
use skylark.Text.Split.{split_on, join_on, lacks, split_on-join_on}
use mathlib.Core.Path.{ap₂, sym}
use mathlib.Core.List.{append-nil, append_assoc}

abbrev pub slash : ℕ
slash = 47

abbrev drop_last : List Text → List Text
drop_last [] = []
drop_last (n ∷ []) = []
drop_last (n ∷ m ∷ ns) = n ∷ drop_last (m ∷ ns)

-- What an element of a path does to the names before it: "" and "." do nothing, ".." goes up.
abbrev enter : Text → List Text → List Text
enter n names =
    if is_nil n || n == bytes "."
    then names
    else if n == bytes ".."
    then drop_last names
    else names ++ (n ∷ [])

abbrev resolve : List Text → List Text → List Text
resolve [] names = names
resolve (n ∷ ns) names = resolve ns (enter n names)

-- The path of some names from the root.
abbrev pub rooted : List Text → Text
rooted names = slash ∷ join_on slash names

-- filepath.Clean(path)
unfoldable pub clean : Text → Text
clean path = rooted (resolve (split_on slash path) [])

-- filepath.Abs(path), given the working directory, if there is one
unfoldable pub abs : Option Text → Text → Option Text
unfolding clean
abs working path =
    if has_prefix path (slash ∷ [])
    then some (clean path)
    else elim working [ none ↦ none | some dir ↦ some (clean (dir ++ (slash ∷ path))) ]

-- Whether the second list begins with the first.
abbrev pub begins : List Text → List Text → Bool
begins [] cs = true
begins (p ∷ ps) [] = false
begins (p ∷ ps) (c ∷ cs) = c == p && begins ps cs

-- The comparison of the parts of two paths, one by one, once there are enough parts.
unfoldable pub is_sub_path : Text → Text → Bool
unfolding clean
is_sub_path child parent = begins (split_on slash (clean parent)) (split_on slash (clean child))

-- A name that `Clean` leaves as it is.
abbrev pub plain : Text → Bool
plain n = lacks slash n && not (is_nil n || n == bytes "." || n == bytes "..")

resolve-plain : (ns names : List Text) → all plain ns ≡ true → resolve ns names ≡ names ++ ns
resolve-plain [] names h = sym (append-nil names)
resolve-plain (n ∷ ns) names h =
    rw enters (resolve-plain ns (names ++ (n ∷ [])) (ground arith) ∙ append_assoc names (n ∷ []) ns)
  where
    enters : enter n names ≡ names ++ (n ∷ [])
    enters = ground arith

all-lacks : (ns : List Text) → all plain ns ≡ true → all (lacks slash) ns ≡ true
all-lacks [] h = refl
all-lacks (n ∷ ns) h = ground (arith, all-lacks ns)

split_on-rooted :
    (n : Text) (ns : List Text)
    → all plain (n ∷ ns) ≡ true
    → split_on slash (rooted (n ∷ ns)) ≡ [] ∷ n ∷ ns
split_on-rooted n ns h =
    ap (◌∷◌ []) (split_on-join_on slash (n ∷ ns) (λ e. cc) (all-lacks (n ∷ ns) h))

-- A clean path stays as it is.
clean-rooted : (ns : List Text) → all plain ns ≡ true → clean (rooted ns) ≡ rooted ns
unfolding clean
clean-rooted [] h = refl
clean-rooted (n ∷ ns) h =
    ap (λ parts. rooted (resolve parts [])) (split_on-rooted n ns h)
    ∙ ap rooted (resolve-plain (n ∷ ns) [] h)

-- A path lies below another one that is not the root just if its names begin with the other's:
-- /ab is not below /a.
pub is_sub_path-rooted :
    (p : Text) (ps : List Text) (c : Text) (cs : List Text)
    → all plain (p ∷ ps) ≡ true
    → all plain (c ∷ cs) ≡ true
    → is_sub_path (rooted (c ∷ cs)) (rooted (p ∷ ps)) ≡ begins (p ∷ ps) (c ∷ cs)
unfolding is_sub_path
is_sub_path-rooted p ps c cs h k =
    ap₂ (λ parent child. begins (split_on slash parent) (split_on slash child))
      (clean-rooted (p ∷ ps) h) (clean-rooted (c ∷ cs) k)
    ∙ ap₂ begins (split_on-rooted p ps h) (split_on-rooted c cs k)

-- Nothing lies below the root but the root itself.
is_sub_path-root :
    (c : Text) (cs : List Text)
    → all plain (c ∷ cs) ≡ true
    → is_sub_path (rooted (c ∷ cs)) (rooted []) ≡ false
unfolding is_sub_path clean
is_sub_path-root c cs k =
    ap (λ child. begins ([] ∷ [] ∷ []) (split_on slash child)) (clean-rooted (c ∷ cs) k)
    ∙ ap (begins ([] ∷ [] ∷ [])) (split_on-rooted c cs k)
    ∙ ground arith

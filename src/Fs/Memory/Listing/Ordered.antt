-- ===== src/Fs/Memory/Listing/Ordered.antt =====
-- What ReadDir of pkg/fs/memory/fs.go lists.
use skylark.Base.{
  length, keep, ◌↔◌, true, false, List, [], ◌∷◌, ◌++◌, ok, if-cases, List_eq, ℕ_eq, ◌≡◌, refl,
  arith, ==_iff, inl, inr, Bool, ◌∙◌,
}
use skylark.Fs.Memory.Listing.Entries.{IsEntry, subdirectories-Mem, files_in-Mem}
use mathlib.Core.List.Memᴰ
use mathlib.Core.List.{Memᴰ}
use skylark.Text.{Text}
use skylark.Fs.Memory.{Fs, Node, valid_path, has_dir, has_file}
use skylark.Fs.Memory.Listing.{
  before, node_name, subdirectories, files_in, insert_node, sort_nodes, read_dir,
}

abbrev From : Node → List Node → Type 0
From n [] = Unit {0}
From n (m ∷ ns) = before (node_name m) (node_name n) ≡ false

-- No node's name is before that of the node above it.
abbrev pub IsOrdered : List Node → Type 0
IsOrdered [] = Unit {0}
IsOrdered (n ∷ ns) = From n ns × IsOrdered ns

before_asym : (s t : Text) → before s t ≡ true → before t s ≡ false
before_asym s [] h = absurd (cc h)
before_asym [] (b ∷ t) h = refl
before_asym (a ∷ s) (b ∷ t) h = ground (arith, h, before_asym s t, ==_iff a b, ==_iff b a)

insert_node-From :
    (x n : Node) (ns : List Node)
    → before (node_name n) (node_name x) ≡ false
    → From x ns
    → From x (insert_node n ns)
unfolding insert_node
insert_node-From x n [] h f = h
insert_node-From x n (m ∷ ns) h f =
    if-cases (From x) (before (node_name m) (node_name n)) _ _ (λ e. f) (λ e. h)

insert_node-IsOrdered : (n : Node) (ns : List Node) → IsOrdered ns → IsOrdered (insert_node n ns)
unfolding insert_node
insert_node-IsOrdered n [] o = (tt, tt)
insert_node-IsOrdered n (m ∷ ns) o =
    if-cases IsOrdered (before (node_name m) (node_name n)) _ _
      (λ e. (
        insert_node-From m n ns (before_asym (node_name m) (node_name n) e) o.0,
        insert_node-IsOrdered n ns o.1,
      ))
      (λ e. (e, o))

sort_nodes-IsOrdered : (ns : List Node) → IsOrdered (sort_nodes ns)
unfolding sort_nodes
sort_nodes-IsOrdered [] = tt
sort_nodes-IsOrdered (n ∷ ns) = insert_node-IsOrdered n (sort_nodes ns) (sort_nodes-IsOrdered ns)

insert_node-Mem : (x n : Node) (ns : List Node) → Memᴰ x (insert_node n ns) ↔ Memᴰ x (n ∷ ns)
unfolding insert_node
insert_node-Mem x n [] = (λ m. m, λ m. m)
insert_node-Mem x n (k ∷ ns) =
    if-cases (λ ms. Memᴰ x ms ↔ Memᴰ x (n ∷ k ∷ ns)) (before (node_name k) (node_name n)) _ _
      (λ e. (
        λ m. elim (Memᴰ.cases_cons m) [
          | inl s ↦ Memᴰ.tail (Memᴰ.head s)
          | inr r ↦ elim (Memᴰ.cases_cons ((insert_node-Mem x n ns).0 r)) [
            | inl s ↦ Memᴰ.head s
            | inr q ↦ Memᴰ.tail (Memᴰ.tail q)
          ]
        ],
        λ m. elim (Memᴰ.cases_cons m) [
          | inl s ↦ Memᴰ.tail ((insert_node-Mem x n ns).1 (Memᴰ.head s))
          | inr r ↦ elim (Memᴰ.cases_cons r) [
            | inl s ↦ Memᴰ.head s
            | inr q ↦ Memᴰ.tail ((insert_node-Mem x n ns).1 (Memᴰ.tail q))
          ]
        ],
      ))
      (λ e. (λ m. m, λ m. m))

sort_nodes-Mem : (x : Node) (ns : List Node) → Memᴰ x (sort_nodes ns) ↔ Memᴰ x ns
unfolding sort_nodes
sort_nodes-Mem x [] = (λ m. m, λ m. m)
sort_nodes-Mem x (n ∷ ns) = (
  λ m. elim (Memᴰ.cases_cons ((insert_node-Mem x n (sort_nodes ns)).0 m)) [
    | inl s ↦ Memᴰ.head s
    | inr r ↦ Memᴰ.tail ((sort_nodes-Mem x ns).0 r)
  ],
  λ m. (insert_node-Mem x n (sort_nodes ns)).1 (elim (Memᴰ.cases_cons m) [
    | inl s ↦ Memᴰ.head s
    | inr r ↦ Memᴰ.tail ((sort_nodes-Mem x ns).1 r)
  ]),
)

count-insert_node :
    (test : Node → Bool) (n : Node) (ns : List Node)
    → length (keep test (insert_node n ns)) ≡ length (keep test (n ∷ ns))
unfolding insert_node
count-insert_node test n [] = refl
count-insert_node test n (m ∷ ns) = ground (arith, count-insert_node test n ns)

count-sort_nodes :
    (test : Node → Bool) (ns : List Node)
    → length (keep test (sort_nodes ns)) ≡ length (keep test ns)
unfolding sort_nodes
count-sort_nodes test [] = refl
count-sort_nodes test (n ∷ ns) =
    count-insert_node test n (sort_nodes ns) ∙ ground (arith, count-sort_nodes test ns)

-- What ReadDir lists, in order.
listing-Mem :
    (name : Text) (f : Fs) (x : Node)
    → Memᴰ x (sort_nodes (subdirectories name f.dirs ++ files_in name f.files)) ↔ IsEntry name f x
listing-Mem name f x = (
  λ m.
      elim (Memᴰ.append_cases (subdirectories name f.dirs)
        ((sort_nodes-Mem x (subdirectories name f.dirs ++ files_in name f.files)).0 m)) [
          | inl d ↦ inl ((subdirectories-Mem name f.dirs x).0 d)
          | inr d ↦ inr ((files_in-Mem name f.files x).0 d)
        ],
  λ e. (sort_nodes-Mem x (subdirectories name f.dirs ++ files_in name f.files)).1 (elim e [
    | inl d ↦ Memᴰ.append_left (files_in name f.files) ((subdirectories-Mem name f.dirs x).1 d)
    | inr d ↦ Memᴰ.append_right (subdirectories name f.dirs) ((files_in-Mem name f.files x).1 d)
  ]),
)

-- ReadDir of a valid path at which there is a directory and no file succeeds, and lists, in the order of
-- their names, the directories other than it and the files whose paths are its own, a slash and a name
-- without a slash, or such a name alone if the path is ".", and nothing else; each of those that it has
-- collected stands there as often as it was collected.
pub read_dir-IsOrdered :
    (name : Text) (f : Fs)
    → valid_path name ≡ true
    → has_file f name ≡ false
    → has_dir f name ≡ true
    → (ns : List Node) × (read_dir name f ≡ ok ns)
      × IsOrdered ns
      × ((x : Node) → Memᴰ x ns ↔ IsEntry name f x)
      × ((test : Node → Bool)
          → length (keep test ns)
            ≡ length (keep test (subdirectories name f.dirs ++ files_in name f.files)))
unfolding read_dir
read_dir-IsOrdered name f v a d =
    let ns = subdirectories name f.dirs ++ files_in name f.files in
    (
      sort_nodes ns,
      rw v (rw a (rw d refl)),
      sort_nodes-IsOrdered ns,
      listing-Mem name f,
      λ test. count-sort_nodes test ns,
    )

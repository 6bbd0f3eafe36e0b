-- ===== src/Fs/Memory/Rename/Entries.antt =====
-- The loop of Rename of pkg/fs/memory/fs.go that moves the entries below a path.
use skylark.Base.{
  true, false, List, [], ◌∷◌, ◌++◌, map, Option, none, some, if◌then◌else◌, if-cases, ◌+◌, length,
  length-append, drop, drop_append, List_eq, ℕ_eq, ◌≡◌, refl, ap, sym, ◌∙◌, subst, inl, inr,
  Bool-cases, ◌==◌, ==_iff, ==_refl, arith, Bool,
}
use skylark.Base.Dict.{Dict, lookup, insert, lookup-insert, lookup-remove}
use skylark.Text.{Text, has_prefix}
use skylark.Fs.Memory.{below, slash}
use skylark.Fs.Memory.Rename.{moved_path, move_entry, move_entries}
use skylark.Text.Prefix.{has_prefix-append, has_prefix-drop}
use mathlib.Core.List.Memᴰ
use mathlib.Core.List.{Memᴰ, append_assoc}

below-split :
    (old_path p : Text)
    → below old_path p ≡ true
    → p ≡ old_path ++ (slash ∷ drop (length old_path + 1) p)
below-split old_path p h =
    has_prefix-drop p (old_path ++ (slash ∷ [])) h
    ∙ append_assoc old_path (slash ∷ []) (drop (length (old_path ++ (slash ∷ []))) p)
    ∙ ap (λ n. old_path ++ (slash ∷ drop n p)) (length-append old_path (slash ∷ []))

-- No path below the new one is below the old one.
abbrev pub Apart : (old_path new_path : Text) → Type 0
Apart old_path new_path = (rel : Text) → below old_path (new_path ++ (slash ∷ rel)) ≡ false

module _ (old_path new_path : Text) (apart : Apart old_path new_path) where
  moved_path-ne :
      (p j : Text) → below old_path j ≡ true → (moved_path old_path new_path p == j) ≡ false
  moved_path-ne p j h = elim (Bool-cases (moved_path old_path new_path p == j)) [
    | inl e ↦ absurd (
        cc (
          h,
          apart (drop (length old_path + 1) p),
          (==_iff (moved_path old_path new_path p) j).0 e,
        ))
    | inr e ↦ e
  ]

  ne-moved_path :
      (p j : Text) → below old_path p ≡ true → (p == moved_path old_path new_path j) ≡ false
  ne-moved_path p j h = elim (Bool-cases (p == moved_path old_path new_path j)) [
    | inl e ↦ absurd (
        cc (
          h,
          apart (drop (length old_path + 1) j),
          (==_iff p (moved_path old_path new_path j)).0 e,
        ))
    | inr e ↦ e
  ]

  drop-new :
      (p j : Text)
      → moved_path old_path new_path p ≡ moved_path old_path new_path j
      → drop (length old_path + 1) p ≡ drop (length old_path + 1) j
  drop-new p j e = ap (drop 1) (
      sym (drop_append new_path (slash ∷ drop (length old_path + 1) p))
      ∙ ap (drop (length new_path)) e
      ∙ drop_append new_path (slash ∷ drop (length old_path + 1) j))

  moved_path-inj :
      (p j : Text)
      → below old_path p ≡ true
      → below old_path j ≡ true
      → (p == j) ≡ false
      → (moved_path old_path new_path p == moved_path old_path new_path j) ≡ false
  moved_path-inj p j h k ne =
      elim (Bool-cases (moved_path old_path new_path p == moved_path old_path new_path j)) [
        | inl e ↦
            let rests =
              drop-new p j
                ((==_iff (moved_path old_path new_path p) (moved_path old_path new_path j)).0 e) in
            let same =
              below-split old_path p h
              ∙ ap (λ rest. old_path ++ (slash ∷ rest)) rests
              ∙ sym (below-split old_path j k) in
            absurd (cc (ne, same, ==_refl j))
        | inr e ↦ e
      ]

module _ {A : Type 0} where
  lookup-move_entry :
      (p q j : Text) (o : Option A) (m : Dict Text A)
      → (p == j) ≡ false
      → (q == j) ≡ false
      → lookup j (move_entry p q o m) ≡ lookup j m
  unfolding move_entry
  lookup-move_entry p q j none m h k = refl
  lookup-move_entry p q j (some x) m h k =
      lookup-remove p j (insert q x m) ∙ rw h (lookup-insert q j x m ∙ rw k refl)

module _ {A : Type 0} (old_path new_path : Text) (apart : Apart old_path new_path) where
  abbrev pub At : Text → A → Dict Text A → Type 0
  At p x m = lookup p m ≡ some x

  -- An entry has moved from `p`.
  pub record HasMoved (p : Text) (x : A) (m : Dict Text A) : Type 0 where
    pub gone : lookup p m ≡ none
    pub there : lookup (moved_path old_path new_path p) m ≡ some x

  abbrev step_on : Text → Dict Text A → Dict Text A
  step_on p m =
      if below old_path p then move_entry p (moved_path old_path new_path p) (lookup p m) m else m

  -- The entry is still at `p`, or has moved.
  step_on-At :
      (p j : Text) (x : A) (m : Dict Text A)
      → below old_path j ≡ true
      → (p == j) ≡ false
      → At j x m
      → At j x (step_on p m)
  step_on-At p j x m b ne h =
      if-cases (At j x) (below old_path p) _ _
        (λ e.
          lookup-move_entry p (moved_path old_path new_path p) j (lookup p m) m ne
            (moved_path-ne old_path new_path apart p j b)
          ∙ h)
        (λ e. h)

  move_entry-moves :
      (j : Text) (x : A) (m : Dict Text A)
      → below old_path j ≡ true
      → HasMoved j x (move_entry j (moved_path old_path new_path j) (some x) m)
  unfolding move_entry
  move_entry-moves j x m b =
      let q = moved_path old_path new_path j in
      record {
        gone = lookup-remove j j (insert q x m) ∙ rw (==_refl j) refl;
        there =
            lookup-remove j q (insert q x m)
            ∙ rw (ne-moved_path old_path new_path apart j j b)
                (lookup-insert q q x m ∙ rw (==_refl q) refl);
      }

  step_on-moves :
      (j : Text) (x : A) (m : Dict Text A)
      → below old_path j ≡ true
      → At j x m
      → HasMoved j x (step_on j m)
  step_on-moves j x m b h =
      if-cases (HasMoved j x) (below old_path j) _ _
        (λ e.
          subst (λ o. HasMoved j x (move_entry j (moved_path old_path new_path j) o m)) (sym h)
            (move_entry-moves j x m b))
        (λ e. absurd (cc (b, e)))

  step_on-HasMoved :
      (p j : Text) (x : A) (m : Dict Text A)
      → below old_path j ≡ true
      → HasMoved j x m
      → HasMoved j x (step_on p m)
  unfolding move_entry
  step_on-HasMoved p j x m b h =
      if-cases (HasMoved j x) (below old_path p) _ _
        (λ e. elim (Bool-cases (p == j)) [
          | inl same ↦
              subst
                (λ k. HasMoved j x (move_entry k (moved_path old_path new_path k) (lookup k m) m))
                (sym ((==_iff p j).0 same))
                (subst (λ o. HasMoved j x (move_entry j (moved_path old_path new_path j) o m))
                  (sym h.gone) h)
          | inr ne ↦
              let q = moved_path old_path new_path p in
              record {
                gone =
                    lookup-move_entry p q j (lookup p m) m ne
                      (moved_path-ne old_path new_path apart p j b)
                    ∙ h.gone;
                there =
                    lookup-move_entry p q (moved_path old_path new_path j) (lookup p m) m
                      (ne-moved_path old_path new_path apart p j e)
                      (moved_path-inj old_path new_path apart p j e b ne)
                    ∙ h.there;
              }
        ])
        (λ e. h)

  move_entries-HasMoved :
      (ps : List Text) (j : Text) (x : A) (m : Dict Text A)
      → below old_path j ≡ true
      → HasMoved j x m
      → HasMoved j x (move_entries old_path new_path ps m)
  unfolding move_entries
  move_entries-HasMoved [] j x m b h = h
  move_entries-HasMoved (p ∷ ps) j x m b h =
      move_entries-HasMoved ps j x (step_on p m) b (step_on-HasMoved p j x m b h)

  pub move_entries-moves :
      (ps : List Text) (j : Text) (x : A) (m : Dict Text A)
      → Memᴰ j ps
      → below old_path j ≡ true
      → At j x m
      → HasMoved j x (move_entries old_path new_path ps m)
  unfolding move_entries
  move_entries-moves [] j x m i b h = absurd (Memᴰ.not-nil i)
  move_entries-moves (p ∷ ps) j x m i b h = elim (Bool-cases (p == j)) [
    | inl e ↦
        move_entries-HasMoved ps j x (step_on p m) b (
          subst (λ k. HasMoved j x (step_on k m)) (sym ((==_iff p j).0 e))
            (step_on-moves j x m b h))
    | inr e ↦ elim (Memᴰ.cases_cons i) [
      | inl s ↦ absurd (cc (e, s, ==_refl j))
      | inr n ↦ move_entries-moves ps j x (step_on p m) n b (step_on-At p j x m b e h)
    ]
  ]

pub lookup-keys :
    {A : Type 0} (j : Text) (x : A) (m : Dict Text A)
    → lookup j m ≡ some x
    → Memᴰ j (map (λ entry. entry.0) m)
unfolding lookup
lookup-keys j x [] h = absurd (cc h)
lookup-keys j x ((k, v) ∷ m) h = elim (Bool-cases (k == j)) [
  | inl e ↦ Memᴰ.head (sym ((==_iff k j).0 e))
  | inr e ↦ Memᴰ.tail (lookup-keys j x m (ground (arith, h, e)))
]

pub moved_path-below :
    (old_path new_path rel : Text)
    → moved_path old_path new_path (old_path ++ (slash ∷ rel)) ≡ new_path ++ (slash ∷ rel)
moved_path-below old_path new_path rel =
    ap (λ rest. new_path ++ (slash ∷ rest))
      (ap (λ n. drop n (old_path ++ (slash ∷ rel))) (sym (length-append old_path (slash ∷ [])))
        ∙ ap (drop (length (old_path ++ (slash ∷ []))))
            (sym (append_assoc old_path (slash ∷ []) rel))
        ∙ drop_append (old_path ++ (slash ∷ [])) rel)

pub below-path : (path rel : Text) → below path (path ++ (slash ∷ rel)) ≡ true
below-path path rel =
    subst (λ p. has_prefix p (path ++ (slash ∷ [])) ≡ true) (append_assoc path (slash ∷ []) rel)
      (has_prefix-append (path ++ (slash ∷ [])) rel)

-- Two paths of which a test tells one differ.
told : (test : Text → Bool) (p j : Text) → test p ≡ true → test j ≡ false → (p == j) ≡ false
told test p j h k = elim (Bool-cases (p == j)) [
  | inl e ↦ absurd (cc (h, k, (==_iff p j).0 e))
  | inr e ↦ e
]

-- Entries elsewhere stay.
pub move_entries-elsewhere :
    {A : Type 0} (old_path new_path : Text) (ps : List Text) (j : Text) (m : Dict Text A)
    → below old_path j ≡ false
    → below new_path j ≡ false
    → lookup j (move_entries old_path new_path ps m) ≡ lookup j m
unfolding move_entries
move_entries-elsewhere old_path new_path [] j m a b = refl
move_entries-elsewhere old_path new_path (p ∷ ps) j m a b =
    move_entries-elsewhere old_path new_path ps j _ a b
    ∙ if-cases (λ n. lookup j n ≡ lookup j m) (below old_path p) _ _
        (λ e.
          lookup-move_entry p (moved_path old_path new_path p) j (lookup p m) m
            (told (below old_path) p j e a)
            (told (below new_path) (moved_path old_path new_path p) j (below-path new_path _) b))
        (λ e. refl)

-- ===== src/Config/FileStore/Reloaded.antt =====
-- What is read of a config file that the store of pkg/config/file/store.go has written.
use skylark.Base.{
  Option, none, some, ok, err, is_ok, [], ◌∷◌, ◌≡◌, refl, ap, sym, ◌∙◌, true, if◌then◌else◌, ◌==◌,
  List_eq, ℕ_eq, Bool-cases, inl, ==_iff, inr,
}
use skylark.Base.Dict.{Dict, lookup, insert, lookup-insert}
use skylark.Text.{Text}
use skylark.Config.FileStore.{
  Writing, writes, mkdir_fails, write_fails, Yaml, FileStore, merge, Checked, run_validator,
  load_decoded, load_file, load_values, write_file, save_checked, save_values, set_checked,
  set_value,
}
use mathlib.Core.Path.{ap₂}

-- The first of two optional values.
abbrev pub or_else : {A : Type 0} → Option A → Option A → Option A
or_else none o = o
or_else (some a) o = some a

module _ {Value : Type 0} where
  abbrev pub SameValues : Dict Text Value → Dict Text Value → Type 0
  SameValues m n = (k : Text) → lookup k m ≡ lookup k n

  -- No key is there twice.
  abbrev pub IsDistinct : Dict Text Value → Type 0
  IsDistinct [] = Unit {0}
  IsDistinct ((k, v) ∷ m) = (lookup k m ≡ none) × IsDistinct m

  -- YAML reads what it has written, and no key twice.
  pub record ReadsBack (yaml : Yaml Value) : Type 0 where
    pub reads :
        (m : Dict Text Value) (t : Text)
        → yaml.encode m ≡ some t
        → (n : Dict Text Value) × (yaml.decode t ≡ (true, n)) × IsDistinct n × SameValues n m

  lookup-merge :
      (read m : Dict Text Value) (j : Text)
      → IsDistinct read
      → lookup j (merge read m) ≡ or_else (lookup j read) (lookup j m)
  unfolding lookup merge
  lookup-merge [] m j d = refl
  lookup-merge ((k, v) ∷ read) m j (fresh, d) =
      lookup-merge read (insert k v m) j d ∙ elim (Bool-cases (k == j)) [
        | inl e ↦ rw e (
            ap₂ or_else (ap (λ n. lookup n read) (sym ((==_iff k j).0 e)) ∙ fresh)
              (lookup-insert k j v m ∙ rw e refl))
        | inr e ↦ rw e (ap (or_else (lookup j read)) (lookup-insert k j v m ∙ rw e refl))
      ]

module _ {Value E : Type 0} (yaml : Yaml Value)
    (validate : Option (Dict Text Value → Option E)) where
  write_file-ok :
      (outcome : Writing) (o : Option Text) (s : FileStore Value)
      → is_ok (write_file yaml validate outcome o s).0 ≡ true
      → (t : Text) × (o ≡ some t) × ((write_file yaml validate outcome o s).1.file ≡ some t)
  unfolding write_file
  write_file-ok outcome none s h = absurd (cc h)
  write_file-ok writes (some t) s h = (t, refl, refl)
  write_file-ok mkdir_fails (some t) s h = absurd (cc h)
  write_file-ok (write_fails n) (some t) s h = absurd (cc h)

  save_checked-ok :
      (outcome : Writing) (c : Checked yaml validate) (s : FileStore Value)
      → is_ok (save_checked yaml validate outcome c s).0 ≡ true
      → (t : Text) × (yaml.encode s.values ≡ some t)
        × ((save_checked yaml validate outcome c s).1.file ≡ some t)
  unfolding save_checked
  save_checked-ok outcome (err e) s h = absurd (cc h)
  save_checked-ok outcome (ok u) s h = write_file-ok outcome (yaml.encode s.values) s h

  set_checked-ok :
      (outcome : Writing) (key : Text) (c : Checked yaml validate) (s : FileStore Value)
      → is_ok (set_checked yaml validate outcome key c s).0 ≡ true
      → (t : Text) × (yaml.encode s.values ≡ some t)
        × ((set_checked yaml validate outcome key c s).1.file ≡ some t)
  unfolding set_checked save_values
  set_checked-ok outcome key (err e) s h = absurd (cc h)
  set_checked-ok outcome key (ok u) s h =
      save_checked-ok outcome (run_validator yaml validate validate s.values) s h

  load_file-some :
      (t : Text) (n : Dict Text Value) (s : FileStore Value)
      → yaml.decode t ≡ (true, n)
      → (load_file yaml validate (some t) s).1.values ≡ merge n s.values
  unfolding load_file load_decoded
  load_file-some t n s h = ap (λ o. (load_decoded yaml validate o s).1.values) h

  -- Where YAML reads back what it has written: after a Set that succeeds, a store that loads the file,
  -- valid or not, has the value under the key, and the values of the store under its other keys; where the
  -- file has none for a key, it keeps the value that it had in memory.
  pub load_values-set_value :
      (outcome : Writing) (key : Text) (v : Value) (s old : FileStore Value) (k : Text)
      → ReadsBack yaml
      → is_ok (set_value yaml validate outcome key (some v) s).0 ≡ true
      → lookup k
          (load_values yaml validate (record old {
            file = (set_value yaml validate outcome key (some v) s).1.file;
          })).1.values
        ≡ or_else (if key == k then some v else lookup k s.values) (lookup k old.values)
  unfolding set_value load_values
  load_values-set_value outcome key v s old k b h =
      let m = insert key v s.values in
      let w =
        set_checked-ok outcome key (run_validator yaml validate validate m)
          (record s { values = m }) h in
      let r = b.reads m w.0 w.1 in
      let after = record old { file = (set_value yaml validate outcome key (some v) s).1.file } in
      ap (λ file. lookup k (load_file yaml validate file after).1.values) w.2
      ∙ ap (lookup k) (load_file-some w.0 r.0 after r.1)
      ∙ lookup-merge r.0 old.values k r.2
      ∙ ap (λ o. or_else o (lookup k old.values)) (r.3 k ∙ lookup-insert key k v s.values)

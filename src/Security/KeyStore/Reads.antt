-- ===== src/Security/KeyStore/Reads.antt =====
-- What a key store saves, and what is read of it again.
use skylark.Base.{
  Bool, true, false, Option, none, some, ok, is_ok, [], ◌∷◌, ◌++◌, ◌+◌, ◌≤◌, ◌==◌, ◌&&◌, ◌≡◌, refl,
  ap, sym, ◌⊎◌, inl, inr, ltb, length, all, arith, take_append, drop_append, length-append,
  if-cases, ℕ_eq, List_eq, ==_iff, Bool-cases, subst,
}
use skylark.Base.Dict.{insert, lookup, remove}
use skylark.Text.{Text, bytes}
use skylark.Security.KeyStore.{
  Key, Keys, Codec, Saving, saves, nonce_fails, write_fails, rename_fails, KeyStore, sealed,
  save_marshalled, save, parse_keys, load, new_key_store, opened,
}
use mathlib.Core.Path.{ap₂}
use mathlib.Core.Option.{some-injective}

-- Two lists of keys have the same entries.
abbrev SameKeys : Keys → Keys → Type 0
SameKeys m n = (name : Text) → lookup name m ≡ lookup name n

-- An entry's texts are in UTF-8.
abbrev pub valid_entry : (Text → Bool) → Text × Key → Bool
valid_entry is_utf8 (name, key) =
    is_utf8 name && is_utf8 key.value && is_utf8 key.name && is_utf8 key.kind

-- What package cipher says of GCM, and encoding/json of maps whose texts are in UTF-8.
pub record Faithful (c : Codec) (is_utf8 : Text → Bool) : Type 0 where
  pub unseals : (nonce plaintext : Text) → c.unseal nonce (c.seal nonce plaintext) ≡ some plaintext
  pub tagged : (nonce plaintext : Text) → 1 ≤ length (c.seal nonce plaintext)
  pub reads_back :
      (m : Keys) (t : Text)
      → all (valid_entry is_utf8) m ≡ true
      → c.marshal m ≡ some t
      → (n : Keys) × (c.unmarshal t ≡ some n) × SameKeys n m
  pub kind_valid : is_utf8 (bytes "generic") ≡ true

module _ (p : Text × Key → Bool) where
  pub all-insert :
      (name : Text) (key : Key) (m : Keys)
      → p (name, key) ≡ true
      → all p m ≡ true
      → all p (insert name key m) ≡ true
  unfolding insert
  all-insert name key [] h k = ground (arith, h)
  all-insert name key ((j, old) ∷ m) h k =
      ground (arith, ==_iff j name, h, k, all-insert name key m h)

  pub all-remove : (name : Text) (m : Keys) → all p m ≡ true → all p (remove name m) ≡ true
  unfolding remove
  all-remove name [] k = refl
  all-remove name ((j, old) ∷ m) k = ground (arith, k, all-remove name m)

  pub all-lookup :
      (name : Text) (key : Key) (m : Keys)
      → all p m ≡ true
      → lookup name m ≡ some key
      → p (name, key) ≡ true
  unfolding lookup
  all-lookup name key [] k h = absurd (cc h)
  all-lookup name key ((j, old) ∷ m) k h = elim (Bool-cases (j == name)) [
    | inl e ↦
        subst (λ x. p x ≡ true)
          (ap₂ (λ a b. (a, b)) ((==_iff j name).0 e) (some-injective old key (rw e at h)))
          (ground (arith, k))
    | inr e ↦ all-lookup name key m (ground (arith, k)) (rw e at h)
  ]

module _ (c : Codec) (is_utf8 : Text → Bool) (l : Faithful c is_utf8) where
  abbrev pub IsClean : Keys → Type 0
  IsClean m = all (valid_entry is_utf8) m ≡ true

  -- Opening a store with this file gives these keys.
  pub record Reads (stored : Option Text) (m : Keys) : Type 0 where
    pub keys : Keys
    pub opens :
        (temporary : Option Text)
        → new_key_store c stored temporary
          ≡ ok (record { keys = keys; stored = stored; temporary = temporary })
    pub same : SameKeys keys m

  -- The nonce of a save that succeeds has the cipher's size.
  abbrev pub proper_saving : Saving → Bool
  proper_saving (saves nonce) = length nonce == c.nonce_size
  proper_saving outcome = true

  load-sealed :
      (nonce plaintext : Text) (m : Keys)
      → length nonce ≡ c.nonce_size
      → c.unmarshal plaintext ≡ some m
      → load c (sealed c nonce plaintext) ≡ ok m
  unfolding load sealed parse_keys
  load-sealed nonce plaintext m size u =
      let x = c.seal nonce plaintext in
      if-cases (λ r. r ≡ ok m) (ltb (length (nonce ++ x)) (c.nonce_size + 1)) _ _
        (λ h. absurd (ground (arith, h, size, l.tagged nonce plaintext, length-append nonce x)))
        (λ h.
          rw (sym size, take_append nonce x, drop_append nonce x, l.unseals nonce plaintext, u)
            refl)

  Reads-some : (file : Text) (m n : Keys) → load c file ≡ ok n → SameKeys n m → Reads (some file) m
  unfolding new_key_store opened
  Reads-some file m n h same = record {
    keys = n;
    opens = λ temporary. ap (λ r. opened c r file temporary) h;
    same = same;
  }

  -- A save that succeeds makes a file that reads as the keys.
  pub save-Reads :
      (outcome : Saving) (o : Option Text) (ks : KeyStore)
      → IsClean ks.keys
      → proper_saving outcome ≡ true
      → c.marshal ks.keys ≡ o
      → ((is_ok (save_marshalled c outcome o ks).0 ≡ false)
          × ((save_marshalled c outcome o ks).1.stored ≡ ks.stored))
        ⊎ Reads (save_marshalled c outcome o ks).1.stored ks.keys
  unfolding save_marshalled
  save-Reads outcome none ks clean proper h = inl (refl, refl)
  save-Reads (saves nonce) (some plaintext) ks clean proper h =
      let b = l.reads_back ks.keys plaintext clean h in
      inr (
        Reads-some (sealed c nonce plaintext) ks.keys b.0
          (load-sealed nonce plaintext b.0 ((==_iff (length nonce) c.nonce_size).0 proper) b.1) b.2)
  save-Reads nonce_fails (some plaintext) ks clean proper h = inl (refl, refl)
  save-Reads (write_fails nonce n) (some plaintext) ks clean proper h = inl (refl, refl)
  save-Reads (rename_fails nonce) (some plaintext) ks clean proper h = inl (refl, refl)

  save_marshalled-keys :
      (outcome : Saving) (o : Option Text) (ks : KeyStore)
      → (save_marshalled c outcome o ks).1.keys ≡ ks.keys
  unfolding save_marshalled
  save_marshalled-keys outcome none ks = refl
  save_marshalled-keys (saves nonce) (some plaintext) ks = refl
  save_marshalled-keys nonce_fails (some plaintext) ks = refl
  save_marshalled-keys (write_fails nonce n) (some plaintext) ks = refl
  save_marshalled-keys (rename_fails nonce) (some plaintext) ks = refl

  pub save-keys : (outcome : Saving) (ks : KeyStore) → (save c outcome ks).1.keys ≡ ks.keys
  unfolding save
  save-keys outcome ks = save_marshalled-keys outcome (c.marshal ks.keys) ks

-- ===== src/Security/KeyStore/Reopened.antt =====
-- A key store that has been closed and opened again implements a function from names to keys.
use skylark.Base.{
  ℕ, Bool, true, Option, none, some, Result, ok, err, is_ok, List, [], ◌∷◌, if◌then◌else◌, ◌==◌,
  ◌||◌, ◌≡◌, refl, ap, sym, ◌∙◌, inl, inr, all, arith, if-cases, ℕ_eq, List_eq, Bool-cases, ==_iff,
}
use skylark.Base.Dict.{insert, lookup, remove, lookup-insert, lookup-remove}
use skylark.Text.{Text, is_nil}
use skylark.Security.KeyStore.{
  Key, KeyError, key_not_found, key_expired, Keys, Codec, Saving, KeyStore, save, new_key_store,
  new_key, touched, has_expired, get_found, get, set, delete_found, delete, close, Call, gets, sets,
  deletes, closes, call, call_all,
}
use skylark.Security.KeyStore.Reads.{Faithful, IsClean, Reads, proper_saving, save-Reads, save-keys}
use skylark.Security.KeyStore.Opens.{proper, call-Sound}

-- What Get makes of an entry, and what it returns.
abbrev read_key : ℕ → Option Key → Option Key
read_key now none = none
read_key now (some key) = some (if has_expired now key.expiry then key else touched now key)

abbrev pub answer : ℕ → Option Key → Result KeyError Text
answer now none = err key_not_found
answer now (some key) = if has_expired now key.expiry then err key_expired else ok key.value

-- What a call makes of the entry of a name, where a store is a function from names to entries.
abbrev replay : Call → Text → Option Key → Option Key
replay (gets now name outcome) j o = if name == j then read_key now o else o
replay (sets now name value outcome) j o =
    if is_nil name || is_nil value
    then o
    else if name == j
    then some (new_key now name value)
    else o
replay (deletes name outcome) j o = if name == j then none else o
replay (closes outcome) j o = o

abbrev pub replay_all : List Call → Text → Option Key → Option Key
replay_all [] j o = o
replay_all (x ∷ calls) j o = replay_all calls j (replay x j o)

module _ (c : Codec) (is_utf8 : Text → Bool) (l : Faithful c is_utf8) where
  -- Two results that agree where the name is the one of the call.
  same_or_other :
      (name j : Text) (m : Keys) (o w : Option Key) (f : Option Key → Option Key)
      → lookup name m ≡ o
      → w ≡ f o
      → (if name == j then w else lookup j m) ≡ (if name == j then f (lookup j m) else lookup j m)
  same_or_other name j m o w f h k = elim (Bool-cases (name == j)) [
    | inl e ↦ rw e (k ∙ ap f (sym (ap (λ n. lookup n m) (sym ((==_iff name j).0 e)) ∙ h)))
    | inr e ↦ rw e refl
  ]

  unchanged :
      (name j : Text) (m : Keys) (o : Option Key) (f : Option Key → Option Key)
      → lookup name m ≡ o
      → o ≡ f o
      → lookup j m ≡ (if name == j then f (lookup j m) else lookup j m)
  unchanged name j m o f h k = elim (Bool-cases (name == j)) [
    | inl e ↦
        let q = ap (λ n. lookup n m) (sym ((==_iff name j).0 e)) ∙ h in rw e (q ∙ k ∙ ap f (sym q))
    | inr e ↦ rw e refl
  ]

  save-lookup :
      (outcome : Saving) (ks : KeyStore) (j : Text)
      → lookup j (save c outcome ks).1.keys ≡ lookup j ks.keys
  save-lookup outcome ks j = ap (lookup j) (save-keys c is_utf8 l outcome ks)

  get_found-lookup :
      (now : ℕ) (name : Text) (outcome : Saving) (o : Option Key) (ks : KeyStore) (j : Text)
      → lookup name ks.keys ≡ o
      → lookup j (get_found c now name outcome o ks).1.keys
        ≡ replay (gets now name outcome) j (lookup j ks.keys)
  unfolding get_found
  get_found-lookup now name outcome none ks j h =
      unchanged name j ks.keys none (read_key now) h refl
  get_found-lookup now name outcome (some key) ks j h =
      if-cases {A = Result KeyError Text × KeyStore}
        (λ r. lookup j r.1.keys ≡ replay (gets now name outcome) j (lookup j ks.keys))
        (has_expired now key.expiry) _ _
        (λ x. unchanged name j ks.keys (some key) (read_key now) h (rw x refl))
        (λ x.
          save-lookup outcome (record ks { keys = insert name (touched now key) ks.keys }) j
          ∙ lookup-insert name j (touched now key) ks.keys
          ∙ same_or_other name j ks.keys (some key) (some (touched now key)) (read_key now) h
              (rw x refl))

  set-lookup :
      (now : ℕ) (name value : Text) (outcome : Saving) (ks : KeyStore) (j : Text)
      → lookup j (set c now name value outcome ks).1.keys
        ≡ replay (sets now name value outcome) j (lookup j ks.keys)
  unfolding set
  set-lookup now name value outcome ks j = ground (
    arith,
    save-lookup outcome (record ks { keys = insert name (new_key now name value) ks.keys }) j,
    lookup-insert name j (new_key now name value) ks.keys,
  )

  delete_found-lookup :
      (name : Text) (outcome : Saving) (o : Option Key) (ks : KeyStore) (j : Text)
      → lookup name ks.keys ≡ o
      → lookup j (delete_found c name outcome o ks).1.keys
        ≡ replay (deletes name outcome) j (lookup j ks.keys)
  unfolding delete_found
  delete_found-lookup name outcome none ks j h = unchanged name j ks.keys none (λ o. none) h refl
  delete_found-lookup name outcome (some key) ks j h =
      save-lookup outcome (record ks { keys = remove name ks.keys }) j
      ∙ lookup-remove name j ks.keys

  call-lookup :
      (x : Call) (ks : KeyStore) (j : Text)
      → lookup j (call c x ks).keys ≡ replay x j (lookup j ks.keys)
  unfolding call get delete close
  call-lookup (gets now name outcome) ks j =
      get_found-lookup now name outcome (lookup name ks.keys) ks j refl
  call-lookup (sets now name value outcome) ks j = set-lookup now name value outcome ks j
  call-lookup (deletes name outcome) ks j =
      delete_found-lookup name outcome (lookup name ks.keys) ks j refl
  call-lookup (closes outcome) ks j = save-lookup outcome ks j

  call_all-lookup :
      (calls : List Call) (ks : KeyStore) (j : Text)
      → lookup j (call_all c calls ks).keys ≡ replay_all calls j (lookup j ks.keys)
  unfolding call_all
  call_all-lookup [] ks j = refl
  call_all-lookup (x ∷ calls) ks j =
      call_all-lookup calls (call c x ks) j ∙ ap (replay_all calls j) (call-lookup x ks j)

  call_all-IsClean :
      (calls : List Call) (ks : KeyStore)
      → IsClean c is_utf8 l ks.keys
      → all (proper c is_utf8 l) calls ≡ true
      → IsClean c is_utf8 l (call_all c calls ks).keys
  unfolding call_all
  call_all-IsClean [] ks clean p = clean
  call_all-IsClean (x ∷ calls) ks clean p =
      call_all-IsClean calls (call c x ks) (call-Sound c is_utf8 l x ks clean (ground (arith, p))).0
        (ground (arith, p))

  get_found-answer :
      (now : ℕ) (name : Text) (outcome : Saving) (o : Option Key) (ks : KeyStore)
      → (get_found c now name outcome o ks).0 ≡ answer now o
  unfolding get_found
  get_found-answer now name outcome none ks = refl
  get_found-answer now name outcome (some key) ks =
      if-cases {A = Result KeyError Text × KeyStore} (λ r. r.0 ≡ answer now (some key))
        (has_expired now key.expiry) _ _ (λ x. rw x refl) (λ x. rw x refl)

  close-Reads :
      (outcome : Saving) (ks : KeyStore)
      → IsClean c is_utf8 l ks.keys
      → proper_saving c is_utf8 l outcome ≡ true
      → is_ok (close c outcome ks).0 ≡ true
      → Reads c is_utf8 l (close c outcome ks).1.stored ks.keys
  unfolding close save
  close-Reads outcome ks clean p h =
      elim (save-Reads c is_utf8 l outcome (c.marshal ks.keys) ks clean p refl) [
        | inl (e, same) ↦ absurd (cc (h, e))
        | inr r ↦ r
      ]

  -- A key store implements a function from names to keys: after any calls, whichever of their saves
  -- fail, and a Close that succeeds, opening the file gives a store whose Get, for every name and at
  -- every time, returns what the calls of Set, Delete and Get have made of the name's entry; if texts
  -- are in UTF-8 and the nonces of the cipher's size.
  pub get-close :
      (calls : List Call) (start : KeyStore) (outcome : Saving) (temporary : Option Text) (now : ℕ)
      (name : Text) (saving : Saving)
      → IsClean c is_utf8 l start.keys
      → all (proper c is_utf8 l) calls ≡ true
      → proper_saving c is_utf8 l outcome ≡ true
      → is_ok (close c outcome (call_all c calls start)).0 ≡ true
      → (ks : KeyStore) × (new_key_store c
            (close c outcome (call_all c calls start)).1.stored
            temporary
          ≡ ok ks)
        × ((get c now name saving ks).0
            ≡ answer now (replay_all calls name (lookup name start.keys)))
  unfolding get
  get-close calls start outcome temporary now name saving clean p q h =
      let closed = close c outcome (call_all c calls start) in
      let r =
        close-Reads outcome (call_all c calls start) (call_all-IsClean calls start clean p) q h in
      (
        record { keys = r.keys; stored = closed.1.stored; temporary = temporary },
        r.opens temporary,
        get_found-answer now name saving (lookup name r.keys) _
            ∙ ap (answer now) (r.same name ∙ call_all-lookup calls start name),
      )

-- ===== src/Security/KeyStore/Opens.antt =====
-- A key store can be opened again, whatever has failed.
use skylark.Base.{
  ℕ, Bool, true, Option, none, some, Result, List, [], ◌∷◌, ◌++◌, ◌||◌, ◌&&◌, ◌≡◌, refl, ap, sym,
  ◌∙◌, ◌⊎◌, inl, inr, all, arith, if-cases, subst, ℕ_eq, List_eq,
}
use mathlib.Core.List.{append_assoc, append-nil}
use skylark.Base.Dict.{insert, lookup, remove}
use skylark.Text.{Text, is_nil}
use skylark.Security.KeyStore.{
  Key, KeyError, Codec, Saving, KeyStore, Done, save, new_key, touched, has_expired, get_found, get,
  set, delete_found, delete, close, Call, gets, sets, deletes, closes, call, call_all,
}
use skylark.Security.KeyStore.Reads.{
  valid_entry, Faithful, IsClean, Reads, proper_saving, save-Reads, save-keys, all-insert,
  all-remove, all-lookup,
}

module _ (c : Codec) (is_utf8 : Text → Bool) (l : Faithful c is_utf8) where
  -- The texts of a call are in UTF-8, and the nonce of its save is of the cipher's size.
  abbrev pub proper : Call → Bool
  proper (gets now name outcome) = proper_saving c is_utf8 l outcome
  proper (sets now name value outcome) =
      is_utf8 name && is_utf8 value && proper_saving c is_utf8 l outcome
  proper (deletes name outcome) = proper_saving c is_utf8 l outcome
  proper (closes outcome) = proper_saving c is_utf8 l outcome

  -- The file is as it was, or reads as the keys.
  abbrev Saved : Option Text → KeyStore → Type 0
  Saved before ks = (ks.stored ≡ before) ⊎ Reads c is_utf8 l ks.stored ks.keys

  abbrev Clean : KeyStore → Type 0
  Clean ks = IsClean c is_utf8 l ks.keys

  -- What a call leaves.
  abbrev Sound : Option Text → KeyStore → Type 0
  Sound before ks = Clean ks × Saved before ks

  save-Sound :
      (outcome : Saving) (ks : KeyStore)
      → Clean ks
      → proper_saving c is_utf8 l outcome ≡ true
      → Sound ks.stored (save c outcome ks).1
  unfolding save
  save-Sound outcome ks clean p = (
    subst (IsClean c is_utf8 l) (sym (save-keys c is_utf8 l outcome ks)) clean,
    elim (save-Reads c is_utf8 l outcome (c.marshal ks.keys) ks clean p refl) [
      | inl (e, same) ↦ inl same
      | inr r ↦ inr (subst (Reads c is_utf8 l _) (sym (save-keys c is_utf8 l outcome ks)) r)
    ],
  )

  get_found-Sound :
      (now : ℕ) (name : Text) (outcome : Saving) (o : Option Key) (ks : KeyStore)
      → lookup name ks.keys ≡ o
      → Clean ks
      → proper_saving c is_utf8 l outcome ≡ true
      → Sound ks.stored (get_found c now name outcome o ks).1
  unfolding get_found
  get_found-Sound now name outcome none ks h clean p = (clean, inl refl)
  get_found-Sound now name outcome (some key) ks h clean p =
      if-cases {A = Result KeyError Text × KeyStore} (λ r. Sound ks.stored r.1)
        (has_expired now key.expiry) _ _ (λ x. (clean, inl refl))
        (λ x.
          save-Sound outcome (record ks { keys = insert name (touched now key) ks.keys })
            (all-insert (valid_entry is_utf8) name (touched now key) ks.keys
              (all-lookup (valid_entry is_utf8) name key ks.keys clean h) clean)
            p)

  set-Sound :
      (now : ℕ) (name value : Text) (outcome : Saving) (ks : KeyStore)
      → Clean ks
      → is_utf8 name && is_utf8 value && proper_saving c is_utf8 l outcome ≡ true
      → Sound ks.stored (set c now name value outcome ks).1
  unfolding set
  set-Sound now name value outcome ks clean p =
      if-cases {A = Done} (λ r. Sound ks.stored r.1) (is_nil name || is_nil value) _ _
        (λ x. (clean, inl refl))
        (λ x.
          save-Sound outcome (record ks { keys = insert name (new_key now name value) ks.keys })
            (all-insert (valid_entry is_utf8) name (new_key now name value) ks.keys
              (ground (arith, p, l.kind_valid)) clean)
            (ground (arith, p)))

  delete_found-Sound :
      (name : Text) (outcome : Saving) (o : Option Key) (ks : KeyStore)
      → Clean ks
      → proper_saving c is_utf8 l outcome ≡ true
      → Sound ks.stored (delete_found c name outcome o ks).1
  unfolding delete_found
  delete_found-Sound name outcome none ks clean p = (clean, inl refl)
  delete_found-Sound name outcome (some key) ks clean p =
      save-Sound outcome (record ks { keys = remove name ks.keys })
        (all-remove (valid_entry is_utf8) name ks.keys clean) p

  pub call-Sound :
      (x : Call) (ks : KeyStore) → Clean ks → proper x ≡ true → Sound ks.stored (call c x ks)
  unfolding call get delete close
  call-Sound (gets now name outcome) ks clean p =
      get_found-Sound now name outcome (lookup name ks.keys) ks refl clean p
  call-Sound (sets now name value outcome) ks clean p = set-Sound now name value outcome ks clean p
  call-Sound (deletes name outcome) ks clean p =
      delete_found-Sound name outcome (lookup name ks.keys) ks clean p
  call-Sound (closes outcome) ks clean p = save-Sound outcome ks clean p

  -- Opening the file gives the keys as they were after some of the calls.
  pub record Opens (start : KeyStore) (calls : List Call) (stored : Option Text) : Type 0 where
    pub before : List Call
    pub after : List Call
    pub split : calls ≡ before ++ after
    pub reads : Reads c is_utf8 l stored (call_all c before start).keys

  call_all-append :
      (xs ys : List Call) (ks : KeyStore)
      → call_all c (xs ++ ys) ks ≡ call_all c ys (call_all c xs ks)
  unfolding call_all
  call_all-append [] ys ks = refl
  call_all-append (x ∷ xs) ys ks = call_all-append xs ys (call c x ks)

  step-Opens :
      (start : KeyStore) (calls : List Call) (x : Call) (ks : KeyStore)
      → call_all c calls start ≡ ks
      → Saved ks.stored (call c x ks)
      → Opens start calls ks.stored
      → Opens start (calls ++ (x ∷ [])) (call c x ks).stored
  unfolding call_all
  step-Opens start calls x ks e (inl same) o = record {
    before = o.before;
    after = o.after ++ (x ∷ []);
    split = ap (λ cs. cs ++ (x ∷ [])) o.split ∙ append_assoc o.before o.after (x ∷ []);
    reads = subst (λ s. Reads c is_utf8 l s (call_all c o.before start).keys) (sym same) o.reads;
  }
  step-Opens start calls x ks e (inr r) o = record {
    before = calls ++ (x ∷ []);
    after = [];
    split = sym (append-nil (calls ++ (x ∷ [])));
    reads =
        subst (λ k. Reads c is_utf8 l (call c x ks).stored k.keys)
          (sym (call_all-append calls (x ∷ []) start ∙ ap (call c x) e)) r;
  }

  -- From any calls that have been made already.
  continue-Opens :
      (start : KeyStore) (made calls : List Call) (ks : KeyStore)
      → call_all c made start ≡ ks
      → Clean ks
      → all proper calls ≡ true
      → Opens start made ks.stored
      → Clean (call_all c calls ks) × Opens start (made ++ calls) (call_all c calls ks).stored
  unfolding call_all
  continue-Opens start made [] ks e clean p o =
      (clean, subst (λ cs. Opens start cs ks.stored) (sym (append-nil made)) o)
  continue-Opens start made (x ∷ calls) ks e clean p o =
      let s = call-Sound x ks clean (ground (arith, p)) in
      let r =
        continue-Opens start (made ++ (x ∷ [])) calls (call c x ks)
          (call_all-append made (x ∷ []) start ∙ ap (call c x) e) s.0 (ground (arith, p))
          (step-Opens start made x ks e s.1 o) in
      (
        r.0,
        subst (λ cs. Opens start cs (call_all c calls (call c x ks)).stored)
            (append_assoc made (x ∷ []) calls) r.1,
      )

  -- Whatever calls are made and whichever of their saves fail, the file can be opened again, and gives
  -- the keys as they were after one of the calls, or before all of them; if it did so at the start,
  -- the texts are in UTF-8, and the nonces are of the cipher's size.
  pub call_all-Opens :
      (calls : List Call) (start : KeyStore)
      → IsClean c is_utf8 l start.keys
      → Reads c is_utf8 l start.stored start.keys
      → all proper calls ≡ true
      → Opens start calls (call_all c calls start).stored
  unfolding call_all
  call_all-Opens calls start clean r p =
      (continue-Opens start [] calls start refl clean p
        (record { before = []; after = []; split = refl; reads = r })).1

-- ===== src/Security/KeyStore.antt =====
-- pkg/security/concrete/key_store.go. The cipher and what encoding/json makes of the keys are
-- arguments, with the clock, the nonces and the failures of the operating system.
pub mod Reads
pub mod Opens
pub mod Reopened
use skylark.Base.{
  ℕ, Bool, true, false, Option, none, some, Result, ok, err, List, [], ◌∷◌, ◌++◌, ◌+◌,
  if◌then◌else◌, ◌==◌, ◌||◌, ◌&&◌, ltb, length, take, drop, List_eq, ℕ_eq, map,
}
use skylark.Base.Dict.{Dict, insert, lookup, remove}
use skylark.Text.{Text, bytes, is_nil}

-- The zero time is `none`.
pub record Key : Type 0 where
  pub value : Text
  pub name : Text
  pub kind : Text
  pub created : ℕ
  pub last_used : ℕ
  pub expiry : Option ℕ
  pub access_mask : ℕ

pub data KeyError : Type 0 where
  key_not_found key_expired invalid_key storage_corrupted : KeyError
  decrypt_failed parse_failed read_failed : KeyError
  marshal_failed nonce_failed write_failed rename_failed : KeyError

abbrev pub Keys : Type 0
Keys = Dict Text Key

-- cipher.AEAD, and encoding/json at the type of the keys
pub record Codec : Type 0 where
  pub nonce_size : ℕ
  pub seal : (nonce plaintext : Text) → Text
  pub unseal : (nonce ciphertext : Text) → Option Text
  pub marshal : Keys → Option Text
  pub unmarshal : Text → Option Keys

-- What a save comes to, with its nonce: `write_fails` leaves the first bytes in the temporary file.
pub data Saving : Type 0 where
  saves : (nonce : Text) → Saving
  nonce_fails : Saving
  write_fails : (nonce : Text) → (written : ℕ) → Saving
  rename_fails : (nonce : Text) → Saving

-- The keys in memory, the file of the store, and its temporary file.
pub record KeyStore : Type 0 where
  pub keys : Keys
  pub stored : Option Text
  pub temporary : Option Text

abbrev pub Done : Type 0
Done = Result KeyError (Unit {0}) × KeyStore

-- AccessRead | AccessWrite
abbrev read_write : ℕ
read_write = 3

-- What Set puts in.
abbrev pub new_key : (now : ℕ) → (name value : Text) → Key
new_key now name value = record {
  value = value;
  name = name;
  kind = bytes "generic";
  created = now;
  last_used = now;
  expiry = none;
  access_mask = read_write;
}

-- !key.Expiry.IsZero() && time.Now().After(key.Expiry)
abbrev pub has_expired : ℕ → Option ℕ → Bool
has_expired now none = false
has_expired now (some expiry) = ltb expiry now

abbrev pub touched : (now : ℕ) → Key → Key
touched now key = record key { last_used = now }

unfoldable list_names : KeyStore → List Text
list_names ks = map (λ entry. entry.0) ks.keys

module _ (c : Codec) where
  -- The nonce, and behind it the ciphertext.
  unfoldable pub sealed : Text → Text → Text
  sealed nonce plaintext = nonce ++ c.seal nonce plaintext

  unfoldable pub save_marshalled : Saving → Option Text → KeyStore → Done
  unfolding sealed
  save_marshalled outcome none ks = (err marshal_failed, ks)
  save_marshalled (saves nonce) (some plaintext) ks =
      (ok tt, record ks { stored = some (sealed nonce plaintext); temporary = none })
  save_marshalled nonce_fails (some plaintext) ks = (err nonce_failed, ks)
  save_marshalled (write_fails nonce written) (some plaintext) ks =
      (err write_failed, record ks { temporary = some (take written (sealed nonce plaintext)) })
  save_marshalled (rename_fails nonce) (some plaintext) ks =
      (err rename_failed, record ks { temporary = none })

  unfoldable pub save : Saving → KeyStore → Done
  unfolding save_marshalled
  save outcome ks = save_marshalled outcome (c.marshal ks.keys) ks

  unfoldable pub parse_keys : Option Text → Result KeyError Keys
  parse_keys none = err decrypt_failed
  parse_keys (some plaintext) = elim (c.unmarshal plaintext) [
    | none ↦ err parse_failed
    | some keys ↦ ok keys
  ]

  -- What load makes of the bytes of the file.
  unfoldable pub load : Text → Result KeyError Keys
  unfolding parse_keys
  load file =
      if ltb (length file) (c.nonce_size + 1)
      then err storage_corrupted
      else parse_keys (c.unseal (take c.nonce_size file) (drop c.nonce_size file))

  unfoldable pub opened : Result KeyError Keys → Text → Option Text → Result KeyError KeyStore
  opened (err e) file temporary = err e
  opened (ok keys) file temporary =
      ok (record { keys = keys; stored = some file; temporary = temporary })

  -- NewKeyStore, once the cipher and the directory are there: a file that does not exist is no error.
  unfoldable pub new_key_store : Option Text → Option Text → Result KeyError KeyStore
  unfolding load opened
  new_key_store none temporary = ok (record { keys = []; stored = none; temporary = temporary })
  new_key_store (some file) temporary = opened (load file) file temporary

  unfoldable pub get_found :
      (now : ℕ) → Text → Saving → Option Key → KeyStore → Result KeyError Text × KeyStore
  unfolding save
  get_found now name outcome none ks = (err key_not_found, ks)
  get_found now name outcome (some key) ks =
      if has_expired now key.expiry then (err key_expired, ks) else (
        ok key.value,
        (save outcome (record ks { keys = insert name (touched now key) ks.keys })).1,
      )

  -- Get, which does not fail where the save does.
  unfoldable pub get : (now : ℕ) → Text → Saving → KeyStore → Result KeyError Text × KeyStore
  unfolding get_found
  get now name outcome ks = get_found now name outcome (lookup name ks.keys) ks

  unfoldable pub set : (now : ℕ) → (name value : Text) → Saving → KeyStore → Done
  unfolding save
  set now name value outcome ks =
      if is_nil name || is_nil value
      then (err invalid_key, ks)
      else save outcome (record ks { keys = insert name (new_key now name value) ks.keys })

  unfoldable pub delete_found : Text → Saving → Option Key → KeyStore → Done
  unfolding save
  delete_found name outcome none ks = (err key_not_found, ks)
  delete_found name outcome (some key) ks = save outcome (record ks { keys = remove name ks.keys })

  unfoldable pub delete : Text → Saving → KeyStore → Done
  unfolding delete_found
  delete name outcome ks = delete_found name outcome (lookup name ks.keys) ks

  -- Close
  unfoldable pub close : Saving → KeyStore → Done
  unfolding save
  close outcome ks = save outcome ks

-- The calls of a key store, with what their saves come to.
pub data Call : Type 0 where
  gets : (now : ℕ) → (name : Text) → Saving → Call
  sets : (now : ℕ) → (name value : Text) → Saving → Call
  deletes : (name : Text) → Saving → Call
  closes : Saving → Call

module _ (c : Codec) where
  unfoldable pub call : Call → KeyStore → KeyStore
  unfolding get set delete close
  call (gets now name outcome) ks = (get c now name outcome ks).1
  call (sets now name value outcome) ks = (set c now name value outcome ks).1
  call (deletes name outcome) ks = (delete c name outcome ks).1
  call (closes outcome) ks = (close c outcome ks).1

  unfoldable pub call_all : List Call → KeyStore → KeyStore
  unfolding call
  call_all [] ks = ks
  call_all (x ∷ calls) ks = call_all calls (call x ks)

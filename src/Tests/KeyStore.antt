-- ===== src/Tests/KeyStore.antt =====
-- Runs of pkg/security/concrete/key_store.go, with an encoding of keys that can be read back.
use skylark.Base.{
  refl, ok, [], ◌≡◌, ◌∷◌, ◌++◌, ◌∙◌, ap, ℕ, zero, suc, Bool, true, Option, none, some, List, length,
  take, drop, take_append, drop_append, arith, List_eq, ℕ_eq, subst,
}
use skylark.Base.Dict.{lookup}
use skylark.Text.{Text, bytes}
use skylark.Security.KeyStore.{
  Key, Keys, Codec, Saving, saves, nonce_fails, KeyStore, new_key_store, get, close, Call, sets,
  deletes, gets, call_all,
}
use skylark.Security.KeyStore.Reads.{Faithful}
use skylark.Security.KeyStore.Opens.{Opens, call_all-Opens}
use skylark.Security.KeyStore.Reopened.{answer, replay_all, get-close}
use mathlib.Core.Option.{some-injective}

abbrev write_text : Text → Text → Text
write_text t rest = length t ∷ (t ++ rest)

abbrev read_text : Text → Text × Text
read_text [] = ([], [])
read_text (n ∷ s) = (take n s, drop n s)

read_text-write_text : (t rest : Text) → read_text (write_text t rest) ≡ (t, rest)
read_text-write_text t rest = rw (take_append t rest, drop_append t rest) refl

abbrev first_of : Text → ℕ
first_of [] = 0
first_of (n ∷ s) = n

abbrev after_first : Text → Text
after_first [] = []
after_first (n ∷ s) = s

-- The encoding has the numbers first.
abbrev write_expiry : Option ℕ → Text → Text
write_expiry none rest = 0 ∷ 0 ∷ rest
write_expiry (some n) rest = 1 ∷ n ∷ rest

abbrev read_expiry : Text → Option ℕ × Text
read_expiry (zero ∷ n ∷ s) = (none, s)
read_expiry (suc k ∷ n ∷ s) = (some n, s)
read_expiry s = (none, s)

read_expiry-write_expiry :
    (o : Option ℕ) (rest : Text) → read_expiry (write_expiry o rest) ≡ (o, rest)
read_expiry-write_expiry none rest = refl
read_expiry-write_expiry (some n) rest = refl

abbrev write_entry : Text × Key → Text → Text
write_entry (name, k) rest =
    k.created
    ∷ k.last_used
    ∷ k.access_mask
    ∷ write_expiry k.expiry
        (write_text name (write_text k.value (write_text k.name (write_text k.kind rest))))

abbrev entry_of : (created last_used access_mask : ℕ) → Option ℕ × Text → (Text × Key) × Text
entry_of created last_used access_mask (expiry, s) =
    let name = read_text s in
    let value = read_text name.1 in
    let key_name = read_text value.1 in
    let kind = read_text key_name.1 in
    (
      (
        name.0,
        record {
          value = value.0;
          name = key_name.0;
          kind = kind.0;
          created = created;
          last_used = last_used;
          expiry = expiry;
          access_mask = access_mask;
        },
      ),
      kind.1,
    )

abbrev read_entry : Text → (Text × Key) × Text
read_entry (created ∷ last_used ∷ access_mask ∷ s) =
    entry_of created last_used access_mask (read_expiry s)
read_entry s = entry_of 0 0 0 (none, [])

read_entry-write_entry :
    (e : Text × Key) (rest : Text) → read_entry (write_entry e rest) ≡ (e, rest)
read_entry-write_entry (name, k) rest =
    rw
      (read_expiry-write_expiry k.expiry
        (write_text name (write_text k.value (write_text k.name (write_text k.kind rest)))))
      (simp (take_append, drop_append))

abbrev write_entries : Keys → Text
write_entries [] = []
write_entries (e ∷ m) = write_entry e (write_entries m)

abbrev read_entries : ℕ → Text → Keys
read_entries zero s = []
read_entries (suc n) s = let e = read_entry s in e.0 ∷ read_entries n e.1

read_entries-write_entries : (m : Keys) → read_entries (length m) (write_entries m) ≡ m
read_entries-write_entries [] = refl
read_entries-write_entries (e ∷ m) =
    ap (λ r. r.0 ∷ read_entries (length m) r.1) (read_entry-write_entry e (write_entries m))
    ∙ ap (◌∷◌ e) (read_entries-write_entries m)

-- A nonce of one byte, which the ciphertext repeats.
abbrev unseal_of : Text → Option Text
unseal_of [] = none
unseal_of (n ∷ plaintext) = some plaintext

abbrev unmarshal_of : Text → Option Keys
unmarshal_of [] = none
unmarshal_of (n ∷ s) = some (read_entries n s)

abbrev codec : Codec
codec = record {
  nonce_size = 1;
  seal = λ nonce plaintext. first_of nonce ∷ plaintext;
  unseal = λ nonce ciphertext. unseal_of ciphertext;
  marshal = λ m. some (length m ∷ write_entries m);
  unmarshal = unmarshal_of;
}

abbrev all_valid : Text → Bool
all_valid t = true

codec-Faithful : Faithful codec all_valid
codec-Faithful = record {
  unseals = λ nonce plaintext. refl;
  tagged = λ nonce plaintext. omega arith;
  reads_back = λ m t clean h. (
    m,
    subst (λ t. unmarshal_of t ≡ some m) (some-injective (length m ∷ write_entries m) t h)
        (ap some (read_entries-write_entries m)),
    λ name. refl,
  );
  kind_valid = refl;
}

abbrev saved : Saving
saved = saves (7 ∷ [])

-- The second save fails, and so does the Get of a key that has been deleted.
abbrev calls : List Call
calls =
    sets 1 (bytes "openai") (bytes "sk-1") saved
    ∷ sets 2 (bytes "other") (bytes "sk-2") nonce_fails
    ∷ deletes (bytes "openai") saved
    ∷ gets 3 (bytes "openai") saved
    ∷ []

abbrev fresh : KeyStore
fresh = record { keys = []; stored = none; temporary = none }

call_all-Opens_example :
    Opens codec all_valid codec-Faithful fresh calls (call_all codec calls fresh).stored
unfolding new_key_store
call_all-Opens_example =
    call_all-Opens codec all_valid codec-Faithful calls fresh refl
      (record { keys = []; opens = λ temporary. refl; same = λ name. refl }) refl

get-close_example :
    (ks : KeyStore) × (new_key_store codec
        (close codec saved (call_all codec calls fresh)).1.stored
        none
      ≡ ok ks)
    × ((get codec 9 (bytes "other") saved ks).0
        ≡ answer 9 (replay_all calls (bytes "other") (lookup (bytes "other") fresh.keys)))
unfolding close
get-close_example =
    get-close codec all_valid codec-Faithful calls fresh saved none 9 (bytes "other") saved refl
      refl refl refl

-- The key whose save has failed is there.
other_found : answer 9 (replay_all calls (bytes "other") none) ≡ ok (bytes "sk-2")
other_found = refl

-- ===== src/Security/AuditLog/Stored.antt =====
-- What the audit logger has stored, in its files and in its buffer, where no write fails.
use skylark.Base.{
  Bool, true, false, Option, none, some, Result, ok, err, List, [], ◌∷◌, ◌++◌, ◌≡◌, refl, ap, sym,
  ◌∙◌, if-cases, inl, inr, ◌⊎◌, subst, ℕ_eq, List_eq,
}
use mathlib.Core.List.{append_assoc, append-nil}
use skylark.Base.Dict.{insert, lookup}
use skylark.Text.{Text, newline}
use skylark.Security.AuditLog.{
  Written, Outcome, flush_buffer, AuditError, write_failed, Event, Flushing, Rotating, close_fails,
  rename_fails, open_fails, rotates, AuditLogger, write, write_events, flushed, flush, append,
  rotate_file, rotate_flushed,
}
use skylark.Security.AuditLog.Lines.{texts, texts-insert, written_of}

abbrev pub Ended : Type 0 → Type 0
Ended M = Result AuditError (Unit {0}) × AuditLogger M

abbrev or_nil : Option Text → Text
or_nil none = []
or_nil (some text) = text

module _ {M : Type 0} (marshal : Event M → Option Text) where
  abbrev pub encode : Event M → Text
  encode e = or_nil (marshal e)

  -- json.Marshal makes a text of an event.
  abbrev pub Encodes : Event M → Type 0
  Encodes e = marshal e ≡ some (encode e)

  abbrev pub AllEncode : List (Event M) → Type 0
  AllEncode [] = Unit {0}
  AllEncode (e ∷ events) = Encodes e × AllEncode events

  pub AllEncode-append :
      (xs ys : List (Event M)) → AllEncode xs → AllEncode ys → AllEncode (xs ++ ys)
  AllEncode-append [] ys h k = k
  AllEncode-append (x ∷ xs) ys h k = (h.0, AllEncode-append xs ys h.1 k)

  abbrev pub lines : List (Event M) → Text
  lines [] = []
  lines (e ∷ events) = (encode e ++ (newline ∷ [])) ++ lines events

  pub lines-append : (xs ys : List (Event M)) → lines (xs ++ ys) ≡ lines xs ++ lines ys
  lines-append [] ys = refl
  lines-append (x ∷ xs) ys =
      ap (◌++◌ (encode x ++ (newline ∷ []))) (lines-append xs ys)
      ∙ sym (append_assoc (encode x ++ (newline ∷ [])) (lines xs) (lines ys))

  -- All lines, those of the buffer included.
  abbrev pub stored : AuditLogger M → Text
  stored a = written_of a ++ lines a.buffer

  write_events-open :
      (events : List (Event M)) (file : Text)
      → AllEncode events
      → write_events marshal true [] events file ≡ (ok tt, file ++ lines events)
  unfolding write_events write
  write_events-open [] file h = ap (λ t. (ok tt, t)) (sym (append-nil file))
  write_events-open (e ∷ events) file h = rw h.0 (
      write_events-open events (file ++ (encode e ++ (newline ∷ []))) h.1
      ∙ ap (λ t. (ok tt, t)) (append_assoc file (encode e ++ (newline ∷ [])) (lines events)))

  abbrev Ends : AuditLogger M → List Written → (events left : List (Event M)) → Type 0
  Ends a writes events left =
      (write_events marshal a.is_open writes events a.file ≡ (ok tt, a.file ++ lines left))
      ⊎ (write_events marshal a.is_open writes events a.file ≡ (err write_failed, a.file))

  write_events-ends :
      (is_open : Bool) (e : Event M) (events : List (Event M)) (file : Text)
      → AllEncode (e ∷ events)
      → (write_events marshal is_open [] (e ∷ events) file ≡ (ok tt, file ++ lines (e ∷ events)))
        ⊎ (write_events marshal is_open [] (e ∷ events) file ≡ (err write_failed, file))
  unfolding write_events write
  write_events-ends true e events file h = inl (write_events-open (e ∷ events) file h)
  write_events-ends false e events file h = inr (rw h.0 refl)

  flushed-stored :
      (f : Flushing) (r : Outcome) (a : AuditLogger M)
      → (r ≡ (ok tt, a.file ++ lines a.buffer)) ⊎ (r ≡ (err write_failed, a.file))
      → stored (flushed f r a).1 ≡ stored a
  unfolding flushed
  flushed-stored f r a (inl h) =
      subst (λ r. stored (flushed f r a).1 ≡ stored a) (sym h)
        (append-nil (texts a.rotated ++ (a.file ++ lines a.buffer))
          ∙ sym (append_assoc (texts a.rotated) a.file (lines a.buffer)))
  flushed-stored f r a (inr h) = subst (λ r. stored (flushed f r a).1 ≡ stored a) (sym h) refl

  flush_buffer-stored :
      (f : Flushing) (events : List (Event M)) (a : AuditLogger M)
      → events ≡ a.buffer
      → AllEncode events
      → f.writes ≡ []
      → stored (flush_buffer marshal f events a).1 ≡ stored a
  unfolding flush_buffer
  flush_buffer-stored f [] a same h whole = refl
  flush_buffer-stored f (e ∷ events) a same h whole =
      flushed-stored f (write_events marshal a.is_open f.writes (e ∷ events) a.file) a (
        subst (λ es. Ends a f.writes (e ∷ events) es) same
          (subst (λ writes. Ends a writes (e ∷ events) (e ∷ events)) (sym whole)
            (write_events-ends a.is_open e events a.file h)))

  pub flush-stored :
      (f : Flushing) (a : AuditLogger M)
      → AllEncode a.buffer
      → f.writes ≡ []
      → stored (flush marshal f a).1 ≡ stored a
  unfolding flush
  flush-stored f a = flush_buffer-stored f a.buffer a refl

  flushed-AllEncode :
      (f : Flushing) (r : Outcome) (a : AuditLogger M)
      → AllEncode a.buffer
      → AllEncode (flushed f r a).1.buffer
  unfolding flushed
  flushed-AllEncode f (err e, file) a h = h
  flushed-AllEncode f (ok u, file) a h = tt

  flush_buffer-AllEncode :
      (f : Flushing) (events : List (Event M)) (a : AuditLogger M)
      → AllEncode a.buffer
      → AllEncode (flush_buffer marshal f events a).1.buffer
  unfolding flush_buffer
  flush_buffer-AllEncode f [] a h = h
  flush_buffer-AllEncode f (e ∷ events) a h = flushed-AllEncode f _ a h

  pub flush-AllEncode :
      (f : Flushing) (a : AuditLogger M)
      → AllEncode a.buffer
      → AllEncode (flush marshal f a).1.buffer
  unfolding flush
  flush-AllEncode f a h = flush_buffer-AllEncode f a.buffer a h

  pub append-stored :
      (e : Event M) (a : AuditLogger M) → stored (append e a) ≡ stored a ++ lines (e ∷ [])
  unfolding append
  append-stored e a =
      ap (◌++◌ (written_of a)) (lines-append a.buffer (e ∷ []))
      ∙ sym (append_assoc (written_of a) (lines a.buffer) (lines (e ∷ [])))

  moved-stored :
      (name : Text) (a : AuditLogger M)
      → lookup name a.rotated ≡ none
      → texts (insert name a.file a.rotated) ++ [] ++ lines a.buffer ≡ stored a
  moved-stored name a fresh =
      ap (λ t. t ++ lines a.buffer)
        (append-nil (texts (insert name a.file a.rotated))
          ∙ texts-insert name a.file a.rotated fresh)

  rotate_file-stored :
      (outcome : Rotating) (name : Text) (a : AuditLogger M)
      → lookup name a.rotated ≡ none
      → stored (rotate_file outcome name a).1 ≡ stored a
  unfolding rotate_file
  rotate_file-stored close_fails name a fresh = refl
  rotate_file-stored rename_fails name a fresh = refl
  rotate_file-stored open_fails name a fresh = moved-stored name a fresh
  rotate_file-stored rotates name a fresh = moved-stored name a fresh

  pub rotate_flushed-stored :
      (outcome : Rotating) (name : Text) (r : Ended M)
      → lookup name r.1.rotated ≡ none
      → stored (rotate_flushed outcome name r).1 ≡ stored r.1
  unfolding rotate_flushed
  rotate_flushed-stored outcome name (err e, a) fresh = refl
  rotate_flushed-stored outcome name (ok u, a) fresh =
      if-cases {A = Ended M} (λ r. stored r.1 ≡ stored a) a.is_open _ _
        (λ o. rotate_file-stored outcome name a fresh) (λ o. refl)

  rotate_file-buffer :
      (outcome : Rotating) (name : Text) (a : AuditLogger M)
      → (rotate_file outcome name a).1.buffer ≡ a.buffer
  unfolding rotate_file
  rotate_file-buffer close_fails name a = refl
  rotate_file-buffer rename_fails name a = refl
  rotate_file-buffer open_fails name a = refl
  rotate_file-buffer rotates name a = refl

  pub rotate_flushed-buffer :
      (outcome : Rotating) (name : Text) (r : Ended M)
      → (rotate_flushed outcome name r).1.buffer ≡ r.1.buffer
  unfolding rotate_flushed
  rotate_flushed-buffer outcome name (err e, a) = refl
  rotate_flushed-buffer outcome name (ok u, a) =
      if-cases {A = Ended M} (λ r. r.1.buffer ≡ a.buffer) a.is_open _ _
        (λ o. rotate_file-buffer outcome name a) (λ o. refl)

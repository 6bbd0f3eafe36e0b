-- ===== src/Security/AuditLog/Kept.antt =====
-- No event that the audit logger has accepted is lost, whatever fails.
use skylark.Base.{
  some, ◌==◌, ==_iff, ==_refl, ℕ, Bool, true, false, Option, none, Result, ok, err, is_ok, List, [],
  ◌∷◌, ◌-◌, ◌≡◌, ◌⊎◌, inl, inr, refl, ap, sym, ◌∙◌, if-cases, length, ℕ_eq, List_eq, Bool-cases,
  subst, leb, ltb,
}
use mathlib.Core.List.Memᴰ
use mathlib.Core.List.{Memᴰ}
use skylark.Base.Dict.{insert, lookup, lookup-insert}
use skylark.Text.{Text}
use skylark.Security.AuditLog.{
  Outcome, flush_buffer, AuditError, Event, Flushing, Rotating, close_fails, rename_fails,
  open_fails, rotates, AuditLogger, should_log, write_events, flushed, flush, append, log, queried,
  exported, rotate_file, rotate_flushed, rotate, close_flushed, close, Call, logs, queries, exports,
  rotations, closings, call, call_all,
}
use mathlib.Core.Bool.{◌||◌}
use skylark.Security.AuditLog.Lines.{
  Grows, Holds, Holds-Grows, write_events-Grows, write_events-Holds,
}

module _ {M : Type 0} (marshal : Event M → Option Text) where
  -- The log file, or one of the rotated ones, has the event's line.
  abbrev pub InLog : Event M → AuditLogger M → Type 0
  InLog e a =
      Holds marshal e a.file
      ⊎ ((name : Text) × (text : Text) × (lookup name a.rotated ≡ some text) × Holds marshal e text)

  -- The event is in the buffer, or its line is in a file.
  abbrev pub Kept : Event M → AuditLogger M → Type 0
  Kept e a = Memᴰ e a.buffer ⊎ InLog e a

  abbrev Keeping : Event M → Result AuditError (Unit {0}) × AuditLogger M → Type 0
  Keeping e r = Kept e r.1

  Kept-longer :
      (e : Event M) (file : Text) (a : AuditLogger M)
      → Grows a.file file
      → Kept e a
      → Kept e (record a { file = file })
  Kept-longer e file a g (inl m) = inl m
  Kept-longer e file a g (inr (inl k)) = inr (inl (Holds-Grows marshal e a.file file k g))
  Kept-longer e file a g (inr (inr k)) = inr (inr k)

  flushed-Kept :
      (e : Event M) (f : Flushing) (r : Outcome) (a : AuditLogger M)
      → Grows a.file r.1
      → (is_ok r.0 ≡ true → Memᴰ e a.buffer → Holds marshal e r.1)
      → Kept e a
      → Kept e (flushed f r a).1
  unfolding flushed
  flushed-Kept e f (err x, file) a g w k = Kept-longer e file a g k
  flushed-Kept e f (ok u, file) a g w (inl m) = inr (inl (w refl m))
  flushed-Kept e f (ok u, file) a g w (inr k) = elim (Kept-longer e file a g (inr k)) [
    | inl m ↦ inr (inl (w refl m))
    | inr l ↦ inr l
  ]

  flush_buffer-Kept :
      (e : Event M) (f : Flushing) (events : List (Event M)) (a : AuditLogger M)
      → events ≡ a.buffer
      → Kept e a
      → Kept e (flush_buffer marshal f events a).1
  unfolding flush_buffer
  flush_buffer-Kept e f [] a same k = k
  flush_buffer-Kept e f (x ∷ events) a same k =
      flushed-Kept e f (write_events marshal a.is_open f.writes (x ∷ events) a.file) a
        (write_events-Grows marshal a.is_open f.writes (x ∷ events) a.file)
        (λ h m.
          write_events-Holds marshal a.is_open f.writes (x ∷ events) a.file e h
            (subst (Memᴰ e) (sym same) m))
        k

  flush-Kept :
      (e : Event M) (f : Flushing) (a : AuditLogger M) → Kept e a → Kept e (flush marshal f a).1
  unfolding flush
  flush-Kept e f a k = flush_buffer-Kept e f a.buffer a refl k

  flushed-rotated :
      (f : Flushing) (r : Outcome) (a : AuditLogger M) → (flushed f r a).1.rotated ≡ a.rotated
  unfolding flushed
  flushed-rotated f (err x, file) a = refl
  flushed-rotated f (ok u, file) a = refl

  flush_buffer-rotated :
      (f : Flushing) (events : List (Event M)) (a : AuditLogger M)
      → (flush_buffer marshal f events a).1.rotated ≡ a.rotated
  unfolding flush_buffer flushed
  flush_buffer-rotated f [] a = refl
  flush_buffer-rotated f (x ∷ events) a =
      flushed-rotated f (write_events marshal a.is_open f.writes (x ∷ events) a.file) a

  pub flush-rotated : (f : Flushing) (a : AuditLogger M) → (flush marshal f a).1.rotated ≡ a.rotated
  unfolding flush
  flush-rotated f a = flush_buffer-rotated f a.buffer a

  append-Kept : (e x : Event M) (a : AuditLogger M) → Kept e a → Kept e (append x a)
  unfolding append
  append-Kept e x a (inl m) = inl (Memᴰ.append_left (x ∷ []) m)
  append-Kept e x a (inr k) = inr k

  appended-Kept : (e : Event M) (a : AuditLogger M) → Kept e (append e a)
  unfolding append
  appended-Kept e a = inl (Memᴰ.append_right a.buffer (Memᴰ.head refl))

  log-Kept :
      (e x : Event M) (now : ℕ) (f : Flushing) (a : AuditLogger M)
      → Kept e a
      → Kept e (log marshal x now f a).1
  unfolding log
  log-Kept e x now f a k =
      if-cases (Keeping e) (should_log a.events x.kind) _ _
        (λ s.
          if-cases (Keeping e)
            (leb 100 (length (append x a).buffer) || ltb 5000000000 (now - a.last_flush)) _ _
            (λ l. flush-Kept e f (append x a) (append-Kept e x a k)) (λ l. append-Kept e x a k))
        (λ s. k)

  logged-Kept :
      (e : Event M) (now : ℕ) (f : Flushing) (a : AuditLogger M)
      → should_log a.events e.kind ≡ true
      → Kept e (log marshal e now f a).1
  unfolding log
  logged-Kept e now f a accepted = rw accepted (
      if-cases (Keeping e)
        (leb 100 (length (append e a).buffer) || ltb 5000000000 (now - a.last_flush)) _ _
        (λ l. flush-Kept e f (append e a) (appended-Kept e a)) (λ l. appended-Kept e a))

  -- A path of a rotated log is not one where there is none.
  other_path :
      (name other text : Text) (a : AuditLogger M)
      → lookup name a.rotated ≡ none
      → lookup other a.rotated ≡ some text
      → (name == other) ≡ false
  other_path name other text a fresh found = elim (Bool-cases (name == other)) [
    | inl e ↦ absurd (cc (fresh, found, (==_iff name other).0 e))
    | inr e ↦ e
  ]

  -- The log file becomes a rotated one.
  moved-Kept :
      (e : Event M) (name : Text) (a : AuditLogger M)
      → lookup name a.rotated ≡ none
      → Kept e a
      → Kept e (record a { file = []; rotated = insert name a.file a.rotated })
  moved-Kept e name a fresh (inl m) = inl m
  moved-Kept e name a fresh (inr (inl k)) =
      inr (inr (name, a.file, lookup-insert name name a.file a.rotated ∙ rw (==_refl name) refl, k))
  moved-Kept e name a fresh (inr (inr (other, text, found, k))) = inr (
      inr (
        other,
        text,
        lookup-insert name other a.file a.rotated
            ∙ rw (other_path name other text a fresh found) found,
        k,
      ))

  rotate_file-Kept :
      (e : Event M) (outcome : Rotating) (name : Text) (a : AuditLogger M)
      → lookup name a.rotated ≡ none
      → Kept e a
      → Kept e (rotate_file outcome name a).1
  unfolding rotate_file
  rotate_file-Kept e close_fails name a fresh k = k
  rotate_file-Kept e rename_fails name a fresh k = k
  rotate_file-Kept e open_fails name a fresh k = moved-Kept e name a fresh k
  rotate_file-Kept e rotates name a fresh k = moved-Kept e name a fresh k

  rotate_flushed-Kept :
      (e : Event M) (outcome : Rotating) (name : Text)
      (r : Result AuditError (Unit {0}) × AuditLogger M)
      → lookup name r.1.rotated ≡ none
      → Kept e r.1
      → Kept e (rotate_flushed outcome name r).1
  unfolding rotate_flushed
  rotate_flushed-Kept e outcome name (err x, a) fresh k = k
  rotate_flushed-Kept e outcome name (ok u, a) fresh k =
      if-cases (Keeping e) a.is_open _ _ (λ o. rotate_file-Kept e outcome name a fresh k) (λ o. k)

  rotate-Kept :
      (e : Event M) (f : Flushing) (outcome : Rotating) (name : Text) (a : AuditLogger M)
      → lookup name a.rotated ≡ none
      → Kept e a
      → Kept e (rotate marshal f outcome name a).1
  unfolding rotate
  rotate-Kept e f outcome name a fresh k =
      rotate_flushed-Kept e outcome name (flush marshal f a)
        (ap (lookup name) (flush-rotated f a) ∙ fresh) (flush-Kept e f a k)

  -- The same is kept by what a query, an export and a close do after their flush.
  queried-same : (r : Result AuditError (Unit {0}) × AuditLogger M) → (queried r).1 ≡ r.1
  unfolding queried
  queried-same (err e, a) = refl
  queried-same (ok u, a) = refl

  exported-same : (r : Result AuditError (Unit {0}) × AuditLogger M) → (exported r).1 ≡ r.1
  unfolding exported
  exported-same (err e, a) = refl
  exported-same (ok u, a) = refl

  close_flushed-Kept :
      (e : Event M) (closes : Bool) (r : Result AuditError (Unit {0}) × AuditLogger M)
      → Kept e r.1
      → Kept e (close_flushed closes r).1
  unfolding close_flushed
  close_flushed-Kept e closes (err x, a) k = k
  close_flushed-Kept e closes (ok u, a) k = k

  -- A rotation's path is that of no earlier rotated log.
  abbrev pub Fresh : Call M → AuditLogger M → Type 0
  Fresh (rotations f outcome name) a = lookup name a.rotated ≡ none
  Fresh c a = Unit {0}

  abbrev AllFresh : List (Call M) → AuditLogger M → Type 0
  AllFresh [] a = Unit {0}
  AllFresh (c ∷ calls) a = Fresh c a × AllFresh calls (call marshal c a)

  call-Kept :
      (e : Event M) (c : Call M) (a : AuditLogger M)
      → Fresh c a
      → Kept e a
      → Kept e (call marshal c a)
  unfolding call
  call-Kept e (logs x now f) a fresh k = log-Kept e x now f a k
  call-Kept e (queries f) a fresh k =
      subst (Kept e) (sym (queried-same (flush marshal f a))) (flush-Kept e f a k)
  call-Kept e (exports f) a fresh k =
      subst (Kept e) (sym (exported-same (flush marshal f a))) (flush-Kept e f a k)
  call-Kept e (rotations f outcome name) a fresh k = rotate-Kept e f outcome name a fresh k
  call-Kept e (closings f closes) a fresh k =
      close_flushed-Kept e closes (flush marshal f a) (flush-Kept e f a k)

  call_all-Kept :
      (e : Event M) (calls : List (Call M)) (a : AuditLogger M)
      → AllFresh calls a
      → Kept e a
      → Kept e (call_all marshal calls a)
  unfolding call_all
  call_all-Kept e [] a fresh k = k
  call_all-Kept e (c ∷ calls) a (fresh, all_fresh) k =
      call_all-Kept e calls (call marshal c a) all_fresh (call-Kept e c a fresh k)

  flushed-buffer :
      (f : Flushing) (r : Outcome) (a : AuditLogger M)
      → is_ok (flushed f r a).0 ≡ true
      → (flushed f r a).1.buffer ≡ []
  unfolding flushed
  flushed-buffer f (err x, file) a h = absurd (cc h)
  flushed-buffer f (ok u, file) a h = refl

  flush_buffer-buffer :
      (f : Flushing) (events : List (Event M)) (a : AuditLogger M)
      → events ≡ a.buffer
      → is_ok (flush_buffer marshal f events a).0 ≡ true
      → (flush_buffer marshal f events a).1.buffer ≡ []
  unfolding flush_buffer
  flush_buffer-buffer f [] a same h = sym same
  flush_buffer-buffer f (e ∷ events) a same h = flushed-buffer f _ a h

  close_flushed-buffer :
      (closes : Bool) (r : Result AuditError (Unit {0}) × AuditLogger M)
      → (is_ok r.0 ≡ true → r.1.buffer ≡ [])
      → is_ok (close_flushed closes r).0 ≡ true
      → (close_flushed closes r).1.buffer ≡ []
  unfolding close_flushed
  close_flushed-buffer closes (err x, a) b h = absurd (cc h)
  close_flushed-buffer closes (ok u, a) b h = b refl

  close-buffer :
      (f : Flushing) (closes : Bool) (a : AuditLogger M)
      → is_ok (close marshal f closes a).0 ≡ true
      → (close marshal f closes a).1.buffer ≡ []
  unfolding close flush
  close-buffer f closes a =
      close_flushed-buffer closes (flush marshal f a) (flush_buffer-buffer f a.buffer a refl)

  Kept-InLog : (e : Event M) (a : AuditLogger M) → a.buffer ≡ [] → Kept e a → InLog e a
  Kept-InLog e a b (inl m) = absurd (Memᴰ.not-nil (subst (Memᴰ e) b m))
  Kept-InLog e a b (inr k) = k

  close-InLog :
      (e : Event M) (f : Flushing) (closes : Bool) (a : AuditLogger M)
      → Kept e a
      → (is_ok (close marshal f closes a).0 ≡ false) ⊎ InLog e (close marshal f closes a).1
  unfolding close
  close-InLog e f closes a k = elim (Bool-cases (is_ok (close marshal f closes a).0)) [
    | inl h ↦ inr (
        Kept-InLog e (close marshal f closes a).1 (close-buffer f closes a h)
          (close_flushed-Kept e closes (flush marshal f a) (flush-Kept e f a k)))
    | inr h ↦ inl h
  ]

  -- An event that Log accepts stays in the buffer, or its encoding with a newline stands in the log file
  -- or in one of the rotated ones, whatever calls follow and whichever writes, syncs, closes, renames and
  -- opens fail, as long as no log is rotated to the path of an earlier one; and if a Close then succeeds,
  -- it stands in one of those files. After a write that has failed part of a line may stand right before
  -- it.
  pub call_all-logged :
      (e : Event M) (now : ℕ) (f : Flushing) (calls : List (Call M)) (g : Flushing) (closes : Bool)
      (a : AuditLogger M)
      → should_log a.events e.kind ≡ true
      → AllFresh calls (log marshal e now f a).1
      → Kept e (call_all marshal calls (log marshal e now f a).1)
        × ((is_ok (close marshal g closes (call_all marshal calls (log marshal e now f a).1)).0
              ≡ false)
            ⊎ InLog e (close marshal g closes (call_all marshal calls (log marshal e now f a).1)).1)
  call_all-logged e now f calls g closes a accepted fresh =
      let k =
        call_all-Kept e calls (log marshal e now f a).1 fresh (logged-Kept e now f a accepted) in
      (k, close-InLog e g closes (call_all marshal calls (log marshal e now f a).1) k)

-- ===== src/Security/AuditLog/Exact.antt =====
-- The audit logger implements a list of events, where no write fails.
use skylark.Base.{
  true, false, ◌⊎◌, subst, Bool, Option, none, ok, err, List, [], ◌∷◌, ◌++◌, if◌then◌else◌, ◌≡◌,
  refl, ap, sym, ◌∙◌, if-cases, inl, inr, ℕ_eq, List_eq, ℕ, Bool-cases, leb, length, ◌||◌, ltb, ◌-◌,
}
use skylark.Base.Dict.{lookup}
use skylark.Text.{Text}
use skylark.Security.AuditLog.{
  Outcome, flush_buffer, Event, Flushing, Rotating, close_fails, rename_fails, open_fails, rotates,
  AuditLogger, should_log, flushed, flush, append, rotate_file, rotate_flushed, Call, logs, queries,
  exports, rotations, closings, call, log, rotate, queried, exported, close_flushed, query,
  call_all, export, close,
}
use skylark.Security.AuditLog.Kept.{flush-rotated}
use skylark.Security.AuditLog.Stored.{
  Ended, lines, lines-append, stored, flush-stored, append-stored, rotate_flushed-stored, AllEncode,
  AllEncode-append, Encodes, flush-AllEncode, rotate_flushed-buffer,
}

-- The kinds of events that are logged do not change.
abbrev SameKinds : {M : Type 0} → AuditLogger M → AuditLogger M → Type 0
SameKinds a b = b.events ≡ a.events

module _ {M : Type 0} (marshal : Event M → Option Text) where
  -- The list of events that a logger stands for: Log adds its event to the end of it, if the event is
  -- of a kind to be logged, and no other call changes it.
  abbrev pub spec : List Text → Call M → List (Event M) → List (Event M)
  spec kinds (logs e now f) events = if should_log kinds e.kind then events ++ (e ∷ []) else events
  spec kinds c events = events

  abbrev pub spec_all : List Text → List (Call M) → List (Event M) → List (Event M)
  spec_all kinds [] events = events
  spec_all kinds (c ∷ calls) events = spec_all kinds calls (spec kinds c events)

  -- The logger stands for a list of events: the rotated logs, the log file and the buffer together
  -- are its lines; and the events of the buffer can be encoded.
  pub record Implements (kinds : List Text) (events : List (Event M)) (a : AuditLogger M)
      : Type 0 where
    pub configured : a.events ≡ kinds
    pub all : stored marshal a ≡ lines marshal events
    pub encoded : AllEncode marshal a.buffer

  -- The writes of a call's flush do not fail, the event that it logs can be encoded, and its rotation is
  -- to a path of its own.
  abbrev Undisturbed : Call M → AuditLogger M → Type 0
  Undisturbed (logs e now f) a =
      (f.writes ≡ []) × ((should_log a.events e.kind ≡ false) ⊎ Encodes marshal e)
  Undisturbed (queries f) a = f.writes ≡ []
  Undisturbed (exports f) a = f.writes ≡ []
  Undisturbed (rotations f outcome name) a = (f.writes ≡ []) × (lookup name a.rotated ≡ none)
  Undisturbed (closings f closes) a = f.writes ≡ []

  abbrev AllUndisturbed : List (Call M) → AuditLogger M → Type 0
  AllUndisturbed [] a = Unit {0}
  AllUndisturbed (c ∷ calls) a = Undisturbed c a × AllUndisturbed calls (call marshal c a)

  flushed-SameKinds :
      (f : Flushing) (r : Outcome) (a : AuditLogger M) → SameKinds a (flushed f r a).1
  unfolding flushed
  flushed-SameKinds f (err e, file) a = refl
  flushed-SameKinds f (ok u, file) a = refl

  flush_buffer-SameKinds :
      (f : Flushing) (events : List (Event M)) (a : AuditLogger M)
      → SameKinds a (flush_buffer marshal f events a).1
  unfolding flush_buffer
  flush_buffer-SameKinds f [] a = refl
  flush_buffer-SameKinds f (e ∷ events) a = flushed-SameKinds f _ a

  flush-Implements :
      (kinds : List Text) (events : List (Event M)) (f : Flushing) (a : AuditLogger M)
      → f.writes ≡ []
      → Implements kinds events a
      → Implements kinds events (flush marshal f a).1
  unfolding flush
  flush-Implements kinds events f a whole i = record {
    configured = flush_buffer-SameKinds f a.buffer a ∙ i.configured;
    all = flush-stored marshal f a i.encoded whole ∙ i.all;
    encoded = flush-AllEncode marshal f a i.encoded;
  }

  append-Implements :
      (kinds : List Text) (events : List (Event M)) (e : Event M) (a : AuditLogger M)
      → Encodes marshal e
      → Implements kinds events a
      → Implements kinds (events ++ (e ∷ [])) (append e a)
  unfolding append
  append-Implements kinds events e a encodes i = record {
    encoded = AllEncode-append marshal a.buffer (e ∷ []) i.encoded (encodes, tt);
    configured = i.configured;
    all =
        append-stored marshal e a
        ∙ ap (λ t. t ++ lines marshal (e ∷ [])) i.all
        ∙ sym (lines-append marshal events (e ∷ []));
  }

  abbrev Meets : List Text → List (Event M) → Ended M → Type 0
  Meets kinds events r = Implements kinds events r.1

  encodable :
      (e : Event M) (a : AuditLogger M)
      → should_log a.events e.kind ≡ true
      → (should_log a.events e.kind ≡ false) ⊎ Encodes marshal e
      → Encodes marshal e
  encodable e a h (inl k) = absurd (cc (h, k))
  encodable e a h (inr k) = k

  log-Implements :
      (kinds : List Text) (events : List (Event M)) (e : Event M) (now : ℕ) (f : Flushing)
      (a : AuditLogger M)
      → f.writes ≡ []
      → (should_log a.events e.kind ≡ false) ⊎ Encodes marshal e
      → Implements kinds events a
      → Implements kinds (spec kinds (logs e now f) events) (log marshal e now f a).1
  unfolding log
  log-Implements kinds events e now f a whole can i = elim (Bool-cases (should_log kinds e.kind)) [
    | inl h ↦
        let configured = ap (λ k. should_log k e.kind) i.configured ∙ h in
        let added = append-Implements kinds events e a (encodable e a configured can) i in
        rw (ap (λ k. should_log k e.kind) i.configured ∙ h, h)
          (if-cases (Meets kinds (events ++ (e ∷ [])))
            (leb 100 (length (append e a).buffer) || ltb 5000000000 (now - a.last_flush))
            (flush marshal f (append e a)) (ok tt, append e a)
            (λ l. flush-Implements kinds _ f (append e a) whole added) (λ l. added))
    | inr h ↦ rw (ap (λ k. should_log k e.kind) i.configured ∙ h, h) i
  ]

  rotate_file-SameKinds :
      (outcome : Rotating) (name : Text) (a : AuditLogger M)
      → SameKinds a (rotate_file outcome name a).1
  unfolding rotate_file
  rotate_file-SameKinds close_fails name a = refl
  rotate_file-SameKinds rename_fails name a = refl
  rotate_file-SameKinds open_fails name a = refl
  rotate_file-SameKinds rotates name a = refl

  rotate_flushed-SameKinds :
      (outcome : Rotating) (name : Text) (r : Ended M)
      → SameKinds r.1 (rotate_flushed outcome name r).1
  unfolding rotate_flushed
  rotate_flushed-SameKinds outcome name (err e, a) = refl
  rotate_flushed-SameKinds outcome name (ok u, a) =
      if-cases {A = Ended M} (λ r. SameKinds a r.1) a.is_open _ _
        (λ o. rotate_file-SameKinds outcome name a) (λ o. refl)

  rotate-Implements :
      (kinds : List Text) (events : List (Event M)) (f : Flushing) (outcome : Rotating)
      (name : Text) (a : AuditLogger M)
      → f.writes ≡ []
      → lookup name a.rotated ≡ none
      → Implements kinds events a
      → Implements kinds events (rotate marshal f outcome name a).1
  unfolding rotate
  rotate-Implements kinds events f outcome name a whole fresh i =
      let k = flush-Implements kinds events f a whole i in
      record {
        encoded =
            subst (AllEncode marshal)
              (sym (rotate_flushed-buffer marshal outcome name (flush marshal f a))) k.encoded;
        configured = rotate_flushed-SameKinds outcome name (flush marshal f a) ∙ k.configured;
        all =
            rotate_flushed-stored marshal outcome name (flush marshal f a)
              (ap (lookup name) (flush-rotated marshal f a) ∙ fresh)
            ∙ k.all;
      }

  queried-Implements :
      (kinds : List Text) (events : List (Event M)) (r : Ended M)
      → Meets kinds events r
      → Implements kinds events (queried r).1
  unfolding queried
  queried-Implements kinds events (err e, a) i = i
  queried-Implements kinds events (ok u, a) i = i

  exported-Implements :
      (kinds : List Text) (events : List (Event M)) (r : Ended M)
      → Meets kinds events r
      → Meets kinds events (exported r)
  unfolding exported
  exported-Implements kinds events (err e, a) i = i
  exported-Implements kinds events (ok u, a) i = i

  close_flushed-Implements :
      (kinds : List Text) (events : List (Event M)) (closes : Bool) (r : Ended M)
      → Meets kinds events r
      → Meets kinds events (close_flushed closes r)
  unfolding close_flushed
  close_flushed-Implements kinds events closes (err e, a) i = i
  close_flushed-Implements kinds events closes (ok u, a) i = record {
    configured = i.configured;
    all = i.all;
    encoded = i.encoded;
  }

  call-Implements :
      (kinds : List Text) (events : List (Event M)) (c : Call M) (a : AuditLogger M)
      → Undisturbed c a
      → Implements kinds events a
      → Implements kinds (spec kinds c events) (call marshal c a)
  unfolding call query export close
  call-Implements kinds events (logs e now f) a (whole, can) i =
      log-Implements kinds events e now f a whole can i
  call-Implements kinds events (queries f) a h i =
      queried-Implements kinds events (flush marshal f a) (flush-Implements kinds events f a h i)
  call-Implements kinds events (exports f) a h i =
      exported-Implements kinds events (flush marshal f a) (flush-Implements kinds events f a h i)
  call-Implements kinds events (rotations f outcome name) a (whole, fresh) i =
      rotate-Implements kinds events f outcome name a whole fresh i
  call-Implements kinds events (closings f closes) a h i =
      close_flushed-Implements kinds events closes (flush marshal f a)
        (flush-Implements kinds events f a h i)

  -- An audit logger that stands for a list of events, those of its buffer being ones that can be encoded,
  -- does so after any calls for that list with the events that are to be logged behind it: the rotated
  -- logs in order, the log file and the buffer are the lines of exactly those events, in the order of
  -- the calls of Log, if no call logs an event that cannot be encoded, has a write that fails, or
  -- rotates the log to the path of an earlier one.
  pub call_all-Implements :
      (kinds : List Text) (events : List (Event M)) (calls : List (Call M)) (a : AuditLogger M)
      → AllUndisturbed calls a
      → Implements kinds events a
      → Implements kinds (spec_all kinds calls events) (call_all marshal calls a)
  unfolding call_all
  call_all-Implements kinds events [] a h i = i
  call_all-Implements kinds events (c ∷ calls) a (h, all_h) i =
      call_all-Implements kinds (spec kinds c events) calls (call marshal c a) all_h
        (call-Implements kinds events c a h i)

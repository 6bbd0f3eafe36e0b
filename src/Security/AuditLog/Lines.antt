-- ===== src/Security/AuditLog/Lines.antt =====
-- What the loop of `flush` in pkg/security/concrete/audit_logger.go writes.
use skylark.Base.{
  Bool, true, false, Option, none, some, ok, err, is_ok, List, [], ◌∷◌, ◌++◌, ◌==◌, ◌≡◌, inl, inr,
  refl, ap, sym, ◌∙◌, arith, take, ℕ_eq, List_eq, Bool-cases, subst,
}
use mathlib.Core.List.Memᴰ
use mathlib.Core.List.{Memᴰ, append_assoc, append-nil}
use skylark.Base.Dict.{Dict, insert, lookup}
use skylark.Text.{Text, newline}
use skylark.Security.AuditLog.{
  Outcome, marshalled, and_then, Event, Written, whole, partly, AuditLogger, write, write_events,
  first_write, later_writes, and_then, marshalled,
}

-- The texts of the rotated logs, in the order of their rotation.
abbrev pub texts : Dict Text Text → Text
texts [] = []
texts ((name, text) ∷ rest) = text ++ texts rest

pub texts-insert :
    (name text : Text) (m : Dict Text Text)
    → lookup name m ≡ none
    → texts (insert name text m) ≡ texts m ++ text
unfolding lookup insert
texts-insert name text [] h = append-nil text
texts-insert name text ((key, old) ∷ m) h = elim (Bool-cases (key == name)) [
  | inl e ↦ absurd (ground (arith, rw e at h))
  | inr e ↦
      rw e (
        ap (◌++◌ old) (texts-insert name text m (rw e at h))
        ∙ sym (append_assoc old (texts m) text))
]

-- All that has been written, in the rotated logs and in the log file.
abbrev pub written_of : {M : Type 0} → AuditLogger M → Text
written_of a = texts a.rotated ++ a.file

-- The second text is the first, and more.
abbrev pub Grows : Text → Text → Type 0
Grows s t = (more : Text) × (t ≡ s ++ more)

write-Grows :
    (is_open : Bool) (w : Written) (line file : Text) → Grows file (write is_open w line file).1
unfolding write
write-Grows false w line file = ([], sym (append-nil file))
write-Grows true whole line file = (line, refl)
write-Grows true (partly n) line file = (take n line, refl)

write-whole :
    (is_open : Bool) (w : Written) (line file : Text)
    → is_ok (write is_open w line file).0 ≡ true
    → (write is_open w line file).1 ≡ file ++ line
unfolding write
write-whole false w line file h = absurd (cc h)
write-whole true whole line file h = refl
write-whole true (partly n) line file h = absurd (cc h)

-- The steps of the loop, when they succeed.
marshalled-ok :
    (o : Option Text) (k : Text → Outcome) (file : Text)
    → is_ok (marshalled o k file).0 ≡ true
    → (line : Text) × (o ≡ some line) × (marshalled o k file ≡ k line)
marshalled-ok none k file h = absurd (cc h)
marshalled-ok (some line) k file h = (line, refl, refl)

pub and_then-ok :
    (r : Outcome) (k : Text → Outcome)
    → is_ok (and_then r k).0 ≡ true
    → (is_ok r.0 ≡ true) × (and_then r k ≡ k r.1)
and_then-ok (err e, file) k h = absurd (cc h)
and_then-ok (ok u, file) k h = (refl, refl)

Grows-refl : (s : Text) → Grows s s
Grows-refl s = ([], sym (append-nil s))

Grows-trans : (s t u : Text) → Grows s t → Grows t u → Grows s u
Grows-trans s t u (x, p) (y, q) = (x ++ y, q ∙ ap (λ v. v ++ y) p ∙ append_assoc s x y)

marshalled-Grows :
    (o : Option Text) (k : Text → Outcome) (file : Text)
    → ((line : Text) → Grows file (k line).1)
    → Grows file (marshalled o k file).1
marshalled-Grows none k file g = Grows-refl file
marshalled-Grows (some line) k file g = g line

and_then-Grows :
    (r : Outcome) (k : Text → Outcome) (file : Text)
    → Grows file r.1
    → ((t : Text) → Grows t (k t).1)
    → Grows file (and_then r k).1
and_then-Grows (err e, t) k file g h = g
and_then-Grows (ok u, t) k file g h = Grows-trans file t (k t).1 g (h t)

module _ {M : Type 0} (marshal : Event M → Option Text) where
  -- The event's line is somewhere in the text.
  pub record Holds (e : Event M) (t : Text) : Type 0 where
    pub encoded : Text
    pub marshals : marshal e ≡ some encoded
    pub before : Text
    pub after : Text
    pub parts : t ≡ before ++ (encoded ++ (newline ∷ [])) ++ after

  pub Holds-Grows : (e : Event M) (s t : Text) → Holds e s → Grows s t → Holds e t
  Holds-Grows e s t k (more, g) = record {
    encoded = k.encoded;
    marshals = k.marshals;
    before = k.before;
    after = k.after ++ more;
    parts =
        g
        ∙ ap (λ u. u ++ more) k.parts
        ∙ append_assoc (k.before ++ (k.encoded ++ (newline ∷ []))) k.after more;
  }

  pub write_events-Grows :
      (is_open : Bool) (writes : List Written) (events : List (Event M)) (file : Text)
      → Grows file (write_events marshal is_open writes events file).1
  unfolding write_events
  write_events-Grows is_open writes [] file = Grows-refl file
  write_events-Grows is_open writes (e ∷ events) file = marshalled-Grows (marshal e) _ file (λ line.
      and_then-Grows (write is_open (first_write writes) (line ++ (newline ∷ [])) file) _ file
        (write-Grows is_open (first_write writes) (line ++ (newline ∷ [])) file)
        (λ t. write_events-Grows is_open (later_writes writes) events t))

  -- A loop that succeeds has written every line.
  pub write_events-Holds :
      (is_open : Bool) (writes : List Written) (events : List (Event M)) (file : Text) (e : Event M)
      → is_ok (write_events marshal is_open writes events file).0 ≡ true
      → Memᴰ e events
      → Holds e (write_events marshal is_open writes events file).1
  unfolding write_events
  write_events-Holds is_open writes [] file e h m = absurd (Memᴰ.not-nil m)
  write_events-Holds is_open writes (x ∷ events) file e h m =
      let s = marshalled-ok (marshal x) _ file h in
      let r = write is_open (first_write writes) (s.0 ++ (newline ∷ [])) file in
      let t = and_then-ok r _ (subst (λ o. is_ok o.0 ≡ true) s.2 h) in
      let rest = write_events marshal is_open (later_writes writes) events r.1 in
      let same : marshalled (marshal x) _ file ≡ rest = s.2 ∙ t.1 in
      subst (λ o. Holds e o.1) (sym same)
        (elim (Memᴰ.cases_cons m) [
          | inl q ↦
              Holds-Grows e r.1 rest.1
                (record {
                  encoded = s.0;
                  marshals = subst (λ y. marshal y ≡ some s.0) (sym q) s.1;
                  before = file;
                  after = [];
                  parts =
                      write-whole is_open (first_write writes) (s.0 ++ (newline ∷ [])) file t.0
                      ∙ sym (append-nil (file ++ (s.0 ++ (newline ∷ []))));
                })
                (write_events-Grows is_open (later_writes writes) events r.1)
          | inr n ↦
              write_events-Holds is_open (later_writes writes) events r.1 e
                (subst (λ o. is_ok o.0 ≡ true) same h) n
        ])

-- ===== src/Security/AuditLog.antt =====
-- pkg/security/concrete/audit_logger.go, with `Event` of pkg/security/types/events.go. What
-- json.Marshal makes of an event, the clock, and the failures of the operating system are arguments.
pub mod Lines
pub mod Kept
pub mod Stored
pub mod Exact
use skylark.Base.{
  ℕ, Bool, true, false, Option, none, some, Result, ok, err, List, [], ◌∷◌, ◌++◌, ◌-◌,
  if◌then◌else◌, ◌==◌, ◌||◌, ltb, leb, length, take, any, List_eq, ℕ_eq, ◌&&◌,
}
use skylark.Base.Dict.{Dict, insert}
use skylark.Text.{Text, bytes, newline}

pub record Event (M : Type 0) : Type 0 where
  pub id : Text
  pub timestamp : ℕ
  pub kind : Text
  pub severity : Text
  pub source : Text
  pub details : Text
  pub metadata : M

pub data AuditError : Type 0 where
  marshal_failed write_failed sync_failed read_failed : AuditError
  seek_failed close_failed rename_failed open_failed : AuditError

-- What one write comes to: all of it, or its first bytes and an error.
pub data Written : Type 0 where
  whole : Written
  partly : ℕ → Written

-- What the operating system makes of a flush: each write, where the ones not listed are whole, and
-- the sync.
pub record Flushing : Type 0 where
  pub at : ℕ
  pub writes : List Written
  pub synced : Bool

-- What it makes of a rotation, once the buffer is flushed.
pub data Rotating : Type 0 where
  close_fails rename_fails open_fails rotates : Rotating

-- The logger, with the texts of its log file and of the rotated ones. `is_open` says whether its
-- file has not been closed.
pub record AuditLogger (M : Type 0) : Type 0 where
  pub events : List Text
  pub is_open : Bool
  pub buffer : List (Event M)
  pub last_flush : ℕ
  pub file : Text
  pub rotated : Dict Text Text

unfoldable pub should_log : List Text → Text → Bool
should_log [] kind = true
should_log (e ∷ events) kind = any (λ configured. configured == kind) (e ∷ events)

-- A file, and what has come of writing to it.
abbrev pub Outcome : Type 0
Outcome = Result AuditError (Unit {0}) × Text

-- a.file.Write
unfoldable pub write : Bool → Written → Text → Text → Outcome
write false outcome line file = (err write_failed, file)
write true whole line file = (ok tt, file ++ line)
write true (partly n) line file = (err write_failed, file ++ take n line)

abbrev pub first_write : List Written → Written
first_write [] = whole
first_write (w ∷ writes) = w

abbrev pub later_writes : List Written → List Written
later_writes [] = []
later_writes (w ∷ writes) = writes

abbrev pub marshalled : Option Text → (Text → Outcome) → Text → Outcome
marshalled none k file = (err marshal_failed, file)
marshalled (some line) k file = k line

abbrev pub and_then : Outcome → (Text → Outcome) → Outcome
and_then (err e, file) k = (err e, file)
and_then (ok u, file) k = k file

-- The path of a rotated log.
unfoldable rotated_path : Text → Text → Text
rotated_path path timestamp = path ++ bytes "." ++ timestamp

-- The calls of a logger, with what the operating system makes of them.
pub data Call (M : Type 0) : Type 0 where
  logs : Event M → ℕ → Flushing → Call M
  queries : Flushing → Call M
  exports : Flushing → Call M
  rotations : Flushing → Rotating → Text → Call M
  closings : Flushing → Bool → Call M

module _ {M : Type 0} where
  -- The end of a flush: a loop that has failed leaves the buffer as it is.
  unfoldable pub flushed :
      Flushing → Outcome → AuditLogger M → Result AuditError (Unit {0}) × AuditLogger M
  flushed f (err e, file) a = (err e, record a { file = file })
  flushed f (ok u, file) a = (
    if f.synced then ok tt else err sync_failed,
    record a { file = file; buffer = []; last_flush = f.at },
  )

  unfoldable pub append : Event M → AuditLogger M → AuditLogger M
  append e a = record a { buffer = a.buffer ++ (e ∷ []) }

  -- Query up to its first read, which fails: the file is open for writing only.
  unfoldable pub queried :
      Result AuditError (Unit {0}) × AuditLogger M
      → Result AuditError (List (Event M)) × AuditLogger M
  queried (err e, a) = (err e, a)
  queried (ok u, a) = (err read_failed, a)

  unfoldable pub exported :
      Result AuditError (Unit {0}) × AuditLogger M → Result AuditError (Unit {0}) × AuditLogger M
  exported (err e, a) = (err e, a)
  exported (ok u, a) = (if a.is_open then err read_failed else err seek_failed, a)

  -- The rotation of a flushed log.
  unfoldable pub rotate_file :
      Rotating → Text → AuditLogger M → Result AuditError (Unit {0}) × AuditLogger M
  rotate_file close_fails name a = (err close_failed, record a { is_open = false })
  rotate_file rename_fails name a = (err rename_failed, record a { is_open = false })
  rotate_file open_fails name a = (
    err open_failed,
    record a { is_open = false; file = []; rotated = insert name a.file a.rotated },
  )
  rotate_file rotates name a =
      (ok tt, record a { file = []; rotated = insert name a.file a.rotated })

  unfoldable pub rotate_flushed :
      Rotating
      → Text
      → Result AuditError (Unit {0}) × AuditLogger M
      → Result AuditError (Unit {0}) × AuditLogger M
  unfolding rotate_file
  rotate_flushed outcome name (err e, a) = (err e, a)
  rotate_flushed outcome name (ok u, a) =
      if a.is_open then rotate_file outcome name a else (err close_failed, a)

  -- a.file.Close, after which the file is closed though it may have failed
  unfoldable pub close_flushed :
      Bool
      → Result AuditError (Unit {0}) × AuditLogger M
      → Result AuditError (Unit {0}) × AuditLogger M
  close_flushed closes (err e, a) = (err e, a)
  close_flushed closes (ok u, a) =
      (if a.is_open && closes then ok tt else err close_failed, record a { is_open = false })

module _ {M : Type 0} (marshal : Event M → Option Text) where
  -- the loop over the buffer
  unfoldable pub write_events : Bool → List Written → List (Event M) → Text → Outcome
  unfolding write
  write_events is_open writes [] file = (ok tt, file)
  write_events is_open writes (e ∷ events) file =
      marshalled (marshal e)
        (λ line.
          and_then (write is_open (first_write writes) (line ++ (newline ∷ [])) file)
            (λ longer. write_events is_open (later_writes writes) events longer))
        file

  unfoldable pub flush_buffer :
      Flushing → List (Event M) → AuditLogger M → Result AuditError (Unit {0}) × AuditLogger M
  unfolding flushed write_events
  flush_buffer f [] a = (ok tt, a)
  flush_buffer f (e ∷ events) a = flushed f (write_events a.is_open f.writes (e ∷ events) a.file) a

  unfoldable pub flush : Flushing → AuditLogger M → Result AuditError (Unit {0}) × AuditLogger M
  unfolding flush_buffer
  flush f a = flush_buffer f a.buffer a

  -- Log of an event made with the clock's time; `now` is the time when the buffer is looked at.
  unfoldable pub log :
      Event M → ℕ → Flushing → AuditLogger M → Result AuditError (Unit {0}) × AuditLogger M
  unfolding should_log append flush
  log e now f a =
      if should_log a.events e.kind
      then if leb 100 (length (append e a).buffer) || ltb 5000000000 (now - a.last_flush)
        then flush f (append e a)
        else (ok tt, append e a)
      else (ok tt, a)

  unfoldable pub query :
      Flushing → AuditLogger M → Result AuditError (List (Event M)) × AuditLogger M
  unfolding flush queried
  query f a = queried (flush f a)

  unfoldable pub export : Flushing → AuditLogger M → Result AuditError (Unit {0}) × AuditLogger M
  unfolding flush exported
  export f a = exported (flush f a)

  unfoldable pub rotate :
      Flushing → Rotating → Text → AuditLogger M → Result AuditError (Unit {0}) × AuditLogger M
  unfolding flush rotate_flushed
  rotate f outcome name a = rotate_flushed outcome name (flush f a)

  unfoldable pub close :
      Flushing → Bool → AuditLogger M → Result AuditError (Unit {0}) × AuditLogger M
  unfolding flush close_flushed
  close f closes a = close_flushed closes (flush f a)

  unfoldable pub call : Call M → AuditLogger M → AuditLogger M
  unfolding log query export rotate close
  call (logs e now f) a = (log e now f a).1
  call (queries f) a = (query f a).1
  call (exports f) a = (export f a).1
  call (rotations f outcome name) a = (rotate f outcome name a).1
  call (closings f closes) a = (close f closes a).1

  unfoldable pub call_all : List (Call M) → AuditLogger M → AuditLogger M
  unfolding call
  call_all [] a = a
  call_all (c ∷ calls) a = call_all calls (call c a)

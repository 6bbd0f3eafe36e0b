-- ===== src/Tests/AuditLog.antt =====
-- Runs of pkg/security/concrete/audit_logger.go.
use skylark.Base.{
  inr, refl, err, is_ok, [], ◌≡◌, ◌⊎◌, ◌∷◌, ◌++◌, true, false, Option, some, List, List_eq, ℕ_eq,
}
use skylark.Text.{Text, bytes, newline}
use skylark.Security.AuditLog.{
  Event, Flushing, whole, partly, AuditLogger, Call, logs, queries, rotations, closings, rotates,
  call_all, log, close, read_failed, query, should_log, call, rotate, flush,
}
use skylark.Security.AuditLog.Lines.{written_of}
use skylark.Security.AuditLog.Kept.{InLog, Kept, call_all-logged}
use skylark.Security.AuditLog.Exact.{Implements, spec_all, call_all-Implements}
use skylark.Base.Dict.{lookup, insert}

-- Events are encoded as their details.
abbrev details_of : Event (Unit {0}) → Option Text
details_of e = some e.details

abbrev event : Text → Event (Unit {0})
event details = record {
  id = [];
  timestamp = 0;
  kind = bytes "key_access";
  severity = bytes "info";
  source = [];
  details = details;
  metadata = tt;
}

abbrev opened : AuditLogger (Unit {0})
opened = record {
  events = bytes "key_access" ∷ [];
  is_open = true;
  buffer = [];
  last_flush = 0;
  file = [];
  rotated = [];
}

abbrev works : Flushing
works = record { at = 1; writes = []; synced = true }

-- The second write writes two bytes and fails.
abbrev disturbed : Flushing
disturbed = record { at = 1; writes = whole ∷ partly 2 ∷ []; synced = true }

abbrev calls : List (Call (Unit {0}))
calls =
    logs (event (bytes "one")) 1 works
    ∷ rotations works rotates (bytes "log.1")
    ∷ logs (event (bytes "two")) 2 works
    ∷ queries works
    ∷ []

-- A query fails though the log is in order.
query_fails : (query details_of works opened).0 ≡ err read_failed
unfolding query
query_fails = refl

-- A flush that has failed writes what it had written again.
twice :
    written_of (
      call_all details_of
        (logs (event (bytes "one")) 1 works
          ∷ logs (event (bytes "two")) 2 works
          ∷ queries disturbed
          ∷ closings works true
          ∷ [])
        opened)
    ≡ bytes "one"
      ++ (newline ∷ bytes "tw")
      ++ bytes "one"
      ++ (newline ∷ bytes "two")
      ++ (newline ∷ [])
unfolding call_all
twice = refl

call_all-Implements_example :
    Implements details_of
      (bytes "key_access" ∷ [])
      (spec_all details_of (bytes "key_access" ∷ []) calls [])
      (call_all details_of calls opened)
unfolding call lookup
call_all-Implements_example =
    call_all-Implements details_of (bytes "key_access" ∷ []) [] calls opened
      ((refl, inr refl), ((refl, refl), ((refl, inr refl), (refl, tt))))
      (record { configured = refl; all = refl; encoded = tt })

abbrev after_one : List (Call (Unit {0}))
after_one = queries disturbed ∷ rotations works rotates (bytes "log.1") ∷ []

call_all-logged_example :
    Kept details_of
      (event (bytes "one"))
      (call_all details_of after_one (log details_of (event (bytes "one")) 1 works opened).1)
    × ((is_ok
            (close details_of works true (
              call_all details_of after_one
                (log details_of (event (bytes "one")) 1 works opened).1)).0
          ≡ false)
        ⊎ InLog details_of
            (event (bytes "one"))
            (close details_of works true (
              call_all details_of after_one
                (log details_of (event (bytes "one")) 1 works opened).1)).1)
unfolding should_log call lookup log query rotate flush insert
call_all-logged_example =
    call_all-logged details_of (event (bytes "one")) 1 works after_one works true opened refl
      (tt, (refl, tt))

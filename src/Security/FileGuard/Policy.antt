-- ===== src/Security/FileGuard/Policy.antt =====
-- What the guard of pkg/security/concrete/file_guard.go lets through, and what it logs.
use skylark.Text.{Text}
use skylark.Base.Int.{leb_ℤ, pos}
use skylark.Base.{
  if◌then◌else◌, ◌||◌, not, false, arith, Option, ◌∙◌, Result, refl, some, true, err, ap, subst,
  sym, ℕ,
}
use skylark.Security.FileGuard.{
  denied, not_exist, stat_error, FileGuard, check_access, FileInfo, Outcome, Bool, ok, covers,
  Reason, deny, blocked, check_read, add_allowed_path, check_write, not_allowed, validate_access,
  remove_allowed_path, symlinks_not_allowed, StatError, validate_write, too_large, abs, check_new,
  read_found, write_found,
}
use skylark.Base.{if◌then◌else◌, Bool, ok, is_ok, not, [], ◌≡◌, ◌&&◌, ◌||◌}
use mathlib.Core.List.{List, ◌∷◌}
use skylark.Base.Int.{leb_ℤ}
use skylark.Security.Paths.{abs}

-- The policy, apart from the order of the checks.
abbrev pub permits : FileGuard → Text → FileInfo → Bool
permits g p info =
    not (covers g.blocked_list p)
    && covers g.allowed p
    && (g.symlinks || not info.is_link)
    && (info.is_dir || leb_ℤ (pos info.size) g.max_size)

-- A refusal comes with one entry in the log, for its path and its reason, if there is a log.
pub data IsLogged (g : FileGuard) (p : Text) : Outcome → Type 0 where
  allowed_quietly : IsLogged g p (ok tt, [])
  refused_logged :
      (reason : Reason)
      → IsLogged g p
          (err (denied reason), if g.audited then record { path = p; reason = reason } ∷ [] else [])

IsLogged-if :
    (g : FileGuard) (p : Text) (b : Bool) (x y : Outcome)
    → IsLogged g p x
    → IsLogged g p y
    → IsLogged g p (if b then x else y)
IsLogged-if g p true x y l k = l
IsLogged-if g p false x y l k = k

is_ok-check_access :
    (g : FileGuard) (p : Text) (info : FileInfo)
    → is_ok (check_access g p info).0 ≡ permits g p info
unfolding check_access deny
is_ok-check_access g p info = ground arith

check_access-IsLogged :
    (g : FileGuard) (p : Text) (info : FileInfo) → IsLogged g p (check_access g p info)
unfolding check_access deny
check_access-IsLogged g p info = IsLogged-if g p _ _ _ (refused_logged blocked) (
    IsLogged-if g p _ _ _ (refused_logged not_allowed) (
      IsLogged-if g p _ _ _ (refused_logged symlinks_not_allowed)
        (IsLogged-if g p _ _ _ (refused_logged (too_large info.size g.max_size)) allowed_quietly)))

validate_access-abs :
    (working : Option Text) (g : FileGuard) (path p : Text) (info : FileInfo)
    → abs working path ≡ some p
    → validate_access working g path info ≡ check_access g p info
unfolding validate_access
validate_access-abs working g path p info a = rw (validate_access, a) refl

validate_write-abs :
    (working : Option Text) (g : FileGuard) (path p : Text) (size : ℕ)
    → abs working path ≡ some p
    → validate_write working g path size ≡ check_new g p size
unfolding validate_write
validate_write-abs working g path p size a = rw (validate_write, a) refl

validate_access-permits :
    (working : Option Text) (g : FileGuard) (path p : Text) (info : FileInfo)
    → abs working path ≡ some p
    → (is_ok (validate_access working g path info).0 ≡ permits g p info)
      × IsLogged g p (validate_access working g path info)
validate_access-permits working g path p info a =
    subst (λ o. (is_ok o.0 ≡ permits g p info) × IsLogged g p o)
      (sym (validate_access-abs working g path p info a))
      (is_ok-check_access g p info, check_access-IsLogged g p info)

-- A file that exists may be read just if no blocked path covers it, an allowed one does, it is no
-- forbidden link, and it is a directory or within the size limit; in a guard with a log, each refusal is
-- logged in one entry, for the clean path and with the reason of the error, and nothing else is.
pub check_read-permits :
    (working : Option Text) (lstat : Text → Result StatError FileInfo) (g : FileGuard)
    (path p : Text) (info : FileInfo)
    → lstat path ≡ ok info
    → abs working path ≡ some p
    → (is_ok (check_read working lstat g path).0 ≡ permits g p info)
      × IsLogged g p (check_read working lstat g path)
unfolding check_read
check_read-permits working lstat g path p info s a =
    subst (λ found. Fits (read_found working g path found)) (sym s)
      (validate_access-permits working g path p info a)
  where
    Fits : Outcome → Type 0
    Fits o = (is_ok o.0 ≡ permits g p info) × IsLogged g p o

pub data Edit : Type 0 where
  adds : Text → Edit
  removes : Text → Edit

abbrev edit : Option Text → Edit → FileGuard → FileGuard
edit working (adds path) g = (add_allowed_path working path g).1
edit working (removes path) g = remove_allowed_path working path g

abbrev pub edit_all : Option Text → List Edit → FileGuard → FileGuard
edit_all working [] g = g
edit_all working (e ∷ es) g = edit_all working es (edit working e g)

blocked_list-edit :
    (working : Option Text) (e : Edit) (g : FileGuard)
    → (edit working e g).blocked_list ≡ g.blocked_list
unfolding add_allowed_path remove_allowed_path
blocked_list-edit working (adds path) g = ground arith
blocked_list-edit working (removes path) g = ground arith

blocked_list-edit_all :
    (working : Option Text) (es : List Edit) (g : FileGuard)
    → (edit_all working es g).blocked_list ≡ g.blocked_list
blocked_list-edit_all working [] g = refl
blocked_list-edit_all working (e ∷ es) g =
    blocked_list-edit_all working es (edit working e g) ∙ blocked_list-edit working e g

refused_access :
    (working : Option Text) (g : FileGuard) (path p : Text) (info : FileInfo)
    → abs working path ≡ some p
    → covers g.blocked_list p ≡ true
    → is_ok (validate_access working g path info).0 ≡ false
refused_access working g path p info a c =
    (validate_access-permits working g path p info a).0 ∙ rw c refl

refused_new :
    (working : Option Text) (g : FileGuard) (path p : Text) (size : ℕ)
    → abs working path ≡ some p
    → covers g.blocked_list p ≡ true
    → is_ok (validate_write working g path size).0 ≡ false
unfolding check_new deny
refused_new working g path p size a c =
    ap (λ (o : Outcome). is_ok o.0) (validate_write-abs working g path p size a) ∙ rw c refl

refused_read :
    (working : Option Text) (g : FileGuard) (path p : Text) (found : Result StatError FileInfo)
    → abs working path ≡ some p
    → covers g.blocked_list p ≡ true
    → is_ok (read_found working g path found).0 ≡ false
unfolding read_found
refused_read working g path p (err e) a c = refl
refused_read working g path p (ok info) a c = refused_access working g path p info a c

refused_write :
    (working : Option Text) (g : FileGuard) (path p : Text) (found : Result StatError FileInfo)
    → abs working path ≡ some p
    → covers g.blocked_list p ≡ true
    → is_ok (write_found working g path found).0 ≡ false
unfolding write_found
refused_write working g path p (err not_exist) a c = refused_new working g path p 0 a c
refused_write working g path p (err stat_error) a c = refl
refused_write working g path p (ok info) a c = refused_access working g path p info a c

-- A path that a blocked path covers is neither read nor written, whatever paths are allowed and
-- disallowed before.
pub check-edit_all_blocked :
    (working : Option Text) (lstat : Text → Result StatError FileInfo) (g : FileGuard)
    (edits : List Edit) (path p : Text)
    → abs working path ≡ some p
    → covers g.blocked_list p ≡ true
    → (is_ok (check_read working lstat (edit_all working edits g) path).0 ≡ false)
      × (is_ok (check_write working lstat (edit_all working edits g) path).0 ≡ false)
unfolding check_read check_write
check-edit_all_blocked working lstat g edits path p a c =
    let still = ap (λ paths. covers paths p) (blocked_list-edit_all working edits g) ∙ c in
    (
      refused_read working (edit_all working edits g) path p (lstat path) a still,
      refused_write working (edit_all working edits g) path p (lstat path) a still,
    )

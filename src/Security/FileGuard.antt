-- ===== src/Security/FileGuard.antt =====
-- pkg/security/concrete/file_guard.go. The file system is what `lstat` says of each path; the locks
-- make each method one step. The audit log takes an entry for each refusal.
pub mod Policy
use skylark.Base.{
  ℕ, Bool, List, Option, Result, ok, err, if◌then◌else◌, any, ◌∷◌, ◌>>=◌, [], not, ◌==◌, ◌&&◌, ◌||◌,
  ℕ_eq, List_eq, none, some, ◌++◌,
}
use skylark.Base.Int.{ℤ, pos, ltb_ℤ}
use skylark.Text.{Text}
use skylark.Security.Paths.{abs, is_sub_path}

-- A refusal, which the error and the entry in the audit log tell.
pub data Reason : Type 0 where
  blocked : Reason
  not_allowed : Reason
  symlinks_not_allowed : Reason
  too_large : (size : ℕ) → (limit : ℤ) → Reason

pub data GuardError : Type 0 where
  invalid_path : Text → GuardError
  stat_failed : Text → GuardError
  denied : Reason → GuardError

pub data StatError : Type 0 where
  not_exist : StatError
  stat_error : StatError

pub record FileInfo : Type 0 where
  pub is_dir : Bool
  pub is_link : Bool
  pub size : ℕ

pub record FilePermissionsConfig : Type 0 where
  pub allowed_paths : List Text
  pub blocked_paths : List Text
  pub max_file_size : ℤ
  pub allow_symlinks : Bool

-- `audited` says that the guard has an audit log.
pub record FileGuard : Type 0 where
  pub allowed : List Text
  pub blocked_list : List Text
  pub max_size : ℤ
  pub symlinks : Bool
  pub audited : Bool

pub record Denial : Type 0 where
  pub path : Text
  pub reason : Reason

-- strings.ContainsAny(path, "\x00\x7f")
abbrev invalid_characters : Text → Bool
invalid_characters path = any (λ c. c == 0 || c == 127) path

-- The loops that normalize the allowed and the blocked paths.
unfoldable normalize : Option Text → List Text → Result GuardError (List Text)
normalize working [] = ok []
normalize working (path ∷ paths) =
    let rest = normalize working paths in
    if invalid_characters path then err (invalid_path path) else elim (abs working path) [
      | none ↦ err (invalid_path path)
      | some p ↦ rest >>= λ ps. ok (p ∷ ps)
    ]

unfoldable new_file_guard : Option Text → FilePermissionsConfig → Bool → Result GuardError FileGuard
unfolding normalize
new_file_guard working cfg audited = normalize working cfg.allowed_paths >>= λ allowed.
    normalize working cfg.blocked_paths >>= λ blocked_list. ok (record {
      allowed = allowed;
      blocked_list = blocked_list;
      max_size = cfg.max_file_size;
      symlinks = cfg.allow_symlinks;
      audited = audited;
    })

abbrev pub covers : List Text → Text → Bool
covers paths p = any (is_sub_path p) paths

abbrev pub Outcome : Type 0
Outcome = Result GuardError (Unit {0}) × List Denial

abbrev allow : Outcome
allow = (ok tt, [])

-- logAccessDenied, and the error
unfoldable pub deny : FileGuard → Text → Reason → Outcome
deny g p reason =
    (err (denied reason), if g.audited then record { path = p; reason = reason } ∷ [] else [])

-- The checks of `validateAccess`, on a clean path.
unfoldable pub check_access : FileGuard → Text → FileInfo → Outcome
unfolding deny
check_access g p info =
    if covers g.blocked_list p
    then deny g p blocked
    else if not (covers g.allowed p)
    then deny g p not_allowed
    else if not g.symlinks && info.is_link
    then deny g p symlinks_not_allowed
    else if not info.is_dir && ltb_ℤ g.max_size (pos info.size)
    then deny g p (too_large info.size g.max_size)
    else allow

unfoldable pub validate_access : Option Text → FileGuard → Text → FileInfo → Outcome
unfolding check_access
validate_access working g path info = elim (abs working path) [
  | none ↦ (err (invalid_path path), [])
  | some p ↦ check_access g p info
]

-- The checks of `validateWrite`, on a clean path.
unfoldable pub check_new : FileGuard → Text → ℕ → Outcome
unfolding deny
check_new g p size =
    if covers g.blocked_list p
    then deny g p blocked
    else if not (covers g.allowed p)
    then deny g p not_allowed
    else if ltb_ℤ g.max_size (pos size)
    then deny g p (too_large size g.max_size)
    else allow

unfoldable pub validate_write : Option Text → FileGuard → Text → ℕ → Outcome
unfolding check_new
validate_write working g path size = elim (abs working path) [
  | none ↦ (err (invalid_path path), [])
  | some p ↦ check_new g p size
]

-- what follows `os.Lstat` in `CheckRead`
unfoldable pub read_found : Option Text → FileGuard → Text → Result StatError FileInfo → Outcome
unfolding validate_access
read_found working g path (err e) = (err (stat_failed path), [])
read_found working g path (ok info) = validate_access working g path info

unfoldable pub check_read :
    Option Text → (Text → Result StatError FileInfo) → FileGuard → Text → Outcome
unfolding read_found
check_read working lstat g path = read_found working g path (lstat path)

-- what follows `os.Lstat` in `CheckWrite`
unfoldable pub write_found : Option Text → FileGuard → Text → Result StatError FileInfo → Outcome
unfolding validate_access validate_write
write_found working g path (err not_exist) = validate_write working g path 0
write_found working g path (err stat_error) = (err (stat_failed path), [])
write_found working g path (ok info) = validate_access working g path info

unfoldable pub check_write :
    Option Text → (Text → Result StatError FileInfo) → FileGuard → Text → Outcome
unfolding write_found
check_write working lstat g path = write_found working g path (lstat path)

unfoldable pub add_allowed_path :
    Option Text → Text → FileGuard → Result GuardError (Unit {0}) × FileGuard
add_allowed_path working path g = elim (abs working path) [
  | none ↦ (err (invalid_path path), g)
  | some p ↦
      if covers g.blocked_list p
      then (err (denied blocked), g)
      else (ok tt, record g { allowed = g.allowed ++ (p ∷ []) })
]

-- The first of the paths that is equal goes.
abbrev drop_path : Text → List Text → List Text
drop_path p [] = []
drop_path p (q ∷ paths) = let rest = drop_path p paths in if q == p then paths else q ∷ rest

unfoldable pub remove_allowed_path : Option Text → Text → FileGuard → FileGuard
remove_allowed_path working path g = elim (abs working path) [
  | none ↦ g
  | some p ↦ record g { allowed = drop_path p g.allowed }
]

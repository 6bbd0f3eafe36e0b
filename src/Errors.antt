-- ===== src/Errors.antt =====
-- pkg/errors/errors.go, and its copy in pkg/errors/concrete/errors.go. A concrete error is a pointer,
-- and is changed where it stands, so the errors are kept in a heap. Stack traces are left out, and the
-- values of a context are texts, as fmt writes them.
pub mod Helpers
pub mod Wrapped
use skylark.Base.{
  ℕ, zero, suc, Bool, true, false, Option, none, some, List, [], ◌∷◌, ◌++◌, if◌then◌else◌, length,
  get_elem?, List_eq, ℕ_eq,
}
use skylark.Base.Dict.{Dict, lookup, insert}
use skylark.Text.{Text, bytes, newline}

pub record ErrorType : Type 0 where
  pub name : Text
  pub code : ℕ

-- No error, an error of another package, by its text, or a concrete error, by its address.
pub data Error : Type 0 where
  no_error : Error
  foreign : Text → Error
  concrete : ℕ → Error

-- The type of an error that package-level Wrap makes is nil.
pub record ConcreteError : Type 0 where
  pub err_type : Option ErrorType
  pub message : Text
  pub cause : Error
  pub context : Dict Text Text
  pub temporary : Bool
  pub timeout : Bool

abbrev pub Heap : Type 0
Heap = List ConcreteError

-- A new object behind the others.
abbrev allocate : ConcreteError → Heap → Error × Heap
allocate e h = (concrete (length h), h ++ (e ∷ []))

-- The object at an address is changed.
unfoldable pub change : ℕ → (ConcreteError → ConcreteError) → Heap → Heap
change i f [] = []
change zero f (e ∷ h) = f e ∷ h
change (suc i) f (e ∷ h) = e ∷ change i f h

abbrev pub plain_error : Option ErrorType → Text → Error → ConcreteError
plain_error t message cause = record {
  err_type = t;
  message = message;
  cause = cause;
  context = [];
  temporary = false;
  timeout = false;
}

-- New of an error type, with the message that fmt has made
unfoldable pub new_error : ErrorType → Text → Heap → Error × Heap
new_error t message h = allocate (plain_error (some t) message no_error) h

unfoldable context_entries : Dict Text Text → Text
context_entries [] = []
context_entries ((k, v) ∷ []) = k ++ bytes "=" ++ v
context_entries ((k, v) ∷ e ∷ context) =
    let rest = context_entries (e ∷ context) in k ++ bytes "=" ++ v ++ bytes ", " ++ rest

abbrev context_text : Dict Text Text → Text
context_text [] = []
context_text (e ∷ context) = bytes " [" ++ context_entries (e ∷ context) ++ bytes "]"

abbrev text_of : Option ConcreteError → Text
text_of none = []
text_of (some e) = e.message ++ context_text e.context

-- Error
unfoldable pub error_text : Error → Heap → Text
unfolding context_entries
error_text no_error h = []
error_text (foreign t) h = t
error_text (concrete i) h = text_of (get_elem? h i)

abbrev pub prefixed : Text → Text → Text
prefixed message text = message ++ bytes ": " ++ text

-- Wrap: a concrete error is not wrapped in a new one, but gets the message itself.
unfoldable pub wrap_error : Option ErrorType → Error → Text → Heap → Error × Heap
unfolding change
wrap_error t no_error message h = (no_error, h)
wrap_error t (foreign text) message h =
    allocate (plain_error t (prefixed message text) (foreign text)) h
wrap_error t (concrete i) message h =
    (concrete i, change i (λ e. record e { message = prefixed message e.message }) h)

unfoldable pub with_context : Text → Text → Error → Heap → Heap
unfolding change
with_context key value (concrete i) h =
    change i (λ e. record e { context = insert key value e.context }) h
with_context key value e h = h

unfoldable with_type : ErrorType → Error → Heap → Heap
unfolding change
with_type t (concrete i) h = change i (λ e. record e { err_type = some t }) h
with_type t e h = h

-- The registry of types, and the handling of a panic.
abbrev TypeRegistry : Type 0
TypeRegistry = Dict Text ErrorType

unfoldable register_type : Text → ℕ → TypeRegistry → ErrorType × TypeRegistry
register_type name code r =
    let t : ErrorType = record { name = name; code = code } in (t, insert name t r)

abbrev panic_name : Text
panic_name = bytes "PanicError"

abbrev panic_type : Option ErrorType → TypeRegistry → ErrorType × TypeRegistry
panic_type none r = register_type panic_name 500 r
panic_type (some t) r = (t, r)

unfoldable pub handle_panic : Text → TypeRegistry → Heap → Error × TypeRegistry × Heap
unfolding register_type
handle_panic message r h =
    let t = panic_type (lookup panic_name r) r in
    let made =
      allocate
        (record (plain_error (some t.0) (bytes "panic recovered: " ++ message) no_error) {
          context = (bytes "recovered", bytes "true") ∷ [];
        })
        h in
    (made.0, t.1, made.1)

-- An aggregate keeps the errors that there are.
unfoldable add_error : Error → List Error → List Error
add_error no_error errs = errs
add_error e errs = errs ++ (e ∷ [])

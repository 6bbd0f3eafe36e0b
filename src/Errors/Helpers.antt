-- ===== src/Errors/Helpers.antt =====
-- pkg/errors/helpers.go. An error of another package is taken to have none of the methods of a concrete
-- one, so AsError gives nil for it.
use skylark.Base.{Bool, true, false, Option, none, some, List, [], get_elem?}
use skylark.Base.Dict.{Dict}
use skylark.Text.{Text}
use skylark.Errors.{
  ErrorType, Error, no_error, foreign, concrete, ConcreteError, Heap, change, add_error,
}

-- The object that AsError finds.
unfoldable as_error : Error → Heap → Option ConcreteError
as_error (concrete i) h = get_elem? h i
as_error e h = none

-- GetType; a concrete error without a type gives an interface that is not nil and holds a nil pointer.
unfoldable pub get_type : Error → Heap → Option (Option ErrorType)
unfolding as_error
get_type e h = elim (as_error e h) [ none ↦ none | some ce ↦ some ce.err_type ]

unfoldable pub get_message : Error → Heap → Text
unfolding as_error
get_message no_error h = []
get_message (foreign t) h = t
get_message (concrete i) h = elim (as_error (concrete i) h) [ none ↦ [] | some ce ↦ ce.message ]

unfoldable get_context : Error → Heap → Option (Dict Text Text)
unfolding as_error
get_context e h = elim (as_error e h) [ none ↦ none | some ce ↦ some ce.context ]

unfoldable pub get_cause : Error → Heap → Error
unfolding as_error
get_cause e h = elim (as_error e h) [ none ↦ no_error | some ce ↦ ce.cause ]

unfoldable pub is_temporary : Error → Heap → Bool
unfolding as_error
is_temporary e h = elim (as_error e h) [ none ↦ false | some ce ↦ ce.temporary ]

unfoldable is_timeout : Error → Heap → Bool
unfolding as_error
is_timeout e h = elim (as_error e h) [ none ↦ false | some ce ↦ ce.timeout ]

unfoldable pub set_temporary : Error → Heap → Heap
unfolding change
set_temporary (concrete i) h = change i (λ e. record e { temporary = true }) h
set_temporary e h = h

unfoldable set_timeout : Error → Heap → Heap
unfolding change
set_timeout (concrete i) h = change i (λ e. record e { timeout = true }) h
set_timeout e h = h

-- Write of an aggregate: what is written becomes an error.
unfoldable aggregate_write : Text → List Error → List Error
unfolding add_error
aggregate_write text errs = add_error (foreign text) errs

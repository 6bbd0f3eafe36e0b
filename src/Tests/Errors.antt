-- ===== src/Tests/Errors.antt =====
-- Runs of pkg/errors.
use skylark.Base.{true, false, refl, ◌≡◌, ◌∷◌, ◌++◌, [], none, some, length, List_eq, ℕ_eq}
use skylark.Base.Dict.{lookup, insert}
use skylark.Text.{bytes}
use skylark.Errors.{
  ErrorType, foreign, concrete, Heap, change, plain_error, wrap_error, error_text, handle_panic,
}
use skylark.Errors.Helpers.{get_type, get_message, get_cause, is_temporary, set_temporary}
use skylark.Errors.Wrapped.{wrap_all, chain, retitled, wrap_all-chain}
use skylark.Base.Dict.{lookup}

abbrev tool_error : ErrorType
tool_error = record { name = bytes "ToolError"; code = 2 }

abbrev one_error : Heap
one_error = plain_error (some tool_error) (bytes "no tool") (foreign (bytes "no tool")) ∷ []

wrap_all-chain_example :
    (wrap_all
        (some tool_error)
        (bytes "load" ∷ bytes "run" ∷ [])
        (foreign (bytes "no file"))
        one_error
      ≡ (
        concrete (length one_error),
        one_error
            ++ (plain_error
                  (some tool_error)
                  (chain (bytes "load" ∷ bytes "run" ∷ []) (bytes "no file"))
                  (foreign (bytes "no file"))
                ∷ []),
      ))
    × (wrap_all (some tool_error) (bytes "load" ∷ bytes "run" ∷ []) (concrete 0) one_error
        ≡ (concrete 0, change 0 (retitled (bytes "load" ∷ bytes "run" ∷ [])) one_error))
wrap_all-chain_example =
    wrap_all-chain (some tool_error) (bytes "load") (bytes "run" ∷ []) (bytes "no file") 0 one_error

-- The error that was there says what it was wrapped with.
wrapped_in_place :
    error_text (concrete 0) (wrap_error none (concrete 0) (bytes "run") one_error).1
    ≡ bytes "run: no tool"
unfolding error_text wrap_error
wrapped_in_place = refl

-- A second panic takes the type that the first one has registered.
panics_share_a_type :
    (let first = handle_panic (bytes "a") [] [] in (handle_panic (bytes "b") first.1 first.2).1)
    ≡ (bytes "PanicError", record { name = bytes "PanicError"; code = 500 }) ∷ []
unfolding handle_panic lookup insert
panics_share_a_type = refl

-- What the helpers tell of a wrapped error: its type is there, and nil.
helpers_tell :
    let r = wrap_error none (foreign (bytes "no file")) (bytes "load") one_error in
    (get_type r.0 r.1 ≡ some none)
    × (get_message r.0 r.1 ≡ bytes "load: no file")
    × (get_cause r.0 r.1 ≡ foreign (bytes "no file"))
unfolding wrap_error get_type get_message get_cause
helpers_tell = (refl, refl, refl)

-- A mark on an error is seen by all who hold it, and no other error has it.
marked :
    let h = set_temporary (concrete 0) (wrap_error none (foreign []) [] one_error).1 in
    (is_temporary (concrete 0) h ≡ true) × (is_temporary (concrete 1) h ≡ false)
unfolding set_temporary is_temporary wrap_error
marked = (refl, refl)

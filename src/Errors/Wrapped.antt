-- ===== src/Errors/Wrapped.antt =====
-- What wrapping an error again and again makes of it.
use skylark.Base.{ℕ, zero, suc, Option, List, [], ◌∷◌, ◌++◌, ◌≡◌, refl, ap, sym, ◌∙◌, length}
use skylark.Text.{Text}
use skylark.Errors.{
  ErrorType, Error, concrete, ConcreteError, Heap, change, prefixed, wrap_error, foreign,
  plain_error,
}

-- Each message wraps the error that the ones before it have made.
unfoldable pub wrap_all : Option ErrorType → List Text → Error → Heap → Error × Heap
unfolding wrap_error
wrap_all t [] e h = (e, h)
wrap_all t (m ∷ messages) e h = let r = wrap_error t e m h in wrap_all t messages r.0 r.1

-- The last message stands first.
abbrev pub chain : List Text → Text → Text
chain [] text = text
chain (m ∷ messages) text = chain messages (prefixed m text)

abbrev pub retitled : List Text → ConcreteError → ConcreteError
retitled messages e = record e { message = chain messages e.message }

change-change :
    (i : ℕ) (f g : ConcreteError → ConcreteError) (h : Heap)
    → change i g (change i f h) ≡ change i (λ e. g (f e)) h
unfolding change
change-change i f g [] = refl
change-change zero f g (e ∷ h) = refl
change-change (suc i) f g (e ∷ h) = ap (◌∷◌ e) (change-change i f g h)

change_same : (i : ℕ) (h : Heap) → change i (λ e. e) h ≡ h
unfolding change
change_same i [] = refl
change_same zero (e ∷ h) = refl
change_same (suc i) (e ∷ h) = ap (◌∷◌ e) (change_same i h)

change_last :
    (h : Heap) (f : ConcreteError → ConcreteError) (e : ConcreteError)
    → change (length h) f (h ++ (e ∷ [])) ≡ h ++ (f e ∷ [])
unfolding change
change_last [] f e = refl
change_last (x ∷ h) f e = ap (◌∷◌ x) (change_last h f e)

-- Wrapping a concrete error changes it, and everything that points to it, and makes no other.
wrap_all-concrete :
    (t : Option ErrorType) (messages : List Text) (i : ℕ) (h : Heap)
    → wrap_all t messages (concrete i) h ≡ (concrete i, change i (retitled messages) h)
unfolding wrap_all
wrap_all-concrete t [] i h = ap (λ k. (concrete i, k)) (sym (change_same i h))
wrap_all-concrete t (m ∷ messages) i h =
    wrap_all-concrete t messages i (change i (retitled (m ∷ [])) h)
    ∙ ap (λ k. (concrete i, k)) (change-change i (retitled (m ∷ [])) (retitled messages) h)

-- Wrapping an error of another package with some messages, one after the other, makes one new error,
-- behind those that are there, whose message is theirs from the last to the first and then the error's
-- text, and whose cause is the error; wrapping a concrete error makes none, and changes the message of
-- that error itself, for all who hold it, and nothing else.
pub wrap_all-chain :
    (t : Option ErrorType) (m : Text) (messages : List Text) (text : Text) (i : ℕ) (h : Heap)
    → (wrap_all t (m ∷ messages) (foreign text) h ≡ (
      concrete (length h),
      h ++ (plain_error t (chain (m ∷ messages) text) (foreign text) ∷ []),
    ))
      × (wrap_all t (m ∷ messages) (concrete i) h
          ≡ (concrete i, change i (retitled (m ∷ messages)) h))
unfolding wrap_all
wrap_all-chain t m messages text i h = (
  wrap_all-concrete t messages (length h)
        (h ++ (plain_error t (prefixed m text) (foreign text) ∷ []))
      ∙ ap (λ k. (concrete (length h), k))
          (change_last h (retitled messages) (plain_error t (prefixed m text) (foreign text))),
  wrap_all-concrete t (m ∷ messages) i h,
)

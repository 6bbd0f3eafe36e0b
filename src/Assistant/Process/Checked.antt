-- ===== src/Assistant/Process/Checked.antt =====
-- Which inputs an assistant runs tools with.
use skylark.Base.{
  Option, none, some, Result, ok, err, is_ok, List, [], ◌∷◌, ◌++◌, ◌≡◌, ◌⊎◌, inl, inr, refl, true,
  if-cases, subst, sym,
}
use mathlib.Core.List.Memᴰ
use mathlib.Core.List.{Memᴰ}
use skylark.Text.{Text, bytes, is_nil, newline}
use skylark.Provider.Interface.{Response, FunctionCall}
use skylark.Provider.Registry.{Registry, RegistryError, create_for_model}
use skylark.Tool.{Tool, validate_input}
use skylark.Tool.Validate.{Accepts, validate_input-Accepts}
use skylark.Tool.Manager.{ToolError, Manager, load_tool}
use skylark.Assistant.{Assistant, parse_tool_usage, build_prompt}
use skylark.Assistant.Process.{
  Surroundings, Answers, Session, Outcome, and_then, run_checked, check_input, prepare_input,
  execute_loaded, execute_tool, with_result, run_calls, final_answer, options, answer_calls,
  first_reply, first_answer, ask, create, process,
}

module _ {Float : Type 0} (v : Surroundings Float) where
  -- A run is of an input that the tool takes, and that is JSON, or the `{}` for an empty one.
  pub record IsChecked (run : Tool × Text) : Type 0 where
    pub accepted : Accepts v.parse run.0.schema run.1
    pub json : (v.is_json run.1 ≡ true) ⊎ (run.1 ≡ bytes "{}")

  abbrev pub AllChecked : Session → Type 0
  AllChecked s = (run : Tool × Text) → Memᴰ run s.runs → IsChecked run

  abbrev Ends : Outcome → Type 0
  Ends r = AllChecked r.1

  and_then-AllChecked :
      (r : Outcome) (k : Text → Session → Outcome)
      → AllChecked r.1
      → ((text : Text) (s : Session) → AllChecked s → AllChecked (k text s).1)
      → AllChecked (and_then r k).1
  and_then-AllChecked (err e, s) k h f = h
  and_then-AllChecked (ok text, s) k h f = f text s h

  run_checked-AllChecked :
      (t : Tool) (input : Text) (s : Session)
      → IsChecked (t, input)
      → AllChecked s
      → AllChecked (run_checked v t input s).1
  unfolding run_checked
  run_checked-AllChecked t input s c h run m = elim (Memᴰ.append_cases s.runs m) [
    | inl n ↦ h run n
    | inr n ↦ elim (Memᴰ.cases_cons n) [
      | inl e ↦ subst IsChecked (sym e) c
      | inr o ↦ absurd (Memᴰ.not-nil o)
    ]
  ]

  check_input-AllChecked :
      (t : Tool) (input : Text) (s : Session)
      → (v.is_json input ≡ true) ⊎ (input ≡ bytes "{}")
      → AllChecked s
      → AllChecked (check_input v t input s).1
  unfolding check_input
  check_input-AllChecked t input s j h =
      if-cases Ends (is_ok (validate_input v.parse t.schema input)) _ _
        (λ k.
          run_checked-AllChecked t input s
            (record { accepted = (validate_input-Accepts v.parse t.schema input).0 k; json = j }) h)
        (λ k. h)

  prepare_input-AllChecked :
      (t : Tool) (input : Text) (s : Session)
      → AllChecked s
      → AllChecked (prepare_input v t input s).1
  unfolding prepare_input
  prepare_input-AllChecked t input s h =
      if-cases Ends (is_nil input) _ _ (λ e. check_input-AllChecked t (bytes "{}") s (inr refl) h)
        (λ e.
          if-cases Ends (v.is_json input) _ _ (λ j. check_input-AllChecked t input s (inl j) h)
            (λ j. h))

  execute_loaded-AllChecked :
      (r : Result ToolError Tool × Manager) (input : Text) (s : Session)
      → AllChecked s
      → AllChecked (execute_loaded v r input s).1
  unfolding execute_loaded
  execute_loaded-AllChecked (err e, m) input s h = h
  execute_loaded-AllChecked (ok t, m) input s h =
      prepare_input-AllChecked t input (record s { manager = m }) h

  execute_tool-AllChecked :
      (name input : Text) (s : Session) → AllChecked s → AllChecked (execute_tool v name input s).1
  unfolding execute_tool
  execute_tool-AllChecked name input s h =
      execute_loaded-AllChecked (load_tool v.world v.now v.base name s.manager) input s h

  run_calls-AllChecked :
      (calls : List FunctionCall) (text : Text) (s : Session)
      → AllChecked s
      → AllChecked (run_calls v calls text s).1
  unfolding run_calls
  run_calls-AllChecked [] text s h = h
  run_calls-AllChecked (call ∷ calls) text s h =
      and_then-AllChecked (execute_tool v call.name call.arguments s) _
        (execute_tool-AllChecked call.name call.arguments s h)
        (λ result t k. run_calls-AllChecked calls (with_result text call result) t k)

  final_answer-AllChecked :
      (r : Result Text Response) (s : Session) → AllChecked s → AllChecked (final_answer r s).1
  unfolding final_answer
  final_answer-AllChecked (err e) s h = h
  final_answer-AllChecked (ok r) s h = h

  module _ (a : Assistant) (p : Answers Float) where
    answer_calls-AllChecked : (r : Outcome) → AllChecked r.1 → AllChecked (answer_calls v a p r).1
    unfolding answer_calls
    answer_calls-AllChecked r h =
        and_then-AllChecked r _ h
          (λ text s k. final_answer-AllChecked (p 1 (build_prompt a text) (options v a)) s k)

    first_reply-AllChecked :
        (text : Text) (r : Response) (e : Option Text) (calls : List FunctionCall) (s : Session)
        → AllChecked s
        → AllChecked (first_reply v a p text r e calls s).1
    unfolding first_reply
    first_reply-AllChecked text r (some e) calls s h = h
    first_reply-AllChecked text r none [] s h = h
    first_reply-AllChecked text r none (call ∷ calls) s h =
        answer_calls-AllChecked (run_calls v (call ∷ calls) text s)
          (run_calls-AllChecked (call ∷ calls) text s h)

    first_answer-AllChecked :
        (text : Text) (r : Result Text Response) (s : Session)
        → AllChecked s
        → AllChecked (first_answer v a p text r s).1
    unfolding first_answer
    first_answer-AllChecked text (err e) s h = h
    first_answer-AllChecked text (ok r) s h = first_reply-AllChecked text r r.error r.tool_calls s h

  create-AllChecked :
      (r : Result RegistryError (Answers Float)) (a : Assistant) (text : Text) (s : Session)
      → AllChecked s
      → AllChecked (create v r a text s).1
  unfolding create ask
  create-AllChecked (err e) a text s h = h
  create-AllChecked (ok p) a text s h =
      first_answer-AllChecked a p text (p 0 (build_prompt a text) (options v a)) s h

  -- If the runs of tools so far were of checked inputs, so are those that an assistant adds: it runs a
  -- tool only with an input that is JSON, or with `{}`, and that is an object, or `null`, with all the fields
  -- that the tool's schema requires, whether the command names the tool or the model calls it,
  -- and whatever else fails.
  pub process-AllChecked :
      (registry : Registry (Answers Float)) (default_provider : Text) (a : Assistant) (text : Text)
      (s : Session)
      → AllChecked s
      → AllChecked (process v registry default_provider a text s).1
  unfolding process
  process-AllChecked registry default_provider a text s h =
      if-cases Ends (is_nil (parse_tool_usage text).0) _ _
        (λ e.
          create-AllChecked (create_for_model (Answers Float) registry a.model default_provider) a
            text s h)
        (λ e.
          and_then-AllChecked (execute_tool v (parse_tool_usage text).0 (parse_tool_usage text).1 s)
            _ (execute_tool-AllChecked (parse_tool_usage text).0 (parse_tool_usage text).1 s h)
            (λ result t k.
              create-AllChecked (create_for_model (Answers Float) registry a.model default_provider)
                a (text ++ (newline ∷ bytes "Tool result: ") ++ result) t k))

-- ===== src/Assistant/Process/Answered.antt =====
-- What an assistant's result comes from.
use skylark.Base.{
  ℕ, Option, none, some, Result, ok, err, List, [], ◌∷◌, ◌++◌, ◌≡◌, ◌⊎◌, inl, inr, refl, Bool-cases,
}
use skylark.Text.{Text, bytes, is_nil, newline}
use skylark.Provider.Interface.{Response, FunctionCall}
use skylark.Provider.Registry.{Registry, RegistryError, create_for_model}
use skylark.Assistant.{Assistant, parse_tool_usage, build_prompt}
use skylark.Assistant.Process.{
  AssistantError, Surroundings, Answers, Session, Outcome, and_then, execute_tool, run_calls,
  final_answer, failed_or, options, answer_calls, first_reply, first_answer, ask, create, process,
}

module _ {Float : Type 0} (v : Surroundings Float) (a : Assistant) where
  -- A response without an error, to the provider's n-th prompt, which is of the assistant.
  pub record IsReply (p : Answers Float) (n : ℕ) (r : Response) : Type 0 where
    pub text : Text
    pub sent : p n (build_prompt a text) (options v a) ≡ ok r
    pub no_error : r.error ≡ none

  -- The content is that of the first reply, which calls no tools, or the first one calls tools, and it
  -- is that of the second.
  pub record IsAnswer (p : Answers Float) (content : Text) : Type 0 where
    pub first : Response
    pub replied : IsReply p 0 first
    pub final :
        ((first.tool_calls ≡ []) × (first.content ≡ content))
        ⊎ ((call : FunctionCall) × (calls : List FunctionCall) × (second : Response)
            × (first.tool_calls ≡ call ∷ calls)
            × IsReply p 1 second
            × (second.content ≡ content))

  ok-injective : (x y : Text) → Path (Result AssistantError Text) (ok x) (ok y) → x ≡ y
  ok-injective x y h = cc h

  module _ (p : Answers Float) where
    failed_or-ok :
        (r : Response) (o : Option Text) (content : Text)
        → failed_or o (ok r.content) ≡ ok content
        → (o ≡ none) × (r.content ≡ content)
    failed_or-ok r none content h = (refl, ok-injective r.content content h)
    failed_or-ok r (some e) content h = absurd (cc h)

    final_answer-IsReply :
        (text : Text) (r : Result Text Response) (s : Session) (content : Text)
        → p 1 (build_prompt a text) (options v a) ≡ r
        → (final_answer r s).0 ≡ ok content
        → (second : Response) × IsReply p 1 second × (second.content ≡ content)
    unfolding final_answer
    final_answer-IsReply text (err e) s content q h = absurd (cc h)
    final_answer-IsReply text (ok r) s content q h =
        let f = failed_or-ok r r.error content h in
        (r, record { text = text; sent = q; no_error = f.0 }, f.1)

    answer_calls-IsReply :
        (r : Outcome) (content : Text)
        → (answer_calls v a p r).0 ≡ ok content
        → (second : Response) × IsReply p 1 second × (second.content ≡ content)
    unfolding answer_calls
    answer_calls-IsReply (err e, s) content h = absurd (cc h)
    answer_calls-IsReply (ok text, s) content h =
        final_answer-IsReply text (p 1 (build_prompt a text) (options v a)) s content refl h

    first_reply-IsAnswer :
        (sent : Text) (text : Text) (r : Response) (e : Option Text) (calls : List FunctionCall)
        (s : Session) (content : Text)
        → p 0 (build_prompt a sent) (options v a) ≡ ok r
        → r.error ≡ e
        → r.tool_calls ≡ calls
        → (first_reply v a p text r e calls s).0 ≡ ok content
        → IsAnswer p content
    unfolding first_reply
    first_reply-IsAnswer sent text r (some e) calls s content q h k l = absurd (cc l)
    first_reply-IsAnswer sent text r none [] s content q h k l = record {
      first = r;
      replied = record { text = sent; sent = q; no_error = h };
      final = inl (k, ok-injective r.content content l);
    }
    first_reply-IsAnswer sent text r none (call ∷ calls) s content q h k l =
        let second = answer_calls-IsReply (run_calls v (call ∷ calls) text s) content l in
        record {
          first = r;
          replied = record { text = sent; sent = q; no_error = h };
          final = inr (call, calls, second.0, k, second.1, second.2);
        }

    first_answer-IsAnswer :
        (text : Text) (r : Result Text Response) (s : Session) (content : Text)
        → p 0 (build_prompt a text) (options v a) ≡ r
        → (first_answer v a p text r s).0 ≡ ok content
        → IsAnswer p content
    unfolding first_answer
    first_answer-IsAnswer text (err e) s content q h = absurd (cc h)
    first_answer-IsAnswer text (ok r) s content q h =
        first_reply-IsAnswer text text r r.error r.tool_calls s content q refl refl h

  create-IsAnswer :
      (made : Result RegistryError (Answers Float)) (text : Text) (s : Session) (content : Text)
      → (create v made a text s).0 ≡ ok content
      → (p : Answers Float) × (made ≡ ok p) × IsAnswer p content
  unfolding create ask
  create-IsAnswer (err e) text s content h = absurd (cc h)
  create-IsAnswer (ok p) text s content h = (
    p,
    refl,
    first_answer-IsAnswer p text (p 0 (build_prompt a text) (options v a)) s content refl h,
  )

  and_then-ok :
      (r : Outcome) (k : Text → Session → Outcome) (content : Text)
      → (and_then r k).0 ≡ ok content
      → (text : Text) × (s : Session) × ((k text s).0 ≡ ok content)
  and_then-ok (err e, s) k content h = absurd (cc h)
  and_then-ok (ok text, s) k content h = (text, s, h)

  -- A result of an assistant is the content of a reply that its provider has given without an error:
  -- of the first reply, if that calls no tools, and otherwise of the second.
  pub process-IsAnswer :
      (registry : Registry (Answers Float)) (default_provider : Text) (text : Text) (s : Session)
      (content : Text)
      → (process v registry default_provider a text s).0 ≡ ok content
      → (p : Answers Float) × (create_for_model (Answers Float) registry a.model default_provider
          ≡ ok p)
        × IsAnswer p content
  unfolding process
  process-IsAnswer registry default_provider text s content h =
      let made = create_for_model (Answers Float) registry a.model default_provider in
      elim (Bool-cases (is_nil (parse_tool_usage text).0)) [
        | inl e ↦ create-IsAnswer made text s content (rw e at h)
        | inr e ↦
            let k =
              and_then-ok (execute_tool v (parse_tool_usage text).0 (parse_tool_usage text).1 s) _
                content (rw e at h) in
            create-IsAnswer made (text ++ (newline ∷ bytes "Tool result: ") ++ k.0) k.1 content k.2
      ]

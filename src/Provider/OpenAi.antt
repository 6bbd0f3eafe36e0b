-- ===== src/Provider/OpenAi.antt =====
-- pkg/provider/openai/openai.go. What comes back from the HTTP client, and what encoding/json makes
-- of it, are arguments; so are the times of the calls of the rate limiter.
pub mod Accounted
use skylark.Base.{
  ℕ, ◌+◌, ◌/◌, ◌%◌, Result, ok, err, Option, none, some, List, [], ◌∷◌, ◌++◌, if◌then◌else◌, Bool,
  ◌>>=◌, false, ℕ_eq, List_eq, ◌==◌, true, ◌||◌,
}
use mathlib.Core.Option
use skylark.Base.Int.{ℤ, pos, ℤ_eq}
use skylark.Base.Dict.{Dict, lookup, insert}
use skylark.Text.{Text, bytes, is_nil}
use skylark.Provider.RateLimit.{
  TokenBucketLimiter, LimitError, Wake, wait, add_tokens, new_rate_limiter,
}
use skylark.Provider.Interface.{
  ErrorCode, rate_limit, invalid_input, server_error, authentication, ProviderError, Usage,
  FunctionCall, Response, RequestOptions,
}
use skylark.Provider.Monitor.{Monitor, record_request, record_tokens, record_latency}

-- `panicked` is the index into the choices of a reply without any.
pub data SendError : Type 0 where
  context_done : SendError
  limited : LimitError → SendError
  provider_error : ProviderError → SendError
  panicked : SendError

pub record Choice : Type 0 where
  pub content : Text
  pub tool_calls : List FunctionCall

-- `Response` of openai.go
pub record Reply : Type 0 where
  pub choices : List Choice
  pub usage : Usage

-- The messages of a request, by their roles.
pub data Message : Type 0 where
  user : Text → Message
  assistant : Text → List FunctionCall → Message
  tool : (content call_id : Text) → Message

pub record Tool : Type 0 where
  pub description : Text
  pub parameters : Text
  pub perform : Text → Result Text Text

pub record ToolSchema : Type 0 where
  pub name : Text
  pub description : Text
  pub parameters : Text

-- What an HTTP request comes to.
pub data HttpOutcome : Type 0 where
  marshal_failed create_failed send_failed read_failed : Text → HttpOutcome
  replied : (status : ℕ) → (body : Text) → HttpOutcome

unfoldable map_error_code : Text → ErrorCode
map_error_code code =
    if code == bytes "rate_limit_exceeded" || code == bytes "rate_limit_error"
    then rate_limit
    else if code == bytes "invalid_request_error" || code == bytes "context_length_exceeded"
    then invalid_input
    else server_error

abbrev provider_failed : {A : Type 0} → ErrorCode → Text → Result SendError A
provider_failed code message = err (provider_error (record { code = code; message = message }))

-- A status code has three digits.
abbrev status_text : ℕ → Text
status_text status =
    (48 + (status / 100) % 10) ∷ (48 + (status / 10) % 10) ∷ (48 + status % 10) ∷ []

-- The times of the calls of the rate limiter, and what the wait comes to.
pub record Times : Type 0 where
  pub start : ℕ
  pub wake : Wake
  pub first : ℕ
  pub second : ℕ

-- `Float` is float64, of which only the test for zero is used.
pub record ModelConfig (Float : Type 0) : Type 0 where
  pub api_key : Text
  pub temperature : Float
  pub max_tokens : ℤ

pub record Request (Float : Type 0) : Type 0 where
  pub model : Text
  pub messages : List Message
  pub temperature : Float
  pub max_tokens : ℤ
  pub tools : List ToolSchema

pub record Provider (Float : Type 0) : Type 0 where
  pub config : ModelConfig Float
  pub model : Text
  pub tools : Dict Text Tool

-- What the calls of a provider change: the rate limiter and the monitor, if there is one.
pub record State : Type 0 where
  pub limiter : TokenBucketLimiter
  pub monitor : Option Monitor

-- A result, with the flag `success` that the deferred function reads.
abbrev pub Flagged : Type 0
Flagged = Bool × Result SendError Response × State

unfoldable pub deferred : Bool → State → State
deferred success s = record s {
  monitor = Option.map (λ m. record_latency (record_request success m)) s.monitor;
}

-- p.rateLimits.AddTokens, and then p.monitor.RecordTokens
unfoldable pub charged :
    Usage
    → Result LimitError (Unit {0}) × TokenBucketLimiter
    → State
    → Result SendError (Unit {0}) × State
charged usage (err e, l) s = (err (limited e), record s { limiter = l })
charged usage (ok u, l) s = (
  ok tt,
  record {
    limiter = l;
    monitor = Option.map (record_tokens usage.prompt usage.completion usage.total) s.monitor;
  },
)

unfoldable pub charge : ℕ → Usage → State → Result SendError (Unit {0}) × State
unfolding charged
charge now usage s = charged usage (add_tokens now usage.total s.limiter) s

unfoldable tool_schemas : Dict Text Tool → List ToolSchema
tool_schemas [] = []
tool_schemas ((name, t) ∷ tools) =
    record { name = name; description = t.description; parameters = t.parameters }
    ∷ tool_schemas tools

unfoldable pub run_tool : Option Tool → FunctionCall → Result SendError Message
run_tool none c = provider_failed invalid_input (bytes "unknown tool: " ++ c.name)
run_tool (some t) c = elim (t.perform c.arguments) [
  | err e ↦ provider_failed server_error (bytes "tool execution failed: " ++ e)
  | ok output ↦ ok (tool output c.id)
]

-- the loop over the tool calls
unfoldable run_tools : Dict Text Tool → List FunctionCall → Result SendError (List Message)
unfolding run_tool
run_tools tools [] = ok []
run_tools tools (c ∷ calls) =
    let rest = run_tools tools calls in
    run_tool (lookup c.name tools) c >>= λ m. rest >>= λ ms. ok (m ∷ ms)

abbrev answer_of : Choice → Usage → Response
answer_of c usage = record { content = c.content; usage = usage; error = none; tool_calls = [] }

-- the content of the first choice
unfoldable pub respond : Reply → List Choice → Result SendError Response
respond reply [] = err panicked
respond reply (c ∷ cs) = ok (answer_of c reply.usage)

-- After the tools: the final reply is charged, and its first choice is the response.
unfoldable pub final_charged : Reply → Result SendError (Unit {0}) × State → Flagged
unfolding respond
final_charged reply (err e, s) = (false, err e, s)
final_charged reply (ok u, s) = (true, respond reply reply.choices, s)

unfoldable pub final_reply : ℕ → Result SendError Reply → State → Flagged
unfolding final_charged charge
final_reply now (err e) s = (false, err e, s)
final_reply now (ok reply) s = final_charged reply (charge now reply.usage s)

abbrev pub undefer : Flagged → Result SendError Response × State
undefer (success, r, s) = (r, deferred success s)

abbrev pub succeeded : Result SendError Response × State → Flagged
succeeded (r, s) = (true, r, s)

module _ (parse_error : Text → Option (Text × Text)) (parse_reply : Text → Result Text Reply) where
  -- What `doRequest` makes of the outcome of its request.
  unfoldable pub do_request : HttpOutcome → Result SendError Reply
  unfolding map_error_code
  do_request (marshal_failed e) =
      provider_failed invalid_input (bytes "failed to marshal request: " ++ e)
  do_request (create_failed e) =
      provider_failed server_error (bytes "failed to create request: " ++ e)
  do_request (send_failed e) = provider_failed server_error (bytes "request failed: " ++ e)
  do_request (read_failed e) = provider_failed server_error (bytes "failed to read response: " ++ e)
  do_request (replied status body) =
      if status == 200
      then (elim (parse_reply body) [
        | err e ↦ provider_failed server_error (bytes "failed to parse response: " ++ e)
        | ok reply ↦ ok reply
      ])
      else elim (parse_error body) [
        | none ↦
            provider_failed server_error (bytes "request failed with status " ++ status_text status)
        | some (code, message) ↦ provider_failed (map_error_code code) message
      ]

  module _ {Float : Type 0} (is_zero : Float → Bool) (p : Provider Float)
      (http : Request Float → HttpOutcome) where
    unfoldable pub after_tools :
        ℕ → Request Float → Choice → Result SendError (List Message) → State → Flagged
    unfolding final_reply do_request
    after_tools now req c (err e) s = (false, err e, s)
    after_tools now req c (ok results) s =
        final_reply now
          (do_request (
            http (record req {
              messages = req.messages ++ (assistant c.content c.tool_calls ∷ results);
            })))
          s

    unfoldable pub handle_tool_calls :
        ℕ → Request Float → Choice → State → Result SendError Response × State
    unfolding after_tools run_tools deferred
    handle_tool_calls now req c s =
        undefer (after_tools now req c (run_tools p.tools c.tool_calls) s)

    unfoldable pub chosen_calls :
        Times → Request Float → Reply → Choice → List FunctionCall → State → Flagged
    unfolding handle_tool_calls
    chosen_calls t req reply c [] s = (true, ok (answer_of c reply.usage), s)
    chosen_calls t req reply c (call ∷ calls) s = succeeded (handle_tool_calls t.second req c s)

    unfoldable pub chosen : Times → Request Float → Reply → List Choice → State → Flagged
    unfolding chosen_calls
    chosen t req reply [] s = (false, err panicked, s)
    chosen t req reply (c ∷ cs) s = chosen_calls t req reply c c.tool_calls s

    unfoldable pub first_charged :
        Times → Request Float → Reply → Result SendError (Unit {0}) × State → Flagged
    unfolding chosen
    first_charged t req reply (err e, s) = (false, err e, s)
    first_charged t req reply (ok u, s) = chosen t req reply reply.choices s

    unfoldable pub first_reply : Times → Request Float → Result SendError Reply → State → Flagged
    unfolding first_charged charge
    first_reply t req (err e) s = (false, err e, s)
    first_reply t req (ok reply) s = first_charged t req reply (charge t.first reply.usage s)

    -- The request, from the options, or where they have none from the provider.
    unfoldable pub build_request : Text → Option (RequestOptions Float) → Request Float
    unfolding tool_schemas
    build_request prompt none = record {
      model = p.model;
      messages = user prompt ∷ [];
      temperature = p.config.temperature;
      max_tokens = p.config.max_tokens;
      tools = tool_schemas p.tools;
    }
    build_request prompt (some o) = record {
      model = if is_nil o.model then p.model else o.model;
      messages = user prompt ∷ [];
      temperature = if is_zero o.temperature then p.config.temperature else o.temperature;
      max_tokens = if o.max_tokens == pos 0 then p.config.max_tokens else o.max_tokens;
      tools = tool_schemas p.tools;
    }

    unfoldable pub waited :
        Times → Request Float → Result LimitError (Unit {0}) × TokenBucketLimiter → State → Flagged
    unfolding first_reply do_request
    waited t req (err e, l) s = (false, err (limited e), record s { limiter = l })
    waited t req (ok u, l) s = first_reply t req (do_request (http req)) (record s { limiter = l })

    unfoldable pub send_body : Bool → Times → Request Float → State → Flagged
    unfolding waited
    send_body ctx_done t req s =
        if ctx_done
        then (false, err context_done, s)
        else waited t req (wait t.start t.wake s.limiter) s

    -- Send
    unfoldable pub send :
        Bool
        → Times
        → Text
        → Option (RequestOptions Float)
        → State
        → Result SendError Response × State
    unfolding send_body build_request deferred
    send ctx_done t prompt opts s = undefer (send_body ctx_done t (build_request prompt opts) s)

-- The rate limiter of the options, or the default one.
abbrev limiter_of : Option TokenBucketLimiter → ℕ → TokenBucketLimiter
limiter_of none now =
    new_rate_limiter (record { requests_per_minute = pos 3; tokens_per_minute = pos 1000 }) now
limiter_of (some limiter) now = limiter

-- New: an empty API key is refused.
unfoldable new_provider :
    {Float : Type 0}
    → Text
    → ModelConfig Float
    → Option TokenBucketLimiter
    → Option Monitor
    → ℕ
    → Result SendError (Provider Float × State)
new_provider model cfg limiter monitor now =
    if is_nil cfg.api_key
    then provider_failed authentication (bytes "OpenAI API key is required")
    else ok (
      record { config = cfg; model = model; tools = [] },
      record { limiter = limiter_of limiter now; monitor = monitor },
    )

unfoldable register_tool : {Float : Type 0} → Text → Tool → Provider Float → Provider Float
register_tool name t p = record p { tools = insert name t p.tools }

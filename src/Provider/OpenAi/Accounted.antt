-- ===== src/Provider/OpenAi/Accounted.antt =====
-- What the monitor of an OpenAI provider counts.
use skylark.Base.{
  not, ◌&&◌, subst, ℕ, ◌+◌, ◌≡◌, refl, true, false, Bool, Option, none, some, Result, ok, err,
  is_ok, if◌then◌else◌, arith, List, [], ◌∷◌, ◌∙◌,
}
use mathlib.Core.Option
use skylark.Text.{Text}
use skylark.Provider.RateLimit.{TokenBucketLimiter, LimitError, add_tokens, wait}
use skylark.Provider.Monitor.{Monitor, record_request, record_tokens, record_latency}
use skylark.Provider.Interface.{Usage, FunctionCall, Response, RequestOptions}
use skylark.Provider.OpenAi.{
  SendError, panicked, Reply, Choice, Message, State, Flagged, Times, Request, Provider,
  HttpOutcome, deferred, charged, charge, do_request, respond, final_charged, final_reply,
  after_tools, undefer, handle_tool_calls, succeeded, chosen_calls, chosen, first_charged,
  first_reply, waited, send_body, send, build_request,
}

abbrev requests_of : Option Monitor → ℕ
requests_of none = 0
requests_of (some m) = m.requests

abbrev failures_of : Option Monitor → ℕ
failures_of none = 0
failures_of (some m) = m.failures

abbrev has_monitor : Option Monitor → ℕ
has_monitor none = 0
has_monitor (some m) = 1

abbrev is_panic : Result SendError Response → Bool
is_panic (err panicked) = true
is_panic _ = false

-- What the monitor will have counted once the deferred function has run: one failure if there is an
-- error, and one request more if tools were called.
record Tracked (with_tools : Bool) (s : State) (f : Flagged) : Type 0 where
  monitored : has_monitor f.2.monitor ≡ has_monitor s.monitor
  requested :
      requests_of f.2.monitor
      ≡ requests_of s.monitor + (if with_tools then has_monitor s.monitor else 0)
  failed :
      is_panic f.1 ≡ false
      → failures_of f.2.monitor + (if f.0 then 0 else has_monitor s.monitor)
        ≡ failures_of s.monitor + (if is_ok f.1 then 0 else has_monitor s.monitor)

-- The counts of two states are the same.
record SameCounts (s t : State) : Type 0 where
  monitored : has_monitor t.monitor ≡ has_monitor s.monitor
  requested : requests_of t.monitor ≡ requests_of s.monitor
  failed : failures_of t.monitor ≡ failures_of s.monitor

SameCounts-refl : (s : State) → SameCounts s s
SameCounts-refl s = record { monitored = refl; requested = refl; failed = refl }

Tracked-SameCounts :
    (b : Bool) (s t : State) (f : Flagged) → SameCounts s t → Tracked b t f → Tracked b s f
Tracked-SameCounts b s t f c k = record {
  monitored = k.monitored ∙ c.monitored;
  requested = ground (arith, k.requested, c.monitored, c.requested);
  failed = λ h. ground (arith, k.failed h, c.monitored, c.failed);
}

failed-Tracked : (s t : State) (e : SendError) → SameCounts s t → Tracked false s (false, err e, t)
failed-Tracked s t e c = record {
  monitored = c.monitored;
  requested = omega (arith, c.requested);
  failed = λ h. omega (arith, c.failed);
}

abbrev tokens_recorded : Usage → Option Monitor → Option Monitor
tokens_recorded usage = Option.map (record_tokens usage.prompt usage.completion usage.total)

tokens-counts :
    (usage : Usage) (o : Option Monitor)
    → (has_monitor (tokens_recorded usage o) ≡ has_monitor o)
      × (requests_of (tokens_recorded usage o) ≡ requests_of o)
      × (failures_of (tokens_recorded usage o) ≡ failures_of o)
unfolding record_tokens
tokens-counts usage none = (refl, refl, refl)
tokens-counts usage (some m) = (refl, refl, refl)

charged-SameCounts :
    (usage : Usage) (r : Result LimitError (Unit {0}) × TokenBucketLimiter) (s : State)
    → SameCounts s (charged usage r s).1
unfolding charged
charged-SameCounts usage (err e, l) s = record { monitored = refl; requested = refl; failed = refl }
charged-SameCounts usage (ok u, l) s =
    let c = tokens-counts usage s.monitor in
    record { monitored = c.0; requested = c.1; failed = c.2 }

abbrev call_recorded : Bool → Option Monitor → Option Monitor
call_recorded b = Option.map (λ m. record_latency (record_request b m))

call-counts :
    (b : Bool) (o : Option Monitor)
    → (has_monitor (call_recorded b o) ≡ has_monitor o)
      × (requests_of (call_recorded b o) ≡ requests_of o + has_monitor o)
      × (failures_of (call_recorded b o) ≡ failures_of o + (if b then 0 else has_monitor o))
unfolding record_request record_latency
call-counts b none = (refl, omega arith, ground arith)
call-counts b (some m) = (refl, omega arith, ground arith)

-- The counts of a call, once it has returned.
pub record Counted (with_tools : Bool) (s : State) (r : Result SendError Response × State)
    : Type 0 where
  pub monitored : has_monitor r.1.monitor ≡ has_monitor s.monitor
  pub requested :
      requests_of r.1.monitor
      ≡ requests_of s.monitor
        + has_monitor s.monitor
        + (if with_tools then has_monitor s.monitor else 0)
  pub failed :
      is_panic r.0 ≡ false
      → failures_of r.1.monitor
        ≡ failures_of s.monitor + (if is_ok r.0 then 0 else has_monitor s.monitor)

undefer-Counted : (b : Bool) (s : State) (f : Flagged) → Tracked b s f → Counted b s (undefer f)
unfolding deferred
undefer-Counted b s (success, r, t) k =
    let c = call-counts success t.monitor in
    record {
      monitored = c.0 ∙ k.monitored;
      requested = ground (arith, c.1, k.monitored, k.requested);
      failed = λ h. ground (arith, c.2, k.monitored, k.failed h);
    }

succeeded-Tracked :
    (s : State) (r : Result SendError Response × State)
    → Counted false s r
    → Tracked true s (succeeded r)
succeeded-Tracked s (r, t) k = record {
  monitored = k.monitored;
  requested = ground (arith, k.requested);
  failed = λ h. ground (arith, k.failed h);
}

ok-Tracked : (s t : State) (r : Response) → SameCounts s t → Tracked false s (true, ok r, t)
ok-Tracked s t r c = record {
  monitored = c.monitored;
  requested = omega (arith, c.requested);
  failed = λ h. omega (arith, c.failed);
}

respond-Tracked :
    (reply : Reply) (cs : List Choice) (s t : State)
    → SameCounts s t
    → Tracked false s (true, respond reply cs, t)
unfolding respond
respond-Tracked reply [] s t c = record {
  monitored = c.monitored;
  requested = omega (arith, c.requested);
  failed = λ h. absurd (cc h);
}
respond-Tracked reply (choice ∷ cs) s t c = ok-Tracked s t _ c

final_charged-Tracked :
    (reply : Reply) (s : State) (r : Result SendError (Unit {0}) × State)
    → SameCounts s r.1
    → Tracked false s (final_charged reply r)
unfolding final_charged
final_charged-Tracked reply s (err e, t) c = failed-Tracked s t e c
final_charged-Tracked reply s (ok u, t) c = respond-Tracked reply reply.choices s t c

final_reply-Tracked :
    (now : ℕ) (r : Result SendError Reply) (s : State) → Tracked false s (final_reply now r s)
unfolding final_reply charge
final_reply-Tracked now (err e) s = failed-Tracked s s e (SameCounts-refl s)
final_reply-Tracked now (ok reply) s =
    final_charged-Tracked reply s (charge now reply.usage s)
      (charged-SameCounts reply.usage (add_tokens now reply.usage.total s.limiter) s)

abbrev any_calls : List FunctionCall → Bool
any_calls [] = false
any_calls (call ∷ calls) = true

-- The first choice has calls of tools.
abbrev asks_tools : List Choice → Bool
asks_tools [] = false
asks_tools (c ∷ cs) = any_calls c.tool_calls

-- The first reply is one that has calls of tools, and its tokens are granted.
abbrev reply_asks : Times → Result SendError Reply → TokenBucketLimiter → Bool
reply_asks t (err e) l = false
reply_asks t (ok reply) l =
    is_ok (add_tokens t.first reply.usage.total l).0 && asks_tools reply.choices

-- So it is once the wait is over.
abbrev wait_asks :
    Times → Result LimitError (Unit {0}) × TokenBucketLimiter → Result SendError Reply → Bool
wait_asks t (err e, l) r = false
wait_asks t (ok u, l) r = reply_asks t r l

is_ok-charged :
    (usage : Usage) (r : Result LimitError (Unit {0}) × TokenBucketLimiter) (s : State)
    → is_ok (charged usage r s).0 ≡ is_ok r.0
unfolding charged
is_ok-charged usage (err e, l) s = refl
is_ok-charged usage (ok u, l) s = refl

module _ (parse_error : Text → Option (Text × Text)) (parse_reply : Text → Result Text Reply)
    {Float : Type 0} (is_zero : Float → Bool) (p : Provider Float)
    (http : Request Float → HttpOutcome) where
  after_tools-Tracked :
      (now : ℕ) (req : Request Float) (c : Choice) (r : Result SendError (List Message)) (s : State)
      → Tracked false s (after_tools parse_error parse_reply is_zero p http now req c r s)
  unfolding after_tools
  after_tools-Tracked now req c (err e) s = failed-Tracked s s e (SameCounts-refl s)
  after_tools-Tracked now req c (ok results) s = final_reply-Tracked now _ s

  handle_tool_calls-Counted :
      (now : ℕ) (req : Request Float) (c : Choice) (s : State)
      → Counted false s (handle_tool_calls parse_error parse_reply is_zero p http now req c s)
  unfolding handle_tool_calls
  handle_tool_calls-Counted now req c s =
      undefer-Counted false s _ (after_tools-Tracked now req c _ s)

  chosen_calls-Tracked :
      (t : Times) (req : Request Float) (reply : Reply) (c : Choice) (calls : List FunctionCall)
      (s₀ s : State)
      → SameCounts s₀ s
      → Tracked
          (any_calls calls)
          s₀
          (chosen_calls parse_error parse_reply is_zero p http t req reply c calls s)
  unfolding chosen_calls
  chosen_calls-Tracked t req reply c [] s₀ s k = ok-Tracked s₀ s _ k
  chosen_calls-Tracked t req reply c (call ∷ calls) s₀ s k =
      Tracked-SameCounts true s₀ s _ k
        (succeeded-Tracked s _ (handle_tool_calls-Counted t.second req c s))

  chosen-Tracked :
      (t : Times) (req : Request Float) (reply : Reply) (cs : List Choice) (s₀ s : State)
      → SameCounts s₀ s
      → Tracked (asks_tools cs) s₀ (chosen parse_error parse_reply is_zero p http t req reply cs s)
  unfolding chosen
  chosen-Tracked t req reply [] s₀ s k = failed-Tracked s₀ s panicked k
  chosen-Tracked t req reply (c ∷ cs) s₀ s k =
      chosen_calls-Tracked t req reply c c.tool_calls s₀ s k

  first_charged-Tracked :
      (t : Times) (req : Request Float) (reply : Reply) (s₀ : State)
      (r : Result SendError (Unit {0}) × State)
      → SameCounts s₀ r.1
      → Tracked
          (is_ok r.0 && asks_tools reply.choices)
          s₀
          (first_charged parse_error parse_reply is_zero p http t req reply r)
  unfolding first_charged
  first_charged-Tracked t req reply s₀ (err e, s) k = failed-Tracked s₀ s e k
  first_charged-Tracked t req reply s₀ (ok u, s) k = chosen-Tracked t req reply reply.choices s₀ s k

  first_reply-Tracked :
      (t : Times) (req : Request Float) (r : Result SendError Reply) (s : State)
      → Tracked
          (reply_asks t r s.limiter)
          s
          (first_reply parse_error parse_reply is_zero p http t req r s)
  unfolding first_reply charge
  first_reply-Tracked t req (err e) s = failed-Tracked s s e (SameCounts-refl s)
  first_reply-Tracked t req (ok reply) s =
      subst
        (λ b. Tracked (b && asks_tools reply.choices) s (
          first_charged parse_error parse_reply is_zero p http t req reply
            (charge t.first reply.usage s)))
        (is_ok-charged reply.usage (add_tokens t.first reply.usage.total s.limiter) s)
        (first_charged-Tracked t req reply s (charge t.first reply.usage s)
          (charged-SameCounts reply.usage (add_tokens t.first reply.usage.total s.limiter) s))

  waited-Tracked :
      (t : Times) (req : Request Float) (r : Result LimitError (Unit {0}) × TokenBucketLimiter)
      (s : State)
      → Tracked
          (wait_asks t r (do_request parse_error parse_reply (http req)))
          s
          (waited parse_error parse_reply is_zero p http t req r s)
  unfolding waited
  waited-Tracked t req (err e, l) s =
      failed-Tracked s (record s { limiter = l }) _
        (record { monitored = refl; requested = refl; failed = refl })
  waited-Tracked t req (ok u, l) s =
      Tracked-SameCounts (reply_asks t (do_request parse_error parse_reply (http req)) l) s
        (record s { limiter = l }) _ (record { monitored = refl; requested = refl; failed = refl })
        (first_reply-Tracked t req (do_request parse_error parse_reply (http req))
          (record s { limiter = l }))

  -- A call of Send comes to the tools of its first reply.
  abbrev pub calls_tools : Bool → Times → Request Float → State → Bool
  calls_tools ctx_done t req s =
      not ctx_done
      && wait_asks t (wait t.start t.wake s.limiter) (do_request parse_error parse_reply (http req))

  send_body-Tracked :
      (ctx_done : Bool) (t : Times) (req : Request Float) (s : State)
      → Tracked
          (calls_tools ctx_done t req s)
          s
          (send_body parse_error parse_reply is_zero p http ctx_done t req s)
  unfolding send_body
  send_body-Tracked true t req s = failed-Tracked s s _ (SameCounts-refl s)
  send_body-Tracked false t req s = waited-Tracked t req _ s

  -- A call of Send adds one request to the monitor, if there is one, and a second one just if it comes to
  -- call tools: the context is not done, the wait for the rate limiter succeeds, the first reply can be
  -- read, its tokens are granted, and its first choice has calls of tools. If it does not panic, it adds
  -- one failure just if it returns an error.
  pub send-Counted :
      (ctx_done : Bool) (t : Times) (prompt : Text) (opts : Option (RequestOptions Float))
      (s : State)
      → Counted
          (calls_tools ctx_done t
            (build_request parse_error parse_reply is_zero p http prompt opts)
            s)
          s
          (send parse_error parse_reply is_zero p http ctx_done t prompt opts s)
  unfolding send
  send-Counted ctx_done t prompt opts s = undefer-Counted _ s _ (
      send_body-Tracked ctx_done t
        (build_request parse_error parse_reply is_zero p http prompt opts) s)

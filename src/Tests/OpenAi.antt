-- ===== src/Tests/OpenAi.antt =====
-- Runs of pkg/provider/openai/openai.go.
use skylark.Base.{
  refl, ok, err, [], ◌≡◌, ◌∷◌, Bool, true, false, Option, none, some, Result, if◌then◌else◌, ◌==◌,
  ℕ_eq, List_eq, length,
}
use skylark.Base.Int.{pos, ◌+ℤ◌, ◌-ℤ◌}
use skylark.Base.Dict.{lookup}
use skylark.Text.{Text, bytes}
use skylark.Provider.RateLimit.{fires, new_rate_limiter, wait, add_tokens}
use skylark.Provider.Monitor.{Monitor, new_monitor, record_latency, record_request, record_tokens}
use skylark.Provider.Interface.{Usage, Response}
use skylark.Provider.OpenAi.{
  build_request, Reply, Request, Provider, HttpOutcome, replied, State, Times, SendError, panicked,
  send,
}
use skylark.Provider.OpenAi.Accounted.{calls_tools, Counted, send-Counted}

abbrev usage : Usage
usage = record { prompt = pos 3; completion = pos 2; total = pos 5 }

abbrev no_error : Text → Option (Text × Text)
no_error body = none

-- The body "call" asks for a tool, the body "" has no choices.
abbrev read_reply : Text → Result Text Reply
read_reply body =
    if body == bytes "call"
    then ok (record {
      choices =
          record {
            content = [];
            tool_calls =
                record { id = bytes "1"; name = bytes "echo"; arguments = bytes "hi" } ∷ [];
          }
          ∷ [];
      usage = usage;
    })
    else if body == []
    then ok (record { choices = []; usage = usage })
    else ok (record { choices = record { content = body; tool_calls = [] } ∷ []; usage = usage })

-- Answers the first request with a call of a tool, and the second with `last`.
abbrev server : Text → Request Bool → HttpOutcome
server last req = if length req.messages == 1 then replied 200 (bytes "call") else replied 200 last

abbrev is_false : Bool → Bool
is_false b = if b then false else true

abbrev echo : Provider Bool
echo = record {
  config = record { api_key = bytes "key"; temperature = true; max_tokens = pos 100 };
  model = bytes "gpt-4";
  tools =
      (
        bytes "echo",
        record { description = []; parameters = []; perform = λ arguments. ok arguments },
      )
      ∷ [];
}

abbrev idle : State
idle = record {
  limiter =
      new_rate_limiter (record { requests_per_minute = pos 3; tokens_per_minute = pos 1000 }) 0;
  monitor = some new_monitor;
}

abbrev times : Times
times = record { start = 1; wake = fires 0; first = 2; second = 3 }

-- The result, and the counts of the monitor, of a call whose second reply is `last`.
abbrev outcome : Text → Result SendError Response × Option Monitor
outcome last =
    let r =
      send no_error read_reply is_false echo (server last) false times (bytes "hello") none idle in
    (r.0, r.1.monitor)

abbrev two_calls : Option Monitor
two_calls = some (record {
  requests = 2;
  failures = 0;
  prompt_tokens = pos 6;
  completion_tokens = pos 4;
  total_tokens = pos 10;
  call_count = 2;
})

calls_a_tool : outcome (bytes "bye") ≡ (
  ok (record { content = bytes "bye"; usage = usage; error = none; tool_calls = [] }),
  two_calls,
)
unfolding send wait new_rate_limiter add_tokens lookup ◌-ℤ◌ record_latency record_request
    record_tokens ◌+ℤ◌
calls_a_tool = refl

-- A reply without choices ends the program, and is counted as a success.
no_choices : outcome [] ≡ (err panicked, two_calls)
unfolding send wait new_rate_limiter add_tokens lookup ◌-ℤ◌ record_latency record_request
    record_tokens ◌+ℤ◌
no_choices = refl

send-Counted_example :
    Counted
      (calls_tools no_error read_reply is_false echo
        (server (bytes "bye"))
        false
        times
        (build_request no_error read_reply is_false echo
          (server (bytes "bye"))
          (bytes "hello")
          none)
        idle)
      idle
      (send no_error read_reply is_false echo
        (server (bytes "bye"))
        false
        times
        (bytes "hello")
        none
        idle)
send-Counted_example =
    send-Counted no_error read_reply is_false echo (server (bytes "bye")) false times
      (bytes "hello") none idle

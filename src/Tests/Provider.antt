-- ===== src/Tests/Provider.antt =====
-- Runs of pkg/provider.
use skylark.Base.{refl, ok, [], List, ◌≡◌, ◌∷◌, arith, ℕ_eq, List_eq}
use skylark.Base.Int.{pos, ◌+ℤ◌, ◌≤ℤ◌, ◌-ℤ◌}
use skylark.Text.{Text}
use skylark.Provider.Registry.{Factory}
use skylark.Provider.RateLimit.{
  RateLimitConfig, wait, add_tokens, refresh, take_request, reset, use_request, wait_time,
  spend_tokens, new_rate_limiter, fires,
}
use skylark.Provider.RateLimit.Ledger.{
  Event, waits, spends, call, call_all, opened, note, note_wait, note_tokens,
}
use skylark.Provider.RateLimit.Within.{call_all_within_limits}

-- A provider that is known by the model's name.
abbrev named_model : Factory Text
named_model model = ok model

abbrev two_requests : RateLimitConfig
two_requests = record { requests_per_minute = pos 2; tokens_per_minute = pos 10 }

abbrev busy : List Event
busy =
    waits 1 (fires 0)
    ∷ spends 2 (pos 7)
    ∷ spends 3 (pos 4)
    ∷ waits 4 (fires 0)
    ∷ waits 5 (fires 0)
    ∷ []

-- The third request waits for a minute, and the reset clears the counts.
busy_counts : (call_all busy (opened two_requests 0)).requests ≡ 1
unfolding call_all call wait add_tokens refresh take_request reset use_request wait_time
    spend_tokens new_rate_limiter note note_wait note_tokens ◌+ℤ◌ ◌-ℤ◌
busy_counts = refl

call_all_within_limits_example :
    (pos (call_all busy (opened two_requests 0)).requests ≤ℤ pos 2)
    × ((call_all busy (opened two_requests 0)).tokens ≤ℤ pos 10)
call_all_within_limits_example =
    call_all_within_limits two_requests 0 busy (omega arith) (omega arith)

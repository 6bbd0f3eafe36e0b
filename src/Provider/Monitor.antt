-- ===== src/Provider/Monitor.antt =====
-- pkg/provider/memory/monitor.go. The latencies are floating point, and only their number is kept.
use skylark.Base.{ℕ, suc, Bool, if◌then◌else◌}
use skylark.Base.Int.{ℤ, pos, ◌+ℤ◌}

pub record Monitor : Type 0 where
  pub requests : ℕ
  pub failures : ℕ
  pub prompt_tokens : ℤ
  pub completion_tokens : ℤ
  pub total_tokens : ℤ
  pub call_count : ℕ

abbrev pub new_monitor : Monitor
new_monitor = record {
  requests = 0;
  failures = 0;
  prompt_tokens = pos 0;
  completion_tokens = pos 0;
  total_tokens = pos 0;
  call_count = 0;
}

unfoldable pub record_request : Bool → Monitor → Monitor
record_request success m = record m {
  requests = suc m.requests;
  failures = if success then m.failures else suc m.failures;
}

unfoldable pub record_tokens : (prompt completion total : ℤ) → Monitor → Monitor
record_tokens prompt completion total m = record m {
  prompt_tokens = m.prompt_tokens +ℤ prompt;
  completion_tokens = m.completion_tokens +ℤ completion;
  total_tokens = m.total_tokens +ℤ total;
}

unfoldable pub record_latency : Monitor → Monitor
record_latency m = record m { call_count = suc m.call_count }

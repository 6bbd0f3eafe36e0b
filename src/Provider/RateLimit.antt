-- ===== src/Provider/RateLimit.antt =====
-- pkg/provider/openai/rate_limiter.go. A time is a count of nanoseconds. The mutex makes a call one
-- step; the clock reads the same time throughout a call that does not wait.
pub mod Ledger
pub mod Within
use skylark.Base.{ℕ, if◌then◌else◌, ◌+◌, Result, ltb, ◌-◌, err, ok}
use skylark.Base.Int.{ℤ, pos, ◌-ℤ◌, leb_ℤ, ltb_ℤ, ◌+ℤ◌}

pub record RateLimitConfig : Type 0 where
  pub requests_per_minute : ℤ
  pub tokens_per_minute : ℤ

pub record TokenBucketLimiter : Type 0 where
  pub config : RateLimitConfig
  pub request_tokens : ℤ
  pub token_tokens : ℤ
  pub last_reset : ℕ

pub data LimitError : Type 0 where
  cancelled : LimitError
  token_limit_exceeded : (used limit : ℤ) → LimitError

-- What the select comes to: the context is done, or the timer fires, so many nanoseconds late.
pub data Wake : Type 0 where
  done : Wake
  fires : ℕ → Wake

abbrev pub minute : ℕ
minute = 60000000000

unfoldable pub new_rate_limiter : RateLimitConfig → ℕ → TokenBucketLimiter
new_rate_limiter config now = record {
  config = config;
  request_tokens = config.requests_per_minute;
  token_tokens = config.tokens_per_minute;
  last_reset = now;
}

-- The three assignments of a reset.
unfoldable pub reset : ℕ → TokenBucketLimiter → TokenBucketLimiter
reset now r = record r {
  request_tokens = r.config.requests_per_minute;
  token_tokens = r.config.tokens_per_minute;
  last_reset = now;
}

-- A reset, if more than a minute has passed.
unfoldable pub refresh : ℕ → TokenBucketLimiter → TokenBucketLimiter
unfolding reset
refresh now r = if ltb (r.last_reset + minute) now then reset now r else r

unfoldable pub use_request : TokenBucketLimiter → TokenBucketLimiter
use_request r = record r { request_tokens = r.request_tokens -ℤ pos 1 }

-- `waitTime`, which is not negative once `refresh` has run
unfoldable pub wait_time : ℕ → TokenBucketLimiter → ℕ
wait_time now r = r.last_reset + minute - now

-- The check of the request limit, and what follows it.
unfoldable pub take_request :
    ℕ → Wake → TokenBucketLimiter → Result LimitError (Unit {0}) × TokenBucketLimiter
unfolding reset use_request wait_time
take_request now wake r =
    if leb_ℤ r.request_tokens (pos 0)
    then elim wake [
      | done ↦ (err cancelled, r)
      | fires late ↦ (ok tt, use_request (reset (now + wait_time now r + late) r))
    ]
    else (ok tt, use_request r)

unfoldable pub wait :
    ℕ → Wake → TokenBucketLimiter → Result LimitError (Unit {0}) × TokenBucketLimiter
unfolding refresh take_request
wait now wake r = take_request now wake (refresh now r)

-- The check of the token limit, and what follows it.
unfoldable pub spend_tokens :
    ℤ → TokenBucketLimiter → Result LimitError (Unit {0}) × TokenBucketLimiter
spend_tokens count r =
    if ltb_ℤ r.token_tokens count
    then (
      err (
          token_limit_exceeded (r.config.tokens_per_minute -ℤ r.token_tokens +ℤ count)
            r.config.tokens_per_minute),
      r,
    )
    else (ok tt, record r { token_tokens = r.token_tokens -ℤ count })

unfoldable pub add_tokens :
    ℕ → ℤ → TokenBucketLimiter → Result LimitError (Unit {0}) × TokenBucketLimiter
unfolding refresh spend_tokens
add_tokens now count r = spend_tokens count (refresh now r)

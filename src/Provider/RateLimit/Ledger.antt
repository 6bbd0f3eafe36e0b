-- ===== src/Provider/RateLimit/Ledger.antt =====
-- What the rate limiter of pkg/provider/openai/rate_limiter.go lets through between two resets.
use skylark.Base.Int.{ℤ, pos, ◌≤ℤ◌, ◌+ℤ◌, neg_part, pos_part, ◌-ℤ◌, eq_of_parts, +ℤ_parts, -ℤ_parts}
use skylark.Base.{
  if◌then◌else◌, [], ◌==◌, false, ℕ_eq, ==_refl, ℕ, Result, List, ◌∷◌, ◌≡◌, ok, err, ==_refl, ◌∙◌,
  ◌+◌, arith, ap, ◌≤◌, refl,
}
use skylark.Provider.RateLimit.{
  TokenBucketLimiter, wait, RateLimitConfig, Wake, LimitError, add_tokens, new_rate_limiter,
}
use mathlib.Core.Bool.{false}

pub data Event : Type 0 where
  waits : (now : ℕ) → Wake → Event
  spends : (now : ℕ) → (count : ℤ) → Event

-- A limiter, with the requests and the tokens that it has let through since its last reset.
pub record Ledger : Type 0 where
  pub limiter : TokenBucketLimiter
  pub requests : ℕ
  pub tokens : ℤ

-- A call that let through some requests and tokens. It has reset the limiter if the time of the last
-- reset is another one.
unfoldable pub note : Ledger → TokenBucketLimiter → ℕ → ℤ → Ledger
note l after requests tokens =
    if after.last_reset == l.limiter.last_reset
    then record { limiter = after; requests = l.requests + requests; tokens = l.tokens +ℤ tokens }
    else record { limiter = after; requests = requests; tokens = tokens }

unfoldable pub note_wait : Ledger → Result LimitError (Unit {0}) × TokenBucketLimiter → Ledger
note_wait l (ok _, after) = note l after 1 (pos 0)
note_wait l (err _, after) = note l after 0 (pos 0)

unfoldable pub note_tokens : ℤ → Ledger → Result LimitError (Unit {0}) × TokenBucketLimiter → Ledger
note_tokens count l (ok _, after) = note l after 0 count
note_tokens count l (err _, after) = note l after 0 (pos 0)

unfoldable pub call : Event → Ledger → Ledger
call (waits now wake) l = note_wait l (wait now wake l.limiter)
call (spends now count) l = note_tokens count l (add_tokens now count l.limiter)

unfoldable pub call_all : List Event → Ledger → Ledger
call_all [] l = l
call_all (e ∷ es) l = call_all es (call e l)

abbrev pub opened : RateLimitConfig → ℕ → Ledger
opened config now = record { limiter = new_rate_limiter config now; requests = 0; tokens = pos 0 }

-- What is let through and what is left make up the limit, and nothing is overdrawn.
pub record IsBalanced (config : RateLimitConfig) (l : Ledger) : Type 0 where
  pub same_config : l.limiter.config ≡ config
  pub requests_sum : l.limiter.request_tokens +ℤ pos l.requests ≡ config.requests_per_minute
  pub tokens_sum : l.limiter.token_tokens +ℤ l.tokens ≡ config.tokens_per_minute
  pub requests_left : pos 0 ≤ℤ l.limiter.request_tokens
  pub tokens_left : pos 0 ≤ℤ l.limiter.token_tokens

abbrev pub requests_up : RateLimitConfig → ℕ
requests_up c = pos_part c.requests_per_minute

abbrev pub requests_down : RateLimitConfig → ℕ
requests_down c = neg_part c.requests_per_minute

abbrev pub tokens_up : RateLimitConfig → ℕ
tokens_up c = pos_part c.tokens_per_minute

abbrev pub tokens_down : RateLimitConfig → ℕ
tokens_down c = neg_part c.tokens_per_minute

module _ (config : RateLimitConfig) (some_request : pos 1 ≤ℤ config.requests_per_minute)
    (some_tokens : pos 0 ≤ℤ config.tokens_per_minute) where
  pub kept-IsBalanced :
      (l : Ledger) (after : TokenBucketLimiter) (requests : ℕ) (tokens : ℤ)
      → IsBalanced config l
      → after.last_reset ≡ l.limiter.last_reset
      → after.config ≡ l.limiter.config
      → after.request_tokens +ℤ pos requests ≡ l.limiter.request_tokens
      → after.token_tokens +ℤ tokens ≡ l.limiter.token_tokens
      → pos 0 ≤ℤ after.request_tokens
      → pos 0 ≤ℤ after.token_tokens
      → IsBalanced config (note l after requests tokens)
  unfolding note
  kept-IsBalanced l after requests tokens b t c hr ht nr nt =
      rw (t, ==_refl l.limiter.last_reset)
        (record {
          same_config = c ∙ b.same_config;
          requests_sum = eq_of_parts _ _ (
              omega (
                arith,
                +ℤ_parts,
                ap pos_part b.requests_sum,
                ap neg_part b.requests_sum,
                ap pos_part hr,
                ap neg_part hr,
              ));
          tokens_sum = eq_of_parts _ _ (
              omega (
                arith,
                +ℤ_parts,
                ap pos_part b.tokens_sum,
                ap neg_part b.tokens_sum,
                ap pos_part ht,
                ap neg_part ht,
              ));
          requests_left = nr;
          tokens_left = nt;
        })

  renewed-IsBalanced :
      (l : Ledger) (after : TokenBucketLimiter) (requests : ℕ) (tokens : ℤ)
      → (after.last_reset == l.limiter.last_reset) ≡ false
      → after.config ≡ config
      → after.request_tokens +ℤ pos requests ≡ config.requests_per_minute
      → after.token_tokens +ℤ tokens ≡ config.tokens_per_minute
      → pos 0 ≤ℤ after.request_tokens
      → pos 0 ≤ℤ after.token_tokens
      → IsBalanced config (note l after requests tokens)
  unfolding note
  renewed-IsBalanced l after requests tokens t c hr ht nr nt = rw t (record {
    same_config = c;
    requests_sum = hr;
    tokens_sum = ht;
    requests_left = nr;
    tokens_left = nt;
  })

  -- A limiter that has just been reset, with a request taken or none, or tokens or none.
  pub reset-IsBalanced :
      (l : Ledger) (time requests : ℕ) (tokens left : ℤ)
      → IsBalanced config l
      → (time == l.limiter.last_reset) ≡ false
      → requests ≤ 1
      → left +ℤ tokens ≡ config.tokens_per_minute
      → pos 0 ≤ℤ left
      → IsBalanced config (
          note l
            (record {
              config = l.limiter.config;
              request_tokens = l.limiter.config.requests_per_minute -ℤ pos requests;
              token_tokens = left;
              last_reset = time;
            })
            requests
            tokens)
  reset-IsBalanced l time requests tokens left b t r h n =
      renewed-IsBalanced l _ requests tokens t b.same_config
        (eq_of_parts _ _ (
          omega (
            arith,
            +ℤ_parts,
            -ℤ_parts,
            ap requests_up b.same_config,
            ap requests_down b.same_config,
          )))
        h (omega (arith, -ℤ_parts, ap requests_up b.same_config, ap requests_down b.same_config)) n

  pub same-IsBalanced :
      (l : Ledger) → IsBalanced config l → IsBalanced config (note l l.limiter 0 (pos 0))
  same-IsBalanced l b =
      kept-IsBalanced l l.limiter 0 (pos 0) b refl refl (eq_of_parts _ _ (omega (arith, +ℤ_parts)))
        (eq_of_parts _ _ (omega (arith, +ℤ_parts))) b.requests_left b.tokens_left

  pub reset_tokens-IsBalanced :
      (l : Ledger) (time : ℕ) (tokens left : ℤ)
      → IsBalanced config l
      → (time == l.limiter.last_reset) ≡ false
      → left +ℤ tokens ≡ config.tokens_per_minute
      → pos 0 ≤ℤ left
      → IsBalanced config (
          note l
            (record {
              config = l.limiter.config;
              request_tokens = l.limiter.config.requests_per_minute;
              token_tokens = left;
              last_reset = time;
            })
            0
            tokens)
  reset_tokens-IsBalanced l time tokens left b t h n =
      renewed-IsBalanced l _ 0 tokens t b.same_config
        (eq_of_parts _ _
          (omega (arith, +ℤ_parts, ap requests_up b.same_config, ap requests_down b.same_config)))
        h (omega (arith, ap requests_up b.same_config, ap requests_down b.same_config)) n

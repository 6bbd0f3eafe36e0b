-- ===== src/Provider/RateLimit/Within.antt =====
-- The limits of the rate limiter of pkg/provider/openai/rate_limiter.go hold between two resets.
use skylark.Base.{
  ℕ, ◌+◌, ◌-◌, ◌≡◌, refl, ap, sym, subst, true, false, List, [], ◌∷◌, arith, ltb, ℕ_eq, Bool-cases,
  inl, inr,
}
use skylark.Base.Int.{
  ℤ, pos, pos_part, neg_part, ◌≤ℤ◌, leb_ℤ, ltb_ℤ, +ℤ_parts, -ℤ_parts, eq_of_parts,
}
use skylark.Provider.RateLimit.{
  RateLimitConfig, TokenBucketLimiter, Wake, done, fires, minute, reset, refresh, wait, wait_time,
  take_request, use_request, spend_tokens, add_tokens, new_rate_limiter,
}
use skylark.Provider.RateLimit.Ledger.{
  Ledger, Event, waits, spends, note_wait, note_tokens, call, call_all, opened, IsBalanced,
  requests_up, requests_down, tokens_up, tokens_down, kept-IsBalanced, reset-IsBalanced,
  same-IsBalanced, reset_tokens-IsBalanced,
}

refresh_due :
    (now : ℕ) (r : TokenBucketLimiter)
    → ltb (r.last_reset + minute) now ≡ true
    → refresh now r ≡ reset now r
unfolding refresh
refresh_due now r k = rw k refl

refresh_early :
    (now : ℕ) (r : TokenBucketLimiter) → ltb (r.last_reset + minute) now ≡ false → refresh now r ≡ r
unfolding refresh
refresh_early now r k = rw k refl

module _ (config : RateLimitConfig) (some_request : pos 1 ≤ℤ config.requests_per_minute)
    (some_tokens : pos 0 ≤ℤ config.tokens_per_minute) where
  granted-IsBalanced :
      (l : Ledger) (now : ℕ) (wake : Wake)
      → IsBalanced config l
      → leb_ℤ l.limiter.request_tokens (pos 0) ≡ false
      → IsBalanced config (note_wait l (take_request now wake l.limiter))
  unfolding note_wait take_request use_request
  granted-IsBalanced l now wake b e = rw e (
      kept-IsBalanced config some_request some_tokens l (use_request l.limiter) 1 (pos 0) b refl
        refl (eq_of_parts _ _ (omega (arith, +ℤ_parts, -ℤ_parts)))
        (eq_of_parts _ _ (omega (arith, +ℤ_parts)))
        (ground (arith, -ℤ_parts l.limiter.request_tokens (pos 1))) b.tokens_left)

  waited-IsBalanced :
      (l : Ledger) (now : ℕ) (wake : Wake)
      → IsBalanced config l
      → ltb (l.limiter.last_reset + minute) now ≡ false
      → leb_ℤ l.limiter.request_tokens (pos 0) ≡ true
      → IsBalanced config (note_wait l (take_request now wake l.limiter))
  unfolding note_wait take_request use_request reset wait_time
  waited-IsBalanced l now done b k e = rw e (same-IsBalanced config some_request some_tokens l b)
  waited-IsBalanced l now (fires late) b k e = rw e (
      reset-IsBalanced config some_request some_tokens l
        (now + (l.limiter.last_reset + minute - now) + late) 1 (pos 0)
        l.limiter.config.tokens_per_minute b (ground arith) (omega arith)
        (eq_of_parts _ _
          (omega (arith, +ℤ_parts, ap tokens_up b.same_config, ap tokens_down b.same_config)))
        (omega (arith, ap tokens_up b.same_config, ap tokens_down b.same_config)))

  -- A minute has passed, and the reset leaves a request to take.
  fresh_request-IsBalanced :
      (l : Ledger) (now : ℕ) (wake : Wake)
      → IsBalanced config l
      → ltb (l.limiter.last_reset + minute) now ≡ true
      → IsBalanced config (note_wait l (take_request now wake (reset now l.limiter)))
  unfolding note_wait take_request use_request reset
  fresh_request-IsBalanced l now wake b k = rw left (
      reset-IsBalanced config some_request some_tokens l now 1 (pos 0)
        l.limiter.config.tokens_per_minute b (ground arith) (omega arith)
        (eq_of_parts _ _
          (omega (arith, +ℤ_parts, ap tokens_up b.same_config, ap tokens_down b.same_config)))
        (omega (arith, ap tokens_up b.same_config, ap tokens_down b.same_config)))
    where
      left : leb_ℤ l.limiter.config.requests_per_minute (pos 0) ≡ false
      left = ground (arith, ap requests_up b.same_config, ap requests_down b.same_config)

  wait-IsBalanced :
      (l : Ledger) (now : ℕ) (wake : Wake)
      → IsBalanced config l
      → IsBalanced config (note_wait l (wait now wake l.limiter))
  unfolding wait
  wait-IsBalanced l now wake b = elim (Bool-cases (ltb (l.limiter.last_reset + minute) now)) [
    | inl k ↦
        subst balanced (sym (refresh_due now l.limiter k)) (fresh_request-IsBalanced l now wake b k)
    | inr k ↦
        subst balanced (sym (refresh_early now l.limiter k))
          (elim (Bool-cases (leb_ℤ l.limiter.request_tokens (pos 0))) [
            | inl e ↦ waited-IsBalanced l now wake b k e
            | inr e ↦ granted-IsBalanced l now wake b e
          ])
  ]
    where
      balanced : TokenBucketLimiter → Type 0
      balanced r = IsBalanced config (note_wait l (take_request now wake r))

  spend_tokens-IsBalanced :
      (l : Ledger) (count : ℤ)
      → IsBalanced config l
      → IsBalanced config (note_tokens count l (spend_tokens count l.limiter))
  unfolding note_tokens spend_tokens
  spend_tokens-IsBalanced l count b = elim (Bool-cases (ltb_ℤ l.limiter.token_tokens count)) [
    | inl e ↦ rw e (same-IsBalanced config some_request some_tokens l b)
    | inr e ↦ rw e (
        kept-IsBalanced config some_request some_tokens l _ 0 count b refl refl
          (eq_of_parts _ _ (omega (arith, +ℤ_parts)))
          (eq_of_parts _ _ (omega (arith, +ℤ_parts, -ℤ_parts))) b.requests_left
          (ground (arith, -ℤ_parts l.limiter.token_tokens count)))
  ]

  fresh_tokens-IsBalanced :
      (l : Ledger) (now : ℕ) (count : ℤ)
      → IsBalanced config l
      → ltb (l.limiter.last_reset + minute) now ≡ true
      → IsBalanced config (note_tokens count l (spend_tokens count (reset now l.limiter)))
  unfolding note_tokens spend_tokens reset
  fresh_tokens-IsBalanced l now count b k =
      elim (Bool-cases (ltb_ℤ l.limiter.config.tokens_per_minute count)) [
        | inl e ↦ rw e (
            reset_tokens-IsBalanced config some_request some_tokens l now (pos 0)
              l.limiter.config.tokens_per_minute b (ground arith)
              (eq_of_parts _ _
                (omega (arith, +ℤ_parts, ap tokens_up b.same_config, ap tokens_down b.same_config)))
              (omega (arith, ap tokens_up b.same_config, ap tokens_down b.same_config)))
        | inr e ↦ rw e (
            reset_tokens-IsBalanced config some_request some_tokens l now count _ b (ground arith)
              (eq_of_parts _ _ (
                omega (
                  arith,
                  +ℤ_parts,
                  -ℤ_parts,
                  ap tokens_up b.same_config,
                  ap tokens_down b.same_config,
                )))
              (ground (arith, -ℤ_parts l.limiter.config.tokens_per_minute count)))
      ]

  call-IsBalanced : (e : Event) (l : Ledger) → IsBalanced config l → IsBalanced config (call e l)
  unfolding call add_tokens
  call-IsBalanced (waits now wake) l b = wait-IsBalanced l now wake b
  call-IsBalanced (spends now count) l b =
      elim (Bool-cases (ltb (l.limiter.last_reset + minute) now)) [
        | inl k ↦ rw (refresh_due now l.limiter k) (fresh_tokens-IsBalanced l now count b k)
        | inr k ↦ rw (refresh_early now l.limiter k) (spend_tokens-IsBalanced l count b)
      ]

  call_all-IsBalanced :
      (es : List Event) (l : Ledger) → IsBalanced config l → IsBalanced config (call_all es l)
  unfolding call_all
  call_all-IsBalanced [] l b = b
  call_all-IsBalanced (e ∷ es) l b = call_all-IsBalanced es (call e l) (call-IsBalanced e l b)

  opened-IsBalanced : (now : ℕ) → IsBalanced config (opened config now)
  unfolding new_rate_limiter
  opened-IsBalanced now = record {
    same_config = refl;
    requests_sum = eq_of_parts _ _ (omega (arith, +ℤ_parts));
    tokens_sum = eq_of_parts _ _ (omega (arith, +ℤ_parts));
    requests_left = omega arith;
    tokens_left = some_tokens;
  }

-- Whatever the calls are, and whenever they are made, no more requests and tokens are let through
-- between two resets than the limits allow, if these allow a request and are not negative.
pub call_all_within_limits :
    (config : RateLimitConfig) (now : ℕ) (calls : List Event)
    → pos 1 ≤ℤ config.requests_per_minute
    → pos 0 ≤ℤ config.tokens_per_minute
    → (pos (call_all calls (opened config now)).requests ≤ℤ config.requests_per_minute)
      × ((call_all calls (opened config now)).tokens ≤ℤ config.tokens_per_minute)
call_all_within_limits config now calls r t =
    let b =
      call_all-IsBalanced config r t calls (opened config now) (opened-IsBalanced config r t now) in
    (
      omega (
        arith,
        +ℤ_parts,
        ap pos_part b.requests_sum,
        ap neg_part b.requests_sum,
        b.requests_left,
      ),
      omega (arith, +ℤ_parts, ap pos_part b.tokens_sum, ap neg_part b.tokens_sum, b.tokens_left),
    )

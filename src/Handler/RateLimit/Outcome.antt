-- ===== src/Handler/RateLimit/Outcome.antt =====
-- What the middleware answers.
use mathlib.Core.Option.{some-injective, none-ne-some, some-ne-none}
use speedtest_go.Base.{
  ℕ, ◌+◌, ◌*◌, ◌≤◌, ◌<◌, ◌≡◌, ◌⊎◌, ◌↔◌, refl, ap, sym, true, false, Option, none, some, [], ◌∷◌,
  str, arith, Bool-cases, inl, inr,
}
use speedtest_go.Base.Int.{pos}
use speedtest_go.Golang.Strconv.{itoa}
use speedtest_go.Handler.ClientIp.{client_ip}
use speedtest_go.Handler.Http.{Request, Reply, Failure}
use speedtest_go.Handler.RateLimit.{
  Rate, RateLimiter, is_scoped, allow, retry_seconds, too_many, decided, rate_limit,
}

-- The least number of whole seconds, and at least one, that covers the wait.
abbrev pub Covers : ℕ → ℕ → Type 0
Covers wait secs =
    ((1 ≤ secs) × (wait ≤ secs * 1_000_000_000))
    × ((secs ≡ 1) ⊎ (secs * 1_000_000_000 < wait + 1_000_000_000))

retry_seconds-Covers : (wait : ℕ) → Covers wait (retry_seconds wait)
unfolding retry_seconds
retry_seconds-Covers wait = ground arith

module _ (rate : Rate) where
  decided_lem :
      (x : Option ℕ × RateLimiter rate) (reply : Reply Failure) (rl' : Option (RateLimiter rate))
      → decided rate x ≡ (some reply, rl')
      → (wait : ℕ) × (x.0 ≡ some wait) × (too_many wait ≡ reply)
  unfolding decided
  decided_lem (none, rl) reply rl' h = absurd (none-ne-some reply (ap (λ t. t.0) h))
  decided_lem (some wait, rl) reply rl' h =
      (wait, refl, some-injective (too_many wait) reply (ap (λ t. t.0) h))

  -- A request is turned away only at one of the three speed-test endpoints and only if the bucket of
  -- the address that `ClientIP` gives it asks for a wait. The reply is then 429, and its Retry-After is the least number of
  -- whole seconds, and at least one, that covers the wait.
  pub rate_limit-denied :
      (rl : RateLimiter rate) (r : Request) (now : ℕ) (reply : Reply Failure)
      (rl' : Option (RateLimiter rate))
      → rate_limit rate (some rl) r now ≡ (some reply, rl')
      → (is_scoped r.path ≡ true)
        × ((wait : ℕ) × ((allow rate rl (client_ip r) now).0 ≡ some wait)
            × (reply.status ≡ 429)
            × ((secs : ℕ) × (reply.headers
                  ≡ ("Retry-After", itoa (pos secs))
                    ∷ ("Content-Type", str "application/json")
                    ∷ [])
                × Covers wait secs))
  unfolding rate_limit too_many
  rate_limit-denied rl r now reply rl' h = elim (Bool-cases (is_scoped r.path)) [
    | inl scoped ↦
        let (wait, asked, same) =
          decided_lem (allow rate rl (client_ip r) now) reply rl' (rw scoped at h) in
        (
          scoped,
          (
            wait,
            asked,
            sym (ap (λ t. t.status) same),
            (retry_seconds wait, sym (ap (λ t. t.headers) same), retry_seconds-Covers wait),
          ),
        )
    | inr exempt ↦
        let passed : none ≡ some reply = ap (λ t. t.0) (rw exempt at h) in
        absurd (none-ne-some reply passed)
  ]

  decided-none : (x : Option ℕ × RateLimiter rate) → ((decided rate x).0 ≡ none) ↔ (x.0 ≡ none)
  unfolding decided
  decided-none (none, rl) = (λ h. refl, λ h. refl)
  decided-none (some wait, rl) =
      (λ h. absurd (some-ne-none (too_many wait) h), λ h. absurd (some-ne-none wait h))

  -- What the middleware lets through.
  pub rate_limit-passed :
      (rl : RateLimiter rate) (r : Request) (now : ℕ)
      → is_scoped r.path ≡ true
      → ((rate_limit rate (some rl) r now).0 ≡ none) ↔ ((allow rate rl (client_ip r) now).0 ≡ none)
  unfolding rate_limit
  rate_limit-passed rl r now h = rw h (decided-none (allow rate rl (client_ip r) now))

  pub rate_limit-exempt :
      (rl : RateLimiter rate) (r : Request) (now : ℕ)
      → is_scoped r.path ≡ false
      → rate_limit rate (some rl) r now ≡ (none, some rl)
  unfolding rate_limit
  rate_limit-exempt rl r now h = rw (rate_limit, h) refl

  decided-refused :
      (x : Option ℕ × RateLimiter rate) (wait : ℕ)
      → x.0 ≡ some wait
      → decided rate x ≡ (some (too_many wait), some x.1)
  unfolding decided
  decided-refused (none, rl) wait h = absurd (none-ne-some wait h)
  decided-refused (some w, rl) wait h =
      ap (λ t. (some (too_many t), some rl)) (some-injective w wait h)

  -- What it turns away.
  pub rate_limit-refused :
      (rl : RateLimiter rate) (r : Request) (now wait : ℕ)
      → is_scoped r.path ≡ true
      → (allow rate rl (client_ip r) now).0 ≡ some wait
      → rate_limit rate (some rl) r now
        ≡ (some (too_many wait), some (allow rate rl (client_ip r) now).1)
  unfolding rate_limit
  rate_limit-refused rl r now wait scoped h =
      rw (rate_limit, scoped) (decided-refused (allow rate rl (client_ip r) now) wait h)

-- ===== src/Handler/RateLimit.antt =====
-- internal/handler/ratelimit_handler.go: the limiter for each address and the middleware before the
-- speed-test endpoints, over the token bucket that it calls.
pub mod Isolation
pub mod Sweeps
pub mod Outcome
use Prim.Native.String.{String}
use speedtest_go.Base.{
  ℕ, zero, suc, ◌+◌, ◌/◌, ◌*◌, Bool, true, false, ◌||◌, not, Option, none, some, List, [], ◌∷◌, Str,
  str, str_eq, if◌then◌else◌, ltb,
}
use speedtest_go.Base.Int.{ℤ, pos, pos_part, leb_ℤ}
use speedtest_go.Golang.Strconv.{itoa}
use speedtest_go.Handler.ClientIp.{client_ip}
use speedtest_go.Handler.Http.{Request, Reply, Body, Failure, envelope, failure}

-- golang.org/x/time/rate: a bucket is asked for a token at a time. The reservation is not OK if the
-- burst is exceeded, and else names the delay after which it may act; it can be cancelled.
pub record Rate : Type 1 where
  pub Limiter : Type 0
  pub Reservation : Type 0
  -- `rate.NewLimiter(perMin / 60, burst)`
  pub new_limiter : (per_min burst : ℤ) → Limiter
  -- `ReserveN(now, 1)`
  pub reserve : Limiter → (now : ℕ) → Reservation × Limiter
  pub ok : Reservation → Bool
  -- `DelayFrom(now)`, in nanoseconds
  pub delay_from : Reservation → (now : ℕ) → ℕ
  -- `CancelAt(now)`, which acts on the limiter of the reservation
  pub cancel_at : Reservation → (now : ℕ) → Limiter → Limiter

-- A map by address; an address without an entry has none.
abbrev pub Map : Type 0 → Type 0
Map V = Str → Option V

unfoldable pub put : {V : Type 0} → Str → V → Map V → Map V
put k v m k' = if str_eq k k' then some v else m k'

-- A minute and a quarter of an hour, in nanoseconds.
abbrev pub ratelimit_idle_ttl : ℕ
ratelimit_idle_ttl = 900_000_000_000

unfoldable pub is_scoped : Str → Bool
is_scoped path =
    str_eq path (str "/api/download")
    || str_eq path (str "/api/upload")
    || str_eq path (str "/api/ping")

module _ (rate : Rate) where
  -- Times are in nanoseconds; `stopped` says whether `done` is closed.
  pub record RateLimiter : Type 0 where
    pub rate_per_min : ℤ
    pub limiters : Map rate.Limiter
    pub last_seen : Map ℕ
    pub stopped : Bool

  unfoldable pub new_rate_limiter : ℤ → Option RateLimiter
  new_rate_limiter rate_per_min =
      if leb_ℤ rate_per_min (pos 0)
      then none
      else some (record {
        rate_per_min = rate_per_min;
        limiters = λ ip. none;
        last_seen = λ ip. none;
        stopped = false;
      })

  unfoldable pub stop : RateLimiter → RateLimiter
  stop rl = record rl { stopped = true }

  -- `seen.Before(now.Add(-ttl))`, for an address that was seen
  unfoldable pub is_idle : Option ℕ → (now ttl : ℕ) → Bool
  is_idle none now ttl = false
  is_idle (some seen) now ttl = ltb (seen + ttl) now

  -- The loop deletes the idle addresses from both maps, in any order.
  unfoldable pub gc : RateLimiter → (now ttl : ℕ) → RateLimiter
  unfolding is_idle
  gc rl now ttl = record rl {
    limiters = λ ip. if is_idle (rl.last_seen ip) now ttl then none else rl.limiters ip;
    last_seen = λ ip. if is_idle (rl.last_seen ip) now ttl then none else rl.last_seen ip;
  }

  -- A tick of `gcLoop`, which returns once `done` is closed. A tick that is ready together with
  -- `done` may still sweep: that is a tick before the stop, which has no other effect.
  unfoldable pub gc_tick : RateLimiter → (now ttl : ℕ) → RateLimiter
  unfolding gc
  gc_tick rl now ttl = if rl.stopped then rl else gc rl now ttl

  fresh_or : Option rate.Limiter → ℤ → rate.Limiter
  fresh_or none rate_per_min = rate.new_limiter rate_per_min rate_per_min
  fresh_or (some lim) rate_per_min = lim

  unfoldable pub limiter_for : RateLimiter → Str → (now : ℕ) → rate.Limiter × RateLimiter
  unfolding fresh_or put
  limiter_for rl ip now =
      let lim = fresh_or (rl.limiters ip) rl.rate_per_min in
      (lim, record rl { limiters = put ip lim rl.limiters; last_seen = put ip now rl.last_seen })

  -- What the bucket says: none if the request may proceed, and else the time to wait.
  unfoldable pub ask : rate.Limiter → (now : ℕ) → Option ℕ × rate.Limiter
  ask lim now =
      let (res, taken) = rate.reserve lim now in
      if not (rate.ok res)
      then (some 1_000_000_000, taken)
      else if ltb 0 (rate.delay_from res now)
      then (some (rate.delay_from res now), rate.cancel_at res now taken)
      else (none, taken)

  -- `allow`, whose limiter is shared with the map.
  unfoldable pub allow : RateLimiter → Str → (now : ℕ) → Option ℕ × RateLimiter
  unfolding limiter_for ask put
  allow rl ip now =
      let (lim, rl') = limiter_for rl ip now in
      let (wait, lim') = ask lim now in (wait, record rl' { limiters = put ip lim' rl'.limiters })

-- `int(math.Ceil(retryAfter.Seconds()))`, at least 1; the quotient is exact enough in float64 up to 40
-- days, and a bucket never asks for more than a minute.
unfoldable pub retry_seconds : ℕ → ℕ
retry_seconds wait =
    let secs = (wait + 999_999_999) / 1_000_000_000 in if ltb secs 1 then 1 else secs

unfoldable pub too_many : ℕ → Reply Failure
unfolding retry_seconds
too_many wait = record {
  status = 429;
  headers =
      ("Retry-After", itoa (pos (retry_seconds wait)))
      ∷ ("Content-Type", str "application/json")
      ∷ [];
  body = envelope (str "rate limit exceeded");
}

module _ (rate : Rate) where
  decided : Option ℕ × RateLimiter rate → Option (Reply Failure) × Option (RateLimiter rate)
  unfolding too_many
  decided (none, rl) = (none, some rl)
  decided (some wait, rl) = (some (too_many wait), some rl)

  -- The middleware: none where it calls the next handler, and else its own reply.
  unfoldable pub rate_limit :
      Option (RateLimiter rate)
      → Request
      → (now : ℕ) → Option (Reply Failure) × Option (RateLimiter rate)
  unfolding decided is_scoped client_ip
  rate_limit none r now = (none, none)
  rate_limit (some rl) r now =
      if not (is_scoped r.path) then (none, some rl) else decided (allow rate rl (client_ip r) now)

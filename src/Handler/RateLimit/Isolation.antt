-- ===== src/Handler/RateLimit/Isolation.antt =====
-- What one address may rely on: the requests of others do not count against it, its bucket is kept
-- while it is in use, and idle addresses are forgotten.
use speedtest_go.Base.{
  ℕ, ◌≡◌, refl, sym, subst, Bool, true, false, none, some, List, [], ◌∷◌, Str, str_eq, str_eq_refl,
  str_eq_sound, if◌then◌else◌, Bool-cases, inl, inr,
}
use speedtest_go.Handler.RateLimit.{
  Rate, put, RateLimiter, stop, is_idle, gc, gc_tick, fresh_or, limiter_for, ask, allow,
}

pub data Op : Type 0 where
  request : (ip : Str) → (now : ℕ) → Op
  tick : (now ttl : ℕ) → Op
  stop_op : Op

-- The steps but for the requests of other addresses.
abbrev pub own : Str → List Op → List Op
own ip [] = []
own ip (request other now ∷ ops) =
    if str_eq other ip then request other now ∷ own ip ops else own ip ops
own ip (tick now ttl ∷ ops) = tick now ttl ∷ own ip ops
own ip (stop_op ∷ ops) = stop_op ∷ own ip ops

module _ (rate : Rate) where
  abbrev pub step : RateLimiter rate → Op → RateLimiter rate
  step rl (request ip now) = (allow rate rl ip now).1
  step rl (tick now ttl) = gc_tick rate rl now ttl
  step rl stop_op = stop rate rl

  abbrev pub run : RateLimiter rate → List Op → RateLimiter rate
  run rl [] = rl
  run rl (op ∷ ops) = run (step rl op) ops

  -- Two limiters that say the same of one address.
  record Agree (ip : Str) (a b : RateLimiter rate) : Type 0 where
    rate_per_min : a.rate_per_min ≡ b.rate_per_min
    limiters : a.limiters ip ≡ b.limiters ip
    last_seen : a.last_seen ip ≡ b.last_seen ip
    stopped : a.stopped ≡ b.stopped

  Agree-refl : (ip : Str) (a : RateLimiter rate) → Agree ip a a
  Agree-refl ip a = record {
    rate_per_min = refl;
    limiters = refl;
    last_seen = refl;
    stopped = refl;
  }

  Agree-other :
      (ip other : Str) (now : ℕ) (a b : RateLimiter rate)
      → str_eq other ip ≡ false
      → Agree ip a b
      → Agree ip (allow rate a other now).1 b
  unfolding allow limiter_for put
  Agree-other ip other now a b e h = record {
    rate_per_min = h.rate_per_min;
    limiters = rw e h.limiters;
    last_seen = rw e h.last_seen;
    stopped = h.stopped;
  }

  Agree-own :
      (ip : Str) (now : ℕ) (a b : RateLimiter rate)
      → Agree ip a b
      → ((allow rate a ip now).0 ≡ (allow rate b ip now).0)
        × Agree ip (allow rate a ip now).1 (allow rate b ip now).1
  unfolding allow limiter_for put
  Agree-own ip now a b h =
      let self = str_eq_refl ip in
      let same : ask rate (fresh_or rate (a.limiters ip) a.rate_per_min) now
          ≡ ask rate (fresh_or rate (b.limiters ip) b.rate_per_min) now =
        λ i. ask rate (fresh_or rate (h.limiters i) (h.rate_per_min i)) now in
      (
        (λ i. (same i).0),
        record {
          rate_per_min = h.rate_per_min;
          limiters = rw self (λ i. some (same i).1);
          last_seen = rw self refl;
          stopped = h.stopped;
        },
      )

  Agree-gc :
      (ip : Str) (now ttl : ℕ) (a b : RateLimiter rate)
      → Agree ip a b
      → Agree ip (gc rate a now ttl) (gc rate b now ttl)
  unfolding gc
  Agree-gc ip now ttl a b h = record {
    rate_per_min = h.rate_per_min;
    limiters = λ i. if is_idle rate (h.last_seen i) now ttl then none else h.limiters i;
    last_seen = λ i. if is_idle rate (h.last_seen i) now ttl then none else h.last_seen i;
    stopped = h.stopped;
  }

  Agree-if :
      (ip : Str) (s : Bool) (a b c d : RateLimiter rate)
      → Agree ip a b
      → Agree ip c d
      → Agree ip (if s then a else c) (if s then b else d)
  Agree-if ip true a b c d h k = h
  Agree-if ip false a b c d h k = k

  Agree-tick :
      (ip : Str) (now ttl : ℕ) (a b : RateLimiter rate)
      → Agree ip a b
      → Agree ip (gc_tick rate a now ttl) (gc_tick rate b now ttl)
  unfolding gc_tick
  Agree-tick ip now ttl a b h =
      let left = gc rate a now ttl in
      let right = gc rate b now ttl in
      subst (λ t. Agree ip (if a.stopped then a else left) (if t then b else right)) h.stopped
        (Agree-if ip a.stopped a b left right h (Agree-gc ip now ttl a b h))

  Agree-stop :
      (ip : Str) (a b : RateLimiter rate) → Agree ip a b → Agree ip (stop rate a) (stop rate b)
  unfolding stop
  Agree-stop ip a b h = record {
    rate_per_min = h.rate_per_min;
    limiters = h.limiters;
    last_seen = h.last_seen;
    stopped = refl;
  }

  Agree-run :
      (ip : Str) (ops : List Op) (a b : RateLimiter rate)
      → Agree ip a b
      → Agree ip (run a ops) (run b (own ip ops))
  Agree-run ip [] a b h = h
  Agree-run ip (request other now ∷ ops) a b h = elim (Bool-cases (str_eq other ip)) [
    | inl mine ↦
        let next = λ (rl : RateLimiter rate). (allow rate rl other now).1 in
        rw mine (
          Agree-run ip ops (next a) (next b) (
            subst (λ x. Agree ip (allow rate a x now).1 (allow rate b x now).1)
              (sym (str_eq_sound other ip mine)) (Agree-own ip now a b h).1))
    | inr theirs ↦
        rw theirs
          (Agree-run ip ops (allow rate a other now).1 b (Agree-other ip other now a b theirs h))
  ]
  Agree-run ip (tick now ttl ∷ ops) a b h =
      Agree-run ip ops (gc_tick rate a now ttl) (gc_tick rate b now ttl)
        (Agree-tick ip now ttl a b h)
  Agree-run ip (stop_op ∷ ops) a b h =
      Agree-run ip ops (stop rate a) (stop rate b) (Agree-stop ip a b h)

  -- Whatever other addresses ask for in between, an address gets the answer that it would get alone.
  pub allow-own :
      (rl : RateLimiter rate) (ops : List Op) (ip : Str) (now : ℕ)
      → (allow rate (run rl ops) ip now).0 ≡ (allow rate (run rl (own ip ops)) ip now).0
  allow-own rl ops ip now =
      (Agree-own ip now (run rl ops) (run rl (own ip ops))
        (Agree-run ip ops rl rl (Agree-refl ip rl))).0

-- ===== src/Handler/RateLimit/Sweeps.antt =====
-- The sweeps of the limiter: an address is forgotten once it is idle, and not before.
use speedtest_go.Base.{
  ℕ, ◌+◌, ◌≤◌, ◌≡◌, ◌∙◌, refl, ap, sym, subst, Bool, true, false, Option, none, some, List, [], ◌∷◌,
  Str, str_eq, if◌then◌else◌, if_both, arith, Bool-cases, inl, inr,
}
use mathlib.Core.Option.{some-injective, none-ne-some}
use speedtest_go.Base.Int.{ℤ, pos, leb_ℤ}
use speedtest_go.Handler.RateLimit.{
  Rate, put, RateLimiter, new_rate_limiter, stop, is_idle, gc, gc_tick, limiter_for, allow,
}
use speedtest_go.Handler.RateLimit.Isolation.{Op, request, tick, stop_op, step, run}

abbrev pub is_some {ℓ} : {A : Type ℓ} → Option A → Bool
is_some none = false
is_some (some x) = true

if_false : {A : Type 0} (b : Bool) (x y : A) → b ≡ false → (if b then x else y) ≡ y
if_false true x y h = ground arith
if_false false x y h = refl

-- No request of the address, and no sweep after it has been idle for the time to live.
abbrev pub Quiet : Str → ℕ → List Op → Type 0
Quiet ip t [] = Unit {0}
Quiet ip t (request other now ∷ ops) = (str_eq other ip ≡ false) × Quiet ip t ops
Quiet ip t (tick now ttl ∷ ops) = (now ≤ t + ttl) × Quiet ip t ops
Quiet ip t (stop_op ∷ ops) = Quiet ip t ops

module _ (rate : Rate) where
  -- An address has a limiter exactly if the time of its last request is known.
  IsPaired : RateLimiter rate → Type 0
  IsPaired rl = (ip : Str) → is_some (rl.limiters ip) ≡ is_some (rl.last_seen ip)

  allow-IsPaired :
      (rl : RateLimiter rate) (ip : Str) (now : ℕ) → IsPaired rl → IsPaired (allow rate rl ip now).1
  unfolding allow limiter_for put IsPaired
  allow-IsPaired rl ip now h other = elim (Bool-cases (str_eq ip other)) [
    | inl hit ↦ rw hit refl
    | inr miss ↦ rw miss (h other)
  ]

  gc-IsPaired : (rl : RateLimiter rate) (now ttl : ℕ) → IsPaired rl → IsPaired (gc rate rl now ttl)
  unfolding gc IsPaired
  gc-IsPaired rl now ttl h other = elim (Bool-cases (is_idle rate (rl.last_seen other) now ttl)) [
    | inl hit ↦ rw hit refl
    | inr miss ↦ rw miss (h other)
  ]

  step-IsPaired : (rl : RateLimiter rate) (op : Op) → IsPaired rl → IsPaired (step rate rl op)
  unfolding gc_tick stop IsPaired
  step-IsPaired rl (request ip now) h = allow-IsPaired rl ip now h
  step-IsPaired rl (tick now ttl) h = elim (Bool-cases rl.stopped) [
    | inl hit ↦ rw hit h
    | inr miss ↦ rw miss (gc-IsPaired rl now ttl h)
  ]
  step-IsPaired rl stop_op h = h

  run-IsPaired : (rl : RateLimiter rate) (ops : List Op) → IsPaired rl → IsPaired (run rate rl ops)
  run-IsPaired rl [] h = h
  run-IsPaired rl (op ∷ ops) h = run-IsPaired (step rate rl op) ops (step-IsPaired rl op h)

  recent_seen :
      (seen : Option ℕ) (now ttl : ℕ)
      → is_some seen ≡ true
      → is_idle rate seen now ttl ≡ false
      → (t : ℕ) × (seen ≡ some t) × (now ≤ t + ttl)
  unfolding is_idle
  recent_seen none now ttl h awake = ground arith
  recent_seen (some t) now ttl h awake = (t, refl, ground arith)

  gc-recent :
      (rl : RateLimiter rate) (ip : Str) (now ttl : ℕ)
      → IsPaired rl
      → is_some ((gc rate rl now ttl).limiters ip) ≡ true
      → (t : ℕ) × (rl.last_seen ip ≡ some t)
        × (now ≤ t + ttl)
        × ((gc rate rl now ttl).limiters ip ≡ rl.limiters ip)
  unfolding gc IsPaired
  gc-recent rl ip now ttl paired h = elim (Bool-cases (is_idle rate (rl.last_seen ip) now ttl)) [
    | inl idle ↦ let gone : false ≡ true = rw idle at h in ground arith
    | inr awake ↦
        let (t, seen, recent) =
          recent_seen (rl.last_seen ip) now ttl (sym (paired ip) ∙ (rw awake at h)) awake in
        (t, seen, recent, rw awake refl)
  ]

  new_outcome :
      (b : Bool) (start rl : RateLimiter rate)
      → IsPaired start
      → (if b then none else some start) ≡ some rl
      → IsPaired rl
  new_outcome true start rl p e = absurd (none-ne-some rl e)
  new_outcome false start rl p e = subst IsPaired (some-injective start rl e) p

  new-IsPaired : (m : ℤ) (rl : RateLimiter rate) → new_rate_limiter rate m ≡ some rl → IsPaired rl
  unfolding new_rate_limiter IsPaired
  new-IsPaired m rl e = new_outcome (leb_ℤ m (pos 0)) _ rl (λ ip. refl) e

  -- After a sweep of a running limiter, whatever came before it, each address that still has a bucket
  -- was seen within the time to live, so that idle addresses take no memory; its bucket is the one
  -- that it had.
  pub gc_tick-recent :
      (m : ℤ) (rl : RateLimiter rate) (ops : List Op) (ip : Str) (now ttl : ℕ)
      → new_rate_limiter rate m ≡ some rl
      → (run rate rl ops).stopped ≡ false
      → is_some ((gc_tick rate (run rate rl ops) now ttl).limiters ip) ≡ true
      → (t : ℕ) × ((run rate rl ops).last_seen ip ≡ some t)
        × (now ≤ t + ttl)
        × ((gc_tick rate (run rate rl ops) now ttl).limiters ip ≡ (run rate rl ops).limiters ip)
  unfolding gc_tick
  gc_tick-recent m rl ops ip now ttl e running h =
      let last = run rate rl ops in
      let swept : gc_tick rate last now ttl ≡ gc rate last now ttl = if_false _ last _ running in
      let (t, seen, recent, same) =
        gc-recent last ip now ttl (run-IsPaired rl ops (new-IsPaired m rl e))
          (ap (λ s. is_some (s.limiters ip)) (sym swept) ∙ h) in
      (t, seen, recent, ap (λ s. s.limiters ip) swept ∙ same)

  kept_step :
      (rl : RateLimiter rate) (op : Op) (ops : List Op) (ip : Str) (t : ℕ)
      → Quiet ip t (op ∷ ops)
      → rl.last_seen ip ≡ some t
      → ((step rate rl op).limiters ip ≡ rl.limiters ip)
        × ((step rate rl op).last_seen ip ≡ some t)
        × Quiet ip t ops
  unfolding gc_tick gc stop allow limiter_for put is_idle
  kept_step rl (request other now) ops ip t q seen = rw (q.0) (refl, seen, q.1)
  kept_step rl (tick now ttl) ops ip t q seen =
      let awake : is_idle rate (rl.last_seen ip) now ttl ≡ false =
        ap (λ s. is_idle rate s now ttl) seen ∙ ground arith in
      if_both (λ s. (s.limiters ip ≡ rl.limiters ip) × (s.last_seen ip ≡ some t) × Quiet ip t ops)
        rl.stopped rl (gc rate rl now ttl) (refl, seen, q.1) (rw awake (refl, seen, q.1))
  kept_step rl stop_op ops ip t q seen = (refl, seen, q)

  -- An address keeps its bucket, and with it the tokens that it has spent, through the requests of
  -- others and through every sweep until it has been idle for the time to live.
  pub run-kept :
      (rl : RateLimiter rate) (ops : List Op) (ip : Str) (t : ℕ)
      → rl.last_seen ip ≡ some t
      → Quiet ip t ops
      → (run rate rl ops).limiters ip ≡ rl.limiters ip
  run-kept rl [] ip t seen q = refl
  run-kept rl (op ∷ ops) ip t seen q =
      let (same, seen', q') = kept_step rl op ops ip t q seen in
      run-kept (step rate rl op) ops ip t seen' q' ∙ same

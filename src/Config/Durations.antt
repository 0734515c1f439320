-- ===== src/Config/Durations.antt =====
-- The test duration: what a number of seconds becomes in an int64 of nanoseconds.
use Prim.Native.String.{String}
use speedtest_go.Base.{ℕ, ◌*◌, ◌^◌, [], ◌∷◌, ◌≤◌, ◌<◌, ◌≡◌, ◌∙◌, ap, some, Str, arith}
use speedtest_go.Base.Int.{ℤ, pos, ◌<ℤ◌, ◌*ℤ◌, wrap64}
use speedtest_go.Golang.Strconv.{atoi, itoa, atoi-itoa}
use speedtest_go.Config.{Config, seconds, set_duration}
use speedtest_go.Config.Env.{env_duration_over, overlay_env}

pub seconds_exact : (n : ℕ) → n ≤ 9_223_372_036 → seconds (pos n) ≡ pos (n * 1_000_000_000)
unfolding seconds wrap64 ◌*ℤ◌
seconds_exact n h = ground arith

seconds_wrapped : (n : ℕ) → 9_223_372_037 ≤ n → n ≤ 18_446_744_073 → seconds (pos n) <ℤ pos 0
unfolding seconds wrap64 ◌*ℤ◌
seconds_wrapped n low high = ground arith

set_duration_pos : (n : ℕ) (old : ℤ) → 1 ≤ n → set_duration (pos n) old ≡ seconds (pos n)
unfolding set_duration
set_duration_pos n old h = ground arith

env_duration_of :
    (v : Str) (n : ℤ) (old : ℤ) → atoi v ≡ some n → env_duration_over v old ≡ set_duration n old
unfolding env_duration_over atoi
env_duration_of [] n old h = cc
env_duration_of (b ∷ v) n old h = rw (h, env_duration_over)

duration_of_env :
    (c : Config) (env : String → Str) (n : ℕ)
    → 1 ≤ n
    → n < 2 ^ 63
    → env "SPEEDTEST_DURATION" ≡ itoa (pos n)
    → (overlay_env c env).duration ≡ seconds (pos n)
unfolding overlay_env
duration_of_env c env n h bound e =
    env_duration_of (env "SPEEDTEST_DURATION") (pos n) c.duration
      (ap atoi e ∙ atoi-itoa (pos n) (omega arith))
    ∙ set_duration_pos n c.duration h

-- A duration from 1 to 9223372036 seconds in SPEEDTEST_DURATION is taken exactly.
pub overlay_env-duration :
    (c : Config) (env : String → Str) (n : ℕ)
    → 1 ≤ n
    → n ≤ 9_223_372_036
    → env "SPEEDTEST_DURATION" ≡ itoa (pos n)
    → (overlay_env c env).duration ≡ pos (n * 1_000_000_000)
overlay_env-duration c env n low high e =
    duration_of_env c env n low (omega arith) e ∙ seconds_exact n high

-- A duration from 9223372037 to 18446744073 seconds passes the test for at least one second, and
-- wraps to a negative duration.
pub overlay_env-duration_wrapped :
    (c : Config) (env : String → Str) (n : ℕ)
    → 9_223_372_037 ≤ n
    → n ≤ 18_446_744_073
    → env "SPEEDTEST_DURATION" ≡ itoa (pos n)
    → (overlay_env c env).duration <ℤ pos 0
overlay_env-duration_wrapped c env n low high e =
    rw (duration_of_env c env n (omega arith) (omega arith) e) (seconds_wrapped n low high)

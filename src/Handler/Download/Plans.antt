-- ===== src/Handler/Download/Plans.antt =====
-- How the query decides what is streamed, and the bounds that it keeps.
use Prim.Native.String.{String}
use speedtest_go.Base.{
  ℕ, ◌*◌, ◌^◌, ◌≤◌, ◌<◌, ◌≡◌, refl, sym, ◌∙◌, ap, subst, ◌⊎◌, inl, inr, false, some, [], ◌∷◌, Str,
  is_empty, arith, Bool-cases, Option-cases,
}
use speedtest_go.Base.Int.{ℤ, pos, negsuc, ◌*ℤ◌, wrap64}
use speedtest_go.Golang.Strconv.{itoa, atoi-itoa, itoa-ne-nil}
use speedtest_go.Config.{Config, mode_time, seconds}
use speedtest_go.Config.Durations.{seconds_exact}
use speedtest_go.Config.Range.{IsInRange, Within}
use speedtest_go.Handler.Download.{
  by_size, by_time, plan, total_bytes, test_duration, parse_between, max_bytes_per_stream,
  max_duration_secs,
}

parse_between-Within :
    (most : ℕ) (s : Str) (n : ℤ) → parse_between most s ≡ some n → Within (pos 1) (pos most) n
unfolding parse_between
parse_between-Within most s n h = ground arith

parse_between-itoa :
    (most n : ℕ) → 1 ≤ n → n ≤ most → n < 2 ^ 63 → parse_between most (itoa (pos n)) ≡ some (pos n)
unfolding parse_between
parse_between-itoa most n low high fits =
    rw (atoi-itoa (pos n) (omega arith), parse_between) (ground arith)

-- The most that a size-mode plan streams: the larger of 1 GiB and the largest configured size.
total_bytes-Within :
    (cfg : Config) (query : String → Str)
    → IsInRange cfg
    → Within (pos 1) (pos 10_737_418_240) (total_bytes cfg query)
unfolding total_bytes ◌*ℤ◌ wrap64
total_bytes-Within cfg query h = ground (
  arith,
  parse_between-Within max_bytes_per_stream (query "bytes"),
  parse_between-Within 1024 (query "size"),
)

-- Under a configuration in range, a request that is served by size gets between 1 byte and 10 GiB.
pub plan_size-Within :
    (cfg : Config) (query : String → Str) (total : ℤ)
    → IsInRange cfg
    → plan cfg query ≡ by_size total
    → Within (pos 1) (pos 10_737_418_240) total
unfolding plan
plan_size-Within cfg query total h e =
    let same : total_bytes cfg query ≡ total = ground arith in
    subst (Within (pos 1) (pos 10_737_418_240)) same (total_bytes-Within cfg query h)

seconds-Within :
    (n : ℤ)
    → Within (pos 1) (pos max_duration_secs) n
    → Within (pos 1_000_000_000) (pos 300_000_000_000) (seconds n)
seconds-Within (pos n) h = rw (seconds_exact n (omega arith)) (omega arith)
seconds-Within (negsuc n) h = absurd (omega arith)

test_duration-Within :
    (cfg : Config) (query : String → Str)
    → (test_duration cfg query ≡ cfg.duration)
      ⊎ Within (pos 1_000_000_000) (pos 300_000_000_000) (test_duration cfg query)
unfolding test_duration
test_duration-Within cfg query = elim (Bool-cases (is_empty (query "duration"))) [
  | inl unset ↦ inl (rw unset)
  | inr text ↦ elim (Option-cases (parse_between max_duration_secs (query "duration"))) [
    | inl bad ↦ inl (rw (text, bad))
    | inr (n, good) ↦
        inr (rw (text, good) (seconds-Within n (parse_between-Within max_duration_secs _ n good)))
  ]
]

-- A request that is served by time runs for the configured duration or for 1 to 300 seconds.
pub plan_time-Within :
    (cfg : Config) (query : String → Str) (d : ℤ)
    → plan cfg query ≡ by_time d
    → (d ≡ cfg.duration) ⊎ Within (pos 1_000_000_000) (pos 300_000_000_000) d
unfolding plan
plan_time-Within cfg query d e =
    let same : test_duration cfg query ≡ d = ground arith in
    subst (λ t. (t ≡ cfg.duration) ⊎ Within (pos 1_000_000_000) (pos 300_000_000_000) t) same
      (test_duration-Within cfg query)

text_not_empty : (s : Str) (z : ℤ) → s ≡ itoa z → is_empty s ≡ false
text_not_empty [] z e = absurd (itoa-ne-nil z (sym e))
text_not_empty (b ∷ s) z e = refl

total_bytes_of_bytes :
    (cfg : Config) (query : String → Str) (n : ℕ)
    → 1 ≤ n
    → n ≤ max_bytes_per_stream
    → query "bytes" ≡ itoa (pos n)
    → total_bytes cfg query ≡ pos n
unfolding total_bytes
total_bytes_of_bytes cfg query n low high e = ground (
  arith,
  text_not_empty (query "bytes") (pos n) e,
  ap (parse_between max_bytes_per_stream) e
      ∙ parse_between-itoa max_bytes_per_stream n low high (omega arith),
)

test_duration_of_query :
    (cfg : Config) (query : String → Str) (n : ℕ)
    → 1 ≤ n
    → n ≤ max_duration_secs
    → query "duration" ≡ itoa (pos n)
    → test_duration cfg query ≡ pos (n * 1_000_000_000)
unfolding test_duration
test_duration_of_query cfg query n low high e = ground (
  arith,
  text_not_empty (query "duration") (pos n) e,
  ap (parse_between max_duration_secs) e
      ∙ parse_between-itoa max_duration_secs n low high (omega arith),
  seconds_exact n (omega arith),
)

-- `?bytes=n` up to 1 GiB is honoured in either mode, whatever else the query says.
pub plan_bytes :
    (cfg : Config) (query : String → Str) (n : ℕ)
    → 1 ≤ n
    → n ≤ max_bytes_per_stream
    → query "bytes" ≡ itoa (pos n)
    → plan cfg query ≡ by_size (pos n)
unfolding plan
plan_bytes cfg query n low high e =
    ground
      (arith, text_not_empty (query "bytes") (pos n) e, total_bytes_of_bytes cfg query n low high e)

-- `?duration=n` up to 300 seconds is honoured in time mode, where no size is asked for.
pub plan_duration :
    (cfg : Config) (query : String → Str) (n : ℕ)
    → cfg.mode ≡ mode_time
    → query "bytes" ≡ []
    → query "size" ≡ []
    → 1 ≤ n
    → n ≤ max_duration_secs
    → query "duration" ≡ itoa (pos n)
    → plan cfg query ≡ by_time (pos (n * 1_000_000_000))
unfolding plan
plan_duration cfg query n mode bytes size low high e =
    ground (arith, test_duration_of_query cfg query n low high e)

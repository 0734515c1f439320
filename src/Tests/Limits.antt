-- ===== src/Tests/Limits.antt =====
-- The theorems on the rate limiter at concrete inputs, over a bucket that counts down.
use speedtest_go.Base.{ℕ, ◌≡◌, refl, true, some, List, [], ◌∷◌, str, str_eq, arith}
use speedtest_go.Base.Int.{pos}
use speedtest_go.Golang.Strconv.{itoa, itoa_ℕ}
use speedtest_go.Handler.ClientIp.{client_ip}
use speedtest_go.Handler.Http.{get, Request, Reply, Failure, envelope}
use speedtest_go.Handler.RateLimit.{put, is_scoped, allow, rate_limit}
use speedtest_go.Handler.RateLimit.Isolation.{Op, request, tick, own, run, allow-own}
use speedtest_go.Handler.RateLimit.Sweeps.{run-kept}
use speedtest_go.Handler.RateLimit.Outcome.{Covers, rate_limit-denied}
use speedtest_go.Tests.Fixtures.{countdown, limiter, here_ip, spent, request_to}

abbrev ops : List Op
ops = request here_ip 5 ∷ request (str "192.0.2.2") 6 ∷ tick 9 3 ∷ []

allow-own_example :
    (allow countdown (run countdown limiter ops) here_ip 10).0
    ≡ (allow countdown (run countdown limiter (own here_ip ops)) here_ip 10).0
allow-own_example = allow-own countdown limiter ops here_ip 10

run-kept_example :
    (run countdown spent (request (str "192.0.2.2") 6 ∷ tick 8 3 ∷ [])).limiters here_ip
    ≡ spent.limiters here_ip
unfolding put str_eq
run-kept_example =
    run-kept countdown spent (request (str "192.0.2.2") 6 ∷ tick 8 3 ∷ []) here_ip 5 refl
      (refl, (omega arith, tt))

abbrev ping : Request
ping = request_to get "/api/ping" (λ key. [])

abbrev denial : Reply Failure
denial = record {
  status = 429;
  headers = ("Retry-After", str "2") ∷ ("Content-Type", str "application/json") ∷ [];
  body = envelope (str "rate limit exceeded");
}

rate_limit-denied_example :
    (is_scoped ping.path ≡ true)
    × ((wait : ℕ) × ((allow countdown spent (client_ip ping) 10).0 ≡ some wait)
        × (denial.status ≡ 429)
        × ((secs : ℕ) × (denial.headers
              ≡ ("Retry-After", itoa (pos secs)) ∷ ("Content-Type", str "application/json") ∷ [])
            × Covers wait secs))
unfolding rate_limit str_eq allow itoa itoa_ℕ client_ip
rate_limit-denied_example =
    rate_limit-denied countdown spent ping 10 denial (rate_limit countdown (some spent) ping 10).1
      refl

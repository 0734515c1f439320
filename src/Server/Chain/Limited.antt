-- ===== src/Server/Chain/Limited.antt =====
-- What becomes of a request that the limiter turns away.
use speedtest_go.Base.{ℕ, ◌≡◌, refl, ap, Bool, true, Option, some, ◌∷◌, Str, str}
use speedtest_go.Base.Int.{pos}
use speedtest_go.Golang.Strconv.{itoa, itoa_ℕ}
use speedtest_go.Handler.ClientIp.{client_ip}
use speedtest_go.Handler.Http.{Request}
use speedtest_go.Handler.Metrics.{Metrics, inc_request, observe_request_on}
use speedtest_go.Handler.State.{Handler, observe_request}
use speedtest_go.Handler.RateLimit.{Rate, RateLimiter, is_scoped, allow, too_many}
use speedtest_go.Handler.RateLimit.Outcome.{rate_limit-refused}
use speedtest_go.Server.Logging.{logging_middleware}
use speedtest_go.Server.Logging.Status.{observe_request_lem}
use speedtest_go.Server.Routes.{serve, limited}
use speedtest_go.Server.Chain.{Next, Handled, method_text, answered, handle}

-- The handler after the request was counted under the status.
abbrev pub counted : Handler → Metrics → Request → Str → Handler
counted h m r status = record h {
  metrics = some (record m { calls = inc_request (method_text r.method) r.path status ∷ m.calls });
}

-- A request that the limiter turns away is seen by the client, logged and counted as a 429, with no
-- byte of its body read; the handler stays as it was but for that count.
abbrev pub IsTurnedAway : {rate : Rate} → Handler → Metrics → Request → Handled rate → Type 0
IsTurnedAway h m r a =
    (a.entry.status ≡ 429)
    × (a.entry.bytes_recv ≡ 0)
    × (a.client.header ≡ some 429)
    × (a.handler ≡ some (counted h m r (str "429")))

counted_lem :
    (h : Handler) (m : Metrics) (r : Request)
    → h.metrics ≡ some m
    → observe_request h (method_text r.method) r.path (itoa (pos 429)) ≡ counted h m r (str "429")
unfolding observe_request_on itoa itoa_ℕ
counted_lem h m r there = observe_request_lem h m (method_text r.method) r.path (str "429") there

module _ (rate : Rate) (next : Next) where
  answered_limited :
      (h : Handler) (m : Metrics) (r : Request) (no_body : Bool) (wait : ℕ)
      (limiter : Option (RateLimiter rate))
      → h.metrics ≡ some m
      → IsTurnedAway h m r
          (answered rate next (some h) r no_body (limited (too_many wait), limiter))
  unfolding answered logging_middleware too_many
  answered_limited h m r no_body wait limiter there =
      (refl, refl, refl, ap some (counted_lem h m r there))

  -- A request with the path of a speed-test endpoint whose bucket asks for a wait is answered 429 to the client,
  -- and logged and counted as such, without a byte of its body read. The handler keeps its slots and
  -- its counts of tests: nothing but that request count changes, and the bucket.
  pub handle-IsTurnedAway :
      (h : Handler) (m : Metrics) (rl : RateLimiter rate) (r : Request) (now wait : ℕ)
      (no_body : Bool)
      → h.metrics ≡ some m
      → is_scoped r.path ≡ true
      → (allow rate rl (client_ip r) now).0 ≡ some wait
      → IsTurnedAway h m r (handle rate next (some h) (some rl) r now no_body)
        × ((handle rate next (some h) (some rl) r now no_body).limiter
            ≡ some (allow rate rl (client_ip r) now).1)
  unfolding handle serve
  handle-IsTurnedAway h m rl r now wait no_body there test asked =
      let refused = rate_limit-refused rate rl r now wait test asked in
      rw refused
        (answered_limited h m r no_body wait (some (allow rate rl (client_ip r) now).1) there, refl)

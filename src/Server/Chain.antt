-- ===== src/Server/Chain.antt =====
-- main.go, newServerWithStore: the logging middleware around the rate limiter around the mux.
pub mod Limited
use speedtest_go.Base.{ℕ, Bool, Option, none, some, List, [], ◌∷◌, Str, str}
use speedtest_go.Handler.Http.{Method, get, post, other, Request, Reply, Failure}
use speedtest_go.Handler.State.{Handler}
use speedtest_go.Handler.RateLimit.{Rate, RateLimiter}
use speedtest_go.Server.Logging.{
  Op, write_header, write, Entry, logging_middleware, Client, client_run, is_head, new_client,
}
use speedtest_go.Server.Routes.{Route, Answer, limited, routed, serve}

abbrev pub method_text : Method → Str
method_text get = str "GET"
method_text post = str "POST"
method_text (other m) = m

-- What a handler of a route does with its writer, and the bytes of the reads that it makes of the
-- body.
pub record Next : Type 0 where
  pub calls : Route → List Op
  pub reads : Route → List ℕ
  -- the bytes of an error reply
  pub size : Failure → ℕ

-- A reply of the limiter is a header and its JSON.
abbrev calls_of : Next → Answer → List Op
calls_of next (limited reply) = write_header reply.status ∷ write (next.size reply.body) ∷ []
calls_of next (routed r) = next.calls r

abbrev reads_of : Next → Answer → List ℕ
reads_of next (limited reply) = []
reads_of next (routed r) = next.reads r

pub record Handled (rate : Rate) : Type 0 where
  pub entry : Entry
  pub handler : Option Handler
  pub limiter : Option (RateLimiter rate)
  -- what net/http sends
  pub client : Client

module _ (rate : Rate) (next : Next) where
  answered :
      Option Handler
      → Request
      → (no_body : Bool) → Answer × Option (RateLimiter rate)
      → Handled rate
  unfolding logging_middleware client_run
  answered h r no_body (answer, limiter) =
      let ops = calls_of next answer in
      let (entry, handler) =
        logging_middleware h (method_text r.method) r.path ops no_body (reads_of next answer) in
      record {
        entry = entry;
        handler = handler;
        limiter = limiter;
        client = client_run (is_head (method_text r.method)) new_client ops;
      }

  -- `loggingMiddleware(h, h.RateLimit(mux))`
  unfoldable pub handle :
      Option Handler
      → Option (RateLimiter rate)
      → Request
      → (now : ℕ) → (no_body : Bool) → Handled rate
  unfolding answered serve
  handle h limiter r now no_body = answered h r no_body (serve rate limiter r now)

-- ===== src/Tests/Routing.antt =====
-- The theorems on routes, pages and the status endpoints at concrete inputs.
use mathlib.Core.Bool.{false≢true}
use speedtest_go.Base.{
  sym, ap, ◌≡◌, ◌≢◌, ◌↔◌, refl, true, false, none, some, [], ◌∷◌, ◌++◌, Str, str, str_eq,
}
use speedtest_go.Golang.Escape.{unescape}
use speedtest_go.Handler.Http.{get, Request}
use speedtest_go.Handler.ClientIp.{client_ip}
use speedtest_go.Handler.RateLimit.{is_scoped, allow}
use speedtest_go.Server.Routes.{route, routed, is_test, serve}
use speedtest_go.Server.Routes.Scope.{serve_lem}
use speedtest_go.Server.Chain.{Next, handle}
use speedtest_go.Server.Chain.Limited.{IsTurnedAway, handle-IsTurnedAway}
use speedtest_go.Server.Logging.{write}
use speedtest_go.Server.Pages.{has_prefix, swjs_cache_placeholder, swjs_handler}
use speedtest_go.Server.Pages.CacheName.{swjs_handler-version}
use speedtest_go.Tests.Fixtures.{request_to, no_calls, handler_with, countdown, spent}

abbrev ping : Request
ping = request_to get "/api/ping" (λ key. [])

-- The same with an escape in it.
abbrev coded : Request
coded = record ping { escaped_path = str "/api/p%69ng" }

serve_lem_example :
    ((is_test (route coded.escaped_path) ≡ true) → is_scoped coded.path ≡ true)
    × ((is_scoped coded.path ≡ true)
        → ((serve countdown (some spent) coded 10).0 ≡ routed (route coded.escaped_path))
          ↔ ((allow countdown spent (client_ip coded) 10).0 ≡ none))
    × ((is_scoped coded.path ≡ false)
        → serve countdown (some spent) coded 10 ≡ (routed (route coded.escaped_path), some spent))
    × (serve countdown none coded 10 ≡ (routed (route coded.escaped_path), none))
unfolding unescape
serve_lem_example = serve_lem countdown spent coded 10 refl

abbrev after : Next
after = record { calls = λ r. write 2 ∷ []; reads = λ r. 7 ∷ []; size = λ f. 31 }

handle-IsTurnedAway_example :
    IsTurnedAway
      (handler_with 1)
      no_calls
      ping
      (handle countdown after (some (handler_with 1)) (some spent) ping 10 false)
    × ((handle countdown after (some (handler_with 1)) (some spent) ping 10 false).limiter
        ≡ some (allow countdown spent (client_ip ping) 10).1)
unfolding str_eq allow client_ip is_scoped
handle-IsTurnedAway_example =
    handle-IsTurnedAway countdown after (handler_with 1) no_calls spent ping 10 1_500_000_000 false
      refl refl refl

abbrev worker : Str
worker = str "const CACHE_NAME = '" ++ swjs_cache_placeholder ++ str "';"

swjs_handler-version_example :
    (swjs_handler (some worker) (str "1.2.0")).body
    ≢ (swjs_handler (some worker) (str "1.3.0")).body
unfolding has_prefix str_eq
swjs_handler-version_example =
    swjs_handler-version worker (str "1.2.0") (str "1.3.0") refl
      (λ e. false≢true (sym (ap (λ s. str_eq s (str "1.2.0")) e)))

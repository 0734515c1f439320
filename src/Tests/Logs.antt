-- ===== src/Tests/Logs.antt =====
-- The theorems on the middleware and the idle timeout at concrete inputs.
use speedtest_go.Base.{◌≡◌, refl, true, some, List, [], ◌∷◌, str, if◌then◌else◌}
use speedtest_go.Base.Int.{pos}
use speedtest_go.Golang.Strconv.{itoa}
use speedtest_go.Handler.Metrics.{observe_request_on}
use speedtest_go.Server.Logging.{
  Op, write_header, write, flush, logging_middleware, client_run, new_client, seen_status, is_head,
  is_final,
}
use speedtest_go.Server.Logging.Status.{logging_middleware_lem}
use speedtest_go.Tests.Fixtures.{handler_with, no_calls}

-- A handler that fails and then writes its text.
abbrev calls : List Op
calls = write_header 503 ∷ write 12 ∷ flush ∷ write_header 200 ∷ []

logging_middleware_lem_example :
    let (entry, h') =
      logging_middleware (some (handler_with 1)) (str "GET") (str "/api/ping") calls true [] in
    let c = client_run (is_head (str "GET")) new_client calls in
    (entry.status ≡ seen_status c.header)
    × ((if is_head (str "GET") then 0 else entry.bytes_sent) ≡ c.body)
    × (h'
        ≡ some (record (handler_with 1) {
          metrics = some (
              observe_request_on no_calls
                (str "GET")
                (str "/api/ping")
                (itoa (pos (seen_status c.header))));
        }))
unfolding is_final
logging_middleware_lem_example =
    logging_middleware_lem (handler_with 1) no_calls (str "GET") (str "/api/ping") calls true []
      refl refl

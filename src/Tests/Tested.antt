-- ===== src/Tests/Tested.antt =====
-- The theorems on downloads, uploads and admissions at concrete inputs.
use Prim.Native.String.{String}
use speedtest_go.Base.{
  ℕ, ◌+◌, ◌*◌, ◌≡◌, ◌≢◌, ◌≤◌, ◌⊎◌, refl, true, none, some, [], ◌∷◌, Str, str_eq, arith,
}
use speedtest_go.Base.Int.{◌≤ℤ◌, pos, pos_part, ◌+ℤ◌}
use speedtest_go.Golang.Strconv.{itoa, atoi}
use speedtest_go.Config.Range.{IsInRange}
use speedtest_go.Handler.Http.{get, post, Reply, Body}
use speedtest_go.Handler.Metrics.{Metrics, up, down}
use speedtest_go.Handler.State.{Handler, acquire, new}
use speedtest_go.Handler.Tested.{Tested}
use speedtest_go.Handler.Admission.{
  System, arrive, finish, step, Reach, here, next, start, Inv, Reach-start-Inv, finish-ne-none,
}
use speedtest_go.Handler.Download.{IsWriter, by_size, by_time, plan, download_handler}
use speedtest_go.Handler.Download.Loops.{Failed}
use speedtest_go.Handler.Download.Plans.{plan_bytes, plan_duration}
use speedtest_go.Handler.Download.Outcome.{reply_of, download_handler_size, download_handler_time}
use speedtest_go.Handler.Upload.{Payload, eof, UploadResponse, upload_handler}
use speedtest_go.Handler.Upload.Outcome.{Answered, upload_handler_lem}
use speedtest_go.Tests.Fixtures.{one_var, cfg_time, request_to, no_calls, handler_with, steady}

steady-IsWriter : IsWriter steady
steady-IsWriter i n = (omega arith, λ e. refl)

cfg_time-IsInRange : IsInRange cfg_time
unfolding atoi
cfg_time-IsInRange = record {
  port = λ e. cc;
  download_mb = omega arith;
  upload_mb = omega arith;
  streams = omega arith;
  max_concurrent = omega arith;
  warmup_ms = omega arith;
  history_retention_days = omega arith;
  rate_per_min = omega arith;
}

abbrev bytes_query : String → Str
bytes_query = one_var "bytes" (itoa (pos 100_000))

abbrev duration_query : String → Str
duration_query = one_var "duration" (itoa (pos 20))

bytes_plan : plan cfg_time bytes_query ≡ by_size (pos 100_000)
unfolding str_eq
bytes_plan = plan_bytes cfg_time bytes_query 100_000 (omega arith) (omega arith) refl

duration_plan : plan cfg_time duration_query ≡ by_time (pos (20 * 1_000_000_000))
unfolding str_eq
duration_plan =
    plan_duration cfg_time duration_query 20 refl refl refl (omega arith) (omega arith) refl

download_handler_size_example :
    (sent : ℕ) × (h' : Handler) × (m' : Metrics) × (download_handler 0
        (handler_with 1)
        steady
        (request_to get "/api/download" bytes_query)
        7
      ≡ some (reply_of (by_size (pos 100_000)) sent, h'))
    × Tested down sent (handler_with 1) h' no_calls m'
    × (sent ≤ pos_part (pos 100_000))
    × ((sent ≡ pos_part (pos 100_000)) ⊎ Failed steady)
download_handler_size_example =
    download_handler_size 0 (handler_with 1) steady (request_to get "/api/download" bytes_query) 7
      no_calls (pos 100_000) refl (omega arith) refl steady-IsWriter bytes_plan

download_handler_time_example :
    (sent : ℕ) × (rounds : ℕ) × (h' : Handler) × (m' : Metrics) × (download_handler 30
        (handler_with 1)
        steady
        (request_to get "/api/download" duration_query)
        7
      ≡ some (reply_of (by_time (pos (20 * 1_000_000_000))) sent, h'))
    × Tested down sent (handler_with 1) h' no_calls m'
    × (rounds ≤ 25)
    × (sent ≤ 65_536 * rounds)
    × (((sent ≡ 65_536 * rounds)
          × (pos (steady.clock 0) +ℤ pos (20 * 1_000_000_000) ≤ℤ pos (steady.clock (1 + rounds))))
        ⊎ Failed steady)
unfolding ◌+ℤ◌
download_handler_time_example =
    download_handler_time 30 (handler_with 1) steady (request_to get "/api/download" duration_query)
      7 no_calls (pos (20 * 1_000_000_000)) 25 refl (omega arith) refl steady-IsWriter duration_plan
      (omega arith) (omega arith)

abbrev two_blocks : Payload
two_blocks = record { blocks = 4096 ∷ 100 ∷ []; end = eof }

upload_handler_lem_example :
    (received : ℕ) × (reply : Reply (Body UploadResponse)) × (h' : Handler) × (m' : Metrics)
    × (upload_handler (handler_with 1) (request_to post "/api/upload" bytes_query) two_blocks 5 7
        ≡ some (reply, h'))
    × Answered 4196 eof 5 received reply
    × Tested up received (handler_with 1) h' no_calls m'
upload_handler_lem_example =
    upload_handler_lem (handler_with 1) (request_to post "/api/upload" bytes_query) two_blocks 5 7
      no_calls refl (omega arith) refl

-- One test has arrived.
abbrev began : System
began = record {
  handler = (acquire (new cfg_time true 5)).0;
  running = 1;
  finished = 0;
  refused = 0;
}

began-Reach : Reach (start cfg_time true 5) began
unfolding step start acquire new
began-Reach = next arrive here refl

Reach-start-Inv_example : Inv began
Reach-start-Inv_example = Reach-start-Inv cfg_time true 5 began began-Reach

finish-ne-none_example : step began (finish down 100 9) ≢ none
finish-ne-none_example = finish-ne-none cfg_time true 5 began down 100 9 began-Reach (omega arith)

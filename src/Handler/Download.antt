-- ===== src/Handler/Download.antt =====
-- internal/handler/handler.go: `DownloadHandler` and its two ways to stream.
pub mod Loops
pub mod Plans
pub mod Outcome
use Prim.Native.String.{String}
use speedtest_go.Base.{
  ℕ, zero, suc, ◌+◌, ◌-◌, ◌*◌, ◌≤◌, ◌≡◌, Bool, true, false, ◌||◌, ◌&&◌, not, Option, none, some,
  List, [], ◌∷◌, ◌++◌, Str, str, is_empty, if◌then◌else◌, ltb,
}
use speedtest_go.Base.Int.{ℤ, pos, ◌+ℤ◌, ◌*ℤ◌, pos_part, leb_ℤ, ltb_ℤ, wrap64}
use speedtest_go.Golang.Strconv.{atoi, itoa}
use speedtest_go.Config.{Config, Mode, mode_size, mode_time, seconds}
use speedtest_go.Handler.Http.{
  Method, get, post, other, Request, Reply, Body, success, http_error, method_not_allowed,
}
use speedtest_go.Handler.Metrics.{down}
use speedtest_go.Handler.State.{Handler, acquire, release, observe_test}

abbrev pub payload_size : ℕ
payload_size = 1_048_576

abbrev pub write_chunk : ℕ
write_chunk = 65_536

abbrev pub max_bytes_per_stream : ℕ
max_bytes_per_stream = 1_073_741_824

abbrev pub max_duration_secs : ℕ
max_duration_secs = 300

-- A connection: what the i-th `Write` of n bytes returns, as the bytes that it took and whether it
-- failed; and what the i-th reading of the clock shows, in nanoseconds.
pub record Conn : Type 0 where
  pub write : ℕ → ℕ → ℕ × Bool
  pub clock : ℕ → ℕ

-- The contract of io.Writer: never more bytes than were given, and all of them without an error.
abbrev pub IsWriter : Conn → Type 0
IsWriter c = (i n : ℕ) → ((c.write i n).0 ≤ n) × ((c.write i n).1 ≡ false → (c.write i n).0 ≡ n)

-- The loop of `downloadBySize`, from its i-th write on; none where the fuel ran out.
unfoldable pub size_loop : ℕ → Conn → ℕ → ℕ → ℕ → Option ℕ
size_loop zero c i total written = none
size_loop (suc fuel) c i total written =
    let n = if ltb total (written + payload_size) then total - written else payload_size in
    let (m, failed) = c.write i n in
    let rest = size_loop fuel c (i + 1) total (written + m) in
    let round : Option ℕ = if failed then some (written + m) else rest in
    if ltb written total then round else some written

-- A total that is not positive makes no round.
unfoldable pub download_by_size : Conn → ℤ → Option ℕ
unfolding size_loop
download_by_size c total = size_loop (suc (pos_part total)) c 0 (pos_part total) 0

-- The loop of `downloadByTime`, from its i-th round on.
unfoldable pub time_loop : ℕ → Conn → ℕ → ℤ → ℕ → Option ℕ
time_loop zero c i deadline written = none
time_loop (suc fuel) c i deadline written =
    let (m, failed) = c.write i write_chunk in
    let rest = time_loop fuel c (i + 1) deadline (written + m) in
    let round : Option ℕ = if failed then some (written + m) else rest in
    if ltb_ℤ (pos (c.clock (i + 1))) deadline then round else some written

-- The first reading of the clock sets the deadline.
unfoldable pub download_by_time : ℕ → Conn → ℤ → Option ℕ
unfolding time_loop ◌+ℤ◌
download_by_time fuel c duration = time_loop fuel c 0 (pos (c.clock 0) +ℤ duration) 0

-- `if n, err := strconv.Atoi(s); err == nil && n >= 1 && n <= most { … }`
unfoldable pub parse_between : ℕ → Str → Option ℤ
parse_between most s = elim (atoi s) [
  | none ↦ none
  | some n ↦ if leb_ℤ (pos 1) n && leb_ℤ n (pos most) then some n else none
]

-- How a request is to be served.
pub data Plan : Type 0 where
  by_size : ℤ → Plan
  by_time : ℤ → Plan

unfoldable pub total_bytes : Config → (String → Str) → ℤ
unfolding parse_between ◌*ℤ◌ wrap64
total_bytes cfg query =
    let default_total = wrap64 (cfg.download_mb *ℤ pos 1024 *ℤ pos 1024) in
    let bytes = query "bytes" in
    let size = query "size" in
    if not (is_empty bytes)
    then elim (parse_between max_bytes_per_stream bytes) [ none ↦ default_total | some n ↦ n ]
    else if not (is_empty size)
    then elim (parse_between 1024 size) [
      | none ↦ default_total
      | some n ↦ n *ℤ pos 1024 *ℤ pos 1024
    ]
    else default_total

unfoldable pub test_duration : Config → (String → Str) → ℤ
unfolding parse_between seconds
test_duration cfg query =
    let s = query "duration" in
    if is_empty s
    then cfg.duration
    else elim (parse_between max_duration_secs s) [ none ↦ cfg.duration | some n ↦ seconds n ]

unfoldable pub plan : Config → (String → Str) → Plan
unfolding total_bytes test_duration
plan cfg query =
    if not (is_empty (query "bytes")) || not (is_empty (query "size"))
    then by_size (total_bytes cfg query)
    else elim cfg.mode [
      | mode_time ↦ by_time (test_duration cfg query)
      | mode_size ↦ by_size (total_bytes cfg query)
    ]

abbrev stream_headers : List (String × Str)
stream_headers =
    ("Content-Type", str "application/octet-stream")
    ∷ ("Cache-Control", str "no-store")
    ∷ ("Content-Encoding", str "identity")
    ∷ []

abbrev plan_headers : Plan → List (String × Str)
plan_headers (by_size total) = stream_headers ++ (("Content-Length", itoa total) ∷ [])
plan_headers (by_time duration) = stream_headers

unfoldable pub stream : ℕ → Conn → Plan → Option ℕ
unfolding download_by_size download_by_time
stream fuel c (by_size total) = download_by_size c total
stream fuel c (by_time duration) = download_by_time fuel c duration

-- The deferred calls, the last deferred first: `ObserveTest`, then `release`.
unfoldable pub finish : Handler → ℕ → ℕ → Option Handler
finish h sent elapsed = release (observe_test h down sent elapsed)

-- A handler run gives its reply, whose body is the number of random bytes sent, and the handler
-- after it; none where the fuel runs out or the release blocks. `elapsed` is the time it took.
abbrev pub Run : Type 0
Run = Option (Reply (Body ℕ) × Handler)

unfoldable pub served : Handler → Plan → ℕ → Option ℕ → Run
served h p elapsed none = none
served h p elapsed (some sent) = elim (finish h sent elapsed) [
  | none ↦ none
  | some h' ↦ some (record { status = 200; headers = plan_headers p; body = success sent }, h')
]

unfoldable pub admitted : ℕ → Conn → Request → ℕ → Handler × Bool → Run
admitted fuel c r elapsed (h, false) = some (http_error (str "server busy") 503, h)
admitted fuel c r elapsed (h, true) =
    let p = plan h.cfg r.query in served h p elapsed (stream fuel c p)

unfoldable pub by_method : Method → ℕ → Handler → Conn → Request → ℕ → Run
by_method get fuel h c r elapsed = admitted fuel c r elapsed (acquire h)
by_method post fuel h c r elapsed = some (method_not_allowed, h)
by_method (other m) fuel h c r elapsed = some (method_not_allowed, h)

unfoldable pub download_handler : ℕ → Handler → Conn → Request → ℕ → Run
download_handler fuel h c r elapsed = by_method r.method fuel h c r elapsed

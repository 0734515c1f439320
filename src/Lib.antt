-- ===== src/Lib.antt =====
-- A verification library for speedtest-go, a self-hosted network speed-test server in Go.
--
-- The server reads its settings from a command line, a JSON file and the environment
-- (internal/config). Its handlers (internal/handler) serve downloads and uploads under a semaphore,
-- limit the requests of each address, and keep a history of results in a SQLite table
-- (internal/store); an optional geo lookup (internal/geoip) may be swapped while the server runs.
--
-- Files, and the code that each models:
--   Base: names that every module shares: lists and tests over the native numbers, 64-bit integers
--     with their wrap-around, and byte texts.
--   Golang: what the code uses of Go's library: strconv.Atoi and Itoa (Strconv), the flag package
--     (Flag), float64 as far as it is compared (Float), net.SplitHostPort (HostPort),
--     strings.TrimSpace (Trim), the escapes of net/url (Escape), and net.IP with ParseIP, String and
--     the ranges that it knows (Ip).
--   Config: internal/config/config.go. Cli is parseCLI and applyCLI, Json is applyJSON, Env is
--     overlayEnv and the older Load, Sources is configPath and LoadWithSources, Addr is Addr. The
--     file system and the JSON decoder are the fields of Sources.World. Layers takes a successful
--     load apart; Settings says what the layers name, Stacks and Precedence that a load gives that;
--     Range, Durations and Legacy are about its values.
--   Store: internal/store/store.go, the row and the interface. Order is the order of listing.
--   Store/Sqlite: internal/store/store_sqlite.go over an engine. Database states what the SQL
--     statements do to a table of rows; Laws and Deletes are about the store over such an engine.
--     Open is Open, ensureColumn and Close.
--   Handler/State, Handler/Metrics: New, acquire, release and the counters of
--     internal/handler/handler.go and metrics_handler.go. Prometheus collectors are read as the
--     calls that are made on them.
--   Handler/Admission: every interleaving of arrivals and ends of tests, as a step relation.
--   Handler/Download, Handler/Upload: DownloadHandler and UploadHandler. A connection says what each
--     write returns and what each reading of the clock shows; a body is the sizes of its reads and
--     its end. Handler/Tested has what both do to the state.
--   Handler/ClientIp: ClientIP and its trusted ranges; Trust is about any request, Proxy about IPv4.
--   Handler/Status: ConfigHandler, IPHandler, PingHandler, HealthHandler (health_handler.go) and
--     MetricsHandler. What the Prometheus handler writes is an argument.
--   Handler/Geoip: LocateIP, SetGeoIP and CloseGeoIP, one step each under their lock.
--   Handler/RateLimit: internal/handler/ratelimit_handler.go over the token bucket of
--     golang.org/x/time/rate, a parameter of which nothing is assumed.
--   Handler/Sanitise, Handler/Results: internal/handler/results_handler.go, over any store.
--   Geoip/Updater: a cycle of internal/geoip/updater.go. The network, the operating system and the
--     archive are its answers; the temporary files and the target are the state. Run is the loop over
--     the cycles, with the panics that tickSafe recovers from; the callback is taken not to panic.
--   Geoip/Updater/Request: the request of download, with url.Values.Encode.
--   Geoip/Location: internal/geoip/geoip.go over the reader of maxminddb-golang, a parameter.
--   Server/Logging: loggingMiddleware, statusWriter, countingReader and idleTimeout of main.go, next
--     to the response of net/http as the client gets it.
--   Server/Routes, Server/Chain: buildMux and newServerWithStore of main.go, the mux behind the rate
--     limiter behind the logging. The mux is that of net/http: it matches the segments of the escaped
--     path, and redirects a path that is not clean.
--   Server/Pages, Server/Usage: swjsHandler, faviconHandler, newRequestID and printUsage.
--   Server/Startup: what main opens before it serves; the machine says what each opening returns.
--   Server/Lifecycle: the geo handle over the cycles of the updater and the shutdown.
--   Server/Shutdown: the goroutine of main that waits for a signal, as a step relation among requests
--     and swaps.
--   Tests: the theorems at concrete inputs.
--
-- Integers of the code are 64-bit: a product that can leave that range keeps its wrap-around, and
-- counters that cannot reach it in practice are plain numbers. The size loop of a download has one
-- unit of fuel more than the total, which is enough since each round of a writer that does not fail
-- sends a byte at least. The time loop takes its fuel from the caller; a clock that reaches the
-- deadline within the fuel is enough.
--
-- Not modelled: timers and log lines, the embedded files, a server that cannot listen, and the
-- JavaScript client under static. The replies hold values before JSON, CSV or the Prometheus format
-- renders them.
pub mod Base
pub mod Golang
pub mod Config
pub mod Store
pub mod Geoip
pub mod Handler
pub mod Server
pub mod Tests

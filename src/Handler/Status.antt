-- ===== src/Handler/Status.antt =====
-- internal/handler/handler.go, health_handler.go and metrics_handler.go: the endpoints that only
-- read: configuration, client address, ping, health and metrics.
use speedtest_go.Base.{ℕ, zero, suc, ◌+◌, ◌-◌, ◌/◌, Bool, Option, none, some, [], ◌∷◌, Str, str}
use speedtest_go.Base.Int.{ℤ, pos, negsuc}
use speedtest_go.Config.{Mode, mode_size, mode_time}
use speedtest_go.Handler.Http.{
  Method, get, post, other, Request, Reply, Body, success, http_error, write_json,
  method_not_allowed,
}
use speedtest_go.Handler.Metrics.{Metrics}
use speedtest_go.Handler.State.{
  Handler, Semaphore, history_enabled, version_or_dev, commit_or_empty, date_or_empty,
}
use speedtest_go.Handler.Geoip.{Slot, geoip_enabled}
use speedtest_go.Handler.ClientIp.{client_ip}

pub record ConfigResponse : Type 0 where
  pub mode : Str
  pub duration_secs : ℤ
  pub download_mb : ℤ
  pub upload_mb : ℤ
  pub streams : ℤ
  pub warmup_ms : ℤ
  pub history_enabled : Bool
  pub geoip_enabled : Bool
  pub max_concurrent : ℕ
  pub version : Str
  pub commit : Str
  pub date : Str

pub record HealthResponse : Type 0 where
  pub status : Str
  pub uptime_sec : ℕ
  pub active_tests : ℕ
  pub accepted_total : ℕ
  pub rejected_total : ℕ
  pub history_enabled : Bool
  pub version : Str
  pub commit : Str
  pub date : Str

pub data Content : Type 0 where
  config : ConfigResponse → Content
  address : Str → Content
  pong : Str → Content
  health : HealthResponse → Content
  exposition : Str → Content

-- `string(h.cfg.Mode)`
abbrev pub mode_text : Mode → Str
mode_text mode_size = str "size"
mode_text mode_time = str "time"

-- `int(d.Seconds())`, in nanoseconds: the seconds towards zero. The float64 of `Seconds` is exact
-- enough for a time of up to 97 days.
abbrev pub whole_seconds : ℤ → ℤ
whole_seconds (pos n) = pos (n / 1_000_000_000)
whole_seconds (negsuc n) = elim ((n + 1) / 1_000_000_000) [ zero ↦ pos 0 | suc s ↦ negsuc s ]

-- `if r.Method != http.MethodGet`, with which each of them begins.
abbrev only_get : Method → Reply (Body Content) → Reply (Body Content)
only_get get reply = reply
only_get post reply = method_not_allowed
only_get (other m) reply = method_not_allowed

unfoldable pub config_handler : Handler → Slot → Request → Reply (Body Content)
unfolding history_enabled geoip_enabled version_or_dev commit_or_empty date_or_empty write_json
config_handler h geo r = only_get r.method (
    write_json [] (
      config (record {
        mode = mode_text h.cfg.mode;
        duration_secs = whole_seconds h.cfg.duration;
        download_mb = h.cfg.download_mb;
        upload_mb = h.cfg.upload_mb;
        streams = h.cfg.streams;
        warmup_ms = h.cfg.warmup_ms;
        history_enabled = history_enabled h;
        geoip_enabled = geoip_enabled geo;
        max_concurrent = h.sem.cap;
        version = version_or_dev h;
        commit = commit_or_empty h;
        date = date_or_empty h;
      })))

unfoldable pub ip_handler : Request → Reply (Body Content)
unfolding client_ip write_json
ip_handler r = only_get r.method (write_json [] (address (client_ip r)))

unfoldable pub ping_handler : Request → Reply (Body Content)
ping_handler r = only_get r.method (record {
  status = 200;
  headers = ("Cache-Control", str "no-store") ∷ [];
  body = success (pong (str "ok"));
})

-- `now` is the clock, in nanoseconds.
unfoldable pub health_handler : Handler → (now : ℕ) → Request → Reply (Body Content)
unfolding history_enabled version_or_dev commit_or_empty date_or_empty write_json
health_handler h now r = only_get r.method (
    write_json (("Cache-Control", str "no-store") ∷ []) (
      health (record {
        status = str "ok";
        uptime_sec = (now - h.started_at) / 1_000_000_000;
        active_tests = h.sem.len;
        accepted_total = h.accepted_total;
        rejected_total = h.rejected_total;
        history_enabled = history_enabled h;
        version = version_or_dev h;
        commit = commit_or_empty h;
        date = date_or_empty h;
      })))

exposed :
    (Metrics → Semaphore → Reply (Body Content)) → Semaphore → Option Metrics → Reply (Body Content)
exposed serve sem none = http_error (str "metrics not initialised") 503
exposed serve sem (some m) = serve m sem

-- `serve` is the handler of the Prometheus client library, which reads the collectors; that of the
-- active tests reads the semaphore.
unfoldable pub metrics_handler :
    (serve : Metrics → Semaphore → Reply (Body Content)) → Handler → Request → Reply (Body Content)
unfolding exposed
metrics_handler serve h r = only_get r.method (exposed serve h.sem h.metrics)

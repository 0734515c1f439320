-- ===== src/Tests/Fixtures.antt =====
-- The inputs that the tests share: settings, requests, a connection and two measurements.
use Prim.Native.String.{String}
use speedtest_go.Base.{
  ℕ, zero, suc, ◌-◌, ◌*◌, true, false, none, some, [], ◌∷◌, Str, str, str_eq, if◌then◌else◌,
}
use speedtest_go.Base.Int.{ℤ, pos, pos_part}
use speedtest_go.Golang.Float.{nan, inf, finite}
use speedtest_go.Config.{Config, mode_time}
use speedtest_go.Store.{Result}
use speedtest_go.Handler.Http.{Method, Request}
use speedtest_go.Handler.Metrics.{Metrics}
use speedtest_go.Handler.State.{Handler}
use speedtest_go.Handler.Download.{Conn}
use speedtest_go.Geoip.Updater.{Disk, Answers}
use speedtest_go.Handler.RateLimit.{Rate, RateLimiter, put}

-- An environment with one variable set.
abbrev pub one_var : String → Str → String → Str
one_var key v k = if str_eq (str key) (str k) then v else []

abbrev pub cfg_time : Config
cfg_time = record {
  host = str "::";
  port = str "8080";
  mode = mode_time;
  duration = pos 15_000_000_000;
  download_mb = pos 25;
  upload_mb = pos 10;
  streams = pos 4;
  max_concurrent = pos 2;
  warmup_ms = pos 500;
  db_path = [];
  history_retention_days = pos 90;
  rate_per_min = pos 0;
  config_file_path = [];
  geoip_db_path = [];
  geoip_license_key = [];
  geoip_edition = str "GeoLite2-City";
}

abbrev pub request_to : Method → String → (String → Str) → Request
request_to method path query = record {
  method = method;
  path = str path;
  escaped_path = str path;
  query = query;
  header = one_var "User-Agent" (str "curl");
  remote_addr = str "192.0.2.1:5000";
}

abbrev pub no_calls : Metrics
no_calls = record { calls = [] }

abbrev pub handler_with : ℕ → Handler
handler_with held = record {
  cfg = cfg_time;
  sem = record { len = held; cap = 2 };
  has_store = true;
  build = record { version = []; commit = []; date = [] };
  started_at = 0;
  accepted_total = 0;
  rejected_total = 0;
  metrics = some no_calls;
}

-- It takes every byte, and the clock shows a second more at each reading.
abbrev pub steady : Conn
steady = record { write = λ i n. (n, false); clock = λ i. i * 1_000_000_000 }

abbrev pub measured : ℤ → ℤ → Result
measured id at = record {
  id = id;
  created_at = at;
  download_mbps = finite false 0;
  upload_mbps = finite true 3;
  latency_idle_ms = nan;
  latency_loaded_ms = inf true;
  download_jitter_ms = inf false;
  upload_jitter_ms = finite false 5;
  packet_loss = finite false 0;
  bufferbloat_grade = str "E";
  client_ip = str "=1+1";
  client_ip_location = str "nowhere";
  user_agent = str "@SUM";
  settings_json = str "{}";
}

-- The tokens that are left: a reservation without one waits for 1.5 seconds.
abbrev pub countdown : Rate
countdown = record {
  Limiter = ℕ;
  Reservation = ℕ;
  new_limiter = λ per_min burst. pos_part burst;
  reserve = λ left now. (left, left - 1);
  ok = λ res. true;
  delay_from = λ res now. elim res [ zero ↦ 1_500_000_000 | suc n ↦ 0 ];
  cancel_at = λ res now left. left;
}

abbrev pub limiter : RateLimiter countdown
limiter = record {
  rate_per_min = pos 1;
  limiters = λ ip. none;
  last_seen = λ ip. none;
  stopped = false;
}

abbrev pub here_ip : Str
here_ip = str "192.0.2.1"

abbrev pub spent : RateLimiter countdown
spent = record limiter {
  limiters = put here_ip 0 (λ ip. none);
  last_seen = put here_ip 5 (λ ip. none);
}

abbrev pub disk : Disk
disk = record { target = some (record { data_id = 1; size = 10 }); temps = 7 ∷ [] }

abbrev pub answers : Answers
answers = record {
  mkdir_ok = true;
  request_ok = true;
  response = some (record { status = 200; size = 5000; broken = false });
  tar_temp = some 8;
  tar_close_ok = true;
  tar_open_ok = true;
  gzip_ok = true;
  entries =
      record {
        regular = true;
        name = str "GeoLite2-City/LICENSE.txt";
        content = record { data_id = 2; size = 20 };
        broken = false;
      }
      ∷ record {
        regular = true;
        name = str "GeoLite2-City/GeoLite2-City.mmdb";
        content = record { data_id = 3; size = 4000 };
        broken = false;
      }
      ∷ [];
  mmdb_temp = some 9;
  mmdb_close_ok = true;
  opened = some 4;
  rename_ok = true;
  remove_ok = λ n. true;
}

-- ===== src/Tests/Configs.antt =====
-- The theorems on the configuration at concrete inputs.
use speedtest_go.Base.{
  ◌≡◌, ◌≢◌, refl, false, none, some, List, [], ◌∷◌, Str, str, str_eq, if◌then◌else◌, arith,
}
use speedtest_go.Base.Int.{pos, ◌<ℤ◌}
use speedtest_go.Golang.Strconv.{atoi, itoa}
use speedtest_go.Golang.HostPort.{split_host_port, contains}
use speedtest_go.Config.{Config, defaults, set_port, set_duration, clamp}
use speedtest_go.Config.Cli.{CliOpts, cli_str_over, cli_int_over}
use speedtest_go.Config.Json.{JsonConfig, json_str_over, json_int_over}
use speedtest_go.Config.Env.{
  Environ, load, overlay_env, getenv, env_str_over, env_int_over, env_duration_over,
}
use speedtest_go.Config.Sources.{World, decoded, ok, load_with_sources}
use speedtest_go.Config.Layers.{Layers}
use speedtest_go.Config.Range.{IsInRange, load_with_sources-IsInRange}
use speedtest_go.Config.Precedence.{load_with_sources-resolve}
use speedtest_go.Config.Settings.{resolve}
use speedtest_go.Config.Addr.{addr, split_host_port-addr}
use speedtest_go.Config.Durations.{overlay_env-duration_wrapped}
use speedtest_go.Config.Legacy.{Agree, load-overlay_env}
use speedtest_go.Tests.Fixtures.{one_var, cfg_time}

-- A file with one good and one bad number, a port in the environment, and a flag.
abbrev file : JsonConfig
file = record {
  host = none;
  port = some (str "9999");
  mode = none;
  duration_sec = some (pos 20);
  download_mb = some (pos 99_999);
  upload_mb = none;
  streams = none;
  max_concurrent = none;
  warmup_ms = none;
  db_path = none;
  history_retention_days = none;
  rate_per_min = none;
  geoip_db_path = none;
  geoip_license_key = none;
  geoip_edition = none;
}

abbrev world : World
world = record {
  env = one_var "SPEEDTEST_PORT" (str "9000");
  is_file = λ p. str_eq p (str "./speedtest.json");
  read_json = λ p. decoded file;
  join = λ parts. [];
}

abbrev args : List Str
args = str "--streams=8" ∷ []

abbrev cfg : Config
cfg = record cfg_time {
  port = str "9000";
  duration = pos 20_000_000_000;
  streams = pos 8;
  max_concurrent = pos 10;
  db_path = str "./speedtest.db";
  config_file_path = str "./speedtest.json";
}

abbrev opts : CliOpts
opts = record { show_version = false }

loads : load_with_sources args world ≡ ok cfg opts
unfolding load_with_sources cli_str_over set_port env_duration_over cli_int_over env_int_over
    env_str_over json_str_over atoi set_duration json_int_over clamp
loads = refl

load_with_sources-IsInRange_example : IsInRange cfg
load_with_sources-IsInRange_example = load_with_sources-IsInRange args world cfg opts loads

load_with_sources-resolve_example :
    (l : Layers args world cfg opts) × (cfg ≡ resolve world l.cli l.file l.path)
load_with_sources-resolve_example = load_with_sources-resolve args world cfg opts loads

has_port : atoi (str "9000") ≢ none
unfolding atoi
has_port e = cc

split_host_port-addr_example : split_host_port (addr cfg) ≡ some (str "::", str "9000")
unfolding contains
split_host_port-addr_example = split_host_port-addr cfg (refl, refl) has_port

overlay_env-duration_wrapped_example :
    (overlay_env cfg_time (one_var "SPEEDTEST_DURATION" (itoa (pos 10_000_000_000)))).duration
    <ℤ pos 0
unfolding str_eq
overlay_env-duration_wrapped_example =
    overlay_env-duration_wrapped cfg_time (one_var "SPEEDTEST_DURATION" (itoa (pos 10_000_000_000)))
      10_000_000_000 (omega arith) (omega arith) refl

-- A download size above its range.
abbrev environ : Environ
environ key = if str_eq (str key) (str "SPEEDTEST_DOWNLOAD_SIZE") then some (str "20000") else none

load-overlay_env_example : Agree environ (load environ) (overlay_env defaults (getenv environ))
load-overlay_env_example = load-overlay_env environ

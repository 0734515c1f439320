-- ===== src/Config/Env.antt =====
-- The environment: `overlayEnv`, a layer of LoadWithSources, and the older entry point `Load`.
use Prim.Native.String.{String}
use speedtest_go.Base.{Option, none, some, [], Str, str, is_empty, if◌then◌else◌}
use speedtest_go.Base.Int.{ℤ, pos, ltb_ℤ}
use speedtest_go.Golang.Strconv.{atoi}
use speedtest_go.Config.{
  Config, Mode, mode_time, clamp, seconds, parse_mode, set_mode, set_port, set_duration,
}

-- `if v != "" { cfg.X = v }`
unfoldable pub env_str_over : Str → Str → Str
env_str_over v old = if is_empty v then old else v

-- `if v != "" { if n, err := strconv.Atoi(v); err == nil { cfg.X = clamp(n, …, cfg.X) } }`
unfoldable pub env_int_over : Str → ℤ → ℤ → ℤ → ℤ
env_int_over v low high old =
    if is_empty v then old else elim (atoi v) [ none ↦ old | some n ↦ clamp n low high old ]

unfoldable pub env_duration_over : Str → ℤ → ℤ
env_duration_over v old =
    if is_empty v then old else elim (atoi v) [ none ↦ old | some n ↦ set_duration n old ]

unfoldable pub overlay_env : Config → (String → Str) → Config
overlay_env cfg env = record {
  host = env_str_over (env "SPEEDTEST_HOST") cfg.host;
  port = let v = env "SPEEDTEST_PORT" in if is_empty v then cfg.port else set_port v cfg.port;
  mode = let v = env "SPEEDTEST_MODE" in if is_empty v then cfg.mode else set_mode v cfg.mode;
  duration = env_duration_over (env "SPEEDTEST_DURATION") cfg.duration;
  download_mb = env_int_over (env "SPEEDTEST_DOWNLOAD_SIZE") (pos 1) (pos 10240) cfg.download_mb;
  upload_mb = env_int_over (env "SPEEDTEST_UPLOAD_SIZE") (pos 1) (pos 10240) cfg.upload_mb;
  streams = env_int_over (env "SPEEDTEST_STREAMS") (pos 1) (pos 32) cfg.streams;
  max_concurrent =
      env_int_over (env "SPEEDTEST_MAX_CONCURRENT") (pos 1) (pos 100) cfg.max_concurrent;
  warmup_ms = env_int_over (env "SPEEDTEST_WARMUP_MS") (pos 0) (pos 10_000) cfg.warmup_ms;
  db_path = env_str_over (env "SPEEDTEST_DB_PATH") cfg.db_path;
  history_retention_days =
      env_int_over (env "SPEEDTEST_HISTORY_RETENTION_DAYS") (pos 0) (pos 3650)
        cfg.history_retention_days;
  rate_per_min = env_int_over (env "SPEEDTEST_RATE_PER_MIN") (pos 0) (pos 100_000) cfg.rate_per_min;
  config_file_path = cfg.config_file_path;
  geoip_db_path = env_str_over (env "SPEEDTEST_GEOIP_DB") cfg.geoip_db_path;
  geoip_license_key = env_str_over (env "SPEEDTEST_GEOIP_LICENSE_KEY") cfg.geoip_license_key;
  geoip_edition = env_str_over (env "SPEEDTEST_GEOIP_EDITION") cfg.geoip_edition;
}

-- The process environment as `os.LookupEnv` shows it.
abbrev pub Environ : Type 0
Environ = String → Option Str

-- `os.Getenv`: an unset variable reads as the empty text.
unfoldable pub getenv : Environ → String → Str
getenv e key = elim (e key) [ none ↦ [] | some v ↦ v ]

unfoldable pub env_str : Environ → String → Str → Str
unfolding getenv
env_str e key def = let v = getenv e key in if is_empty v then def else v

unfoldable pub env_str_allow_empty : Environ → String → Str → Str
env_str_allow_empty e key def = elim (e key) [ none ↦ def | some v ↦ v ]

unfoldable pub env_port : Environ → String → Str → Str
unfolding getenv
env_port e key def =
    let v = getenv e key in if is_empty v then def else elim (atoi v) [ none ↦ def | some _ ↦ v ]

unfoldable pub env_mode : Environ → String → Mode → Mode
unfolding getenv
env_mode e key def = elim (parse_mode (getenv e key)) [ none ↦ def | some m ↦ m ]

unfoldable pub env_duration : Environ → String → ℤ → ℤ
unfolding getenv
env_duration e key default_secs =
    let v = getenv e key in
    if is_empty v then seconds default_secs else elim (atoi v) [
      | none ↦ seconds default_secs
      | some n ↦ if ltb_ℤ n (pos 1) then seconds default_secs else seconds n
    ]

unfoldable pub env_int : Environ → String → ℤ → ℤ → ℤ → ℤ
unfolding getenv
env_int e key def low high =
    let v = getenv e key in
    if is_empty v then def else elim (atoi v) [
      | none ↦ def
      | some n ↦ if ltb_ℤ n low then def else if ltb_ℤ high n then high else n
    ]

unfoldable pub load : Environ → Config
unfolding env_str env_str_allow_empty env_port env_mode env_duration env_int
load e = record {
  host = env_str e "SPEEDTEST_HOST" (str "::");
  port = env_port e "SPEEDTEST_PORT" (str "8080");
  mode = env_mode e "SPEEDTEST_MODE" mode_time;
  duration = env_duration e "SPEEDTEST_DURATION" (pos 15);
  download_mb = env_int e "SPEEDTEST_DOWNLOAD_SIZE" (pos 25) (pos 1) (pos 10240);
  upload_mb = env_int e "SPEEDTEST_UPLOAD_SIZE" (pos 10) (pos 1) (pos 10240);
  streams = env_int e "SPEEDTEST_STREAMS" (pos 4) (pos 1) (pos 32);
  max_concurrent = env_int e "SPEEDTEST_MAX_CONCURRENT" (pos 10) (pos 1) (pos 100);
  warmup_ms = env_int e "SPEEDTEST_WARMUP_MS" (pos 500) (pos 0) (pos 10_000);
  db_path = env_str_allow_empty e "SPEEDTEST_DB_PATH" (str "./speedtest.db");
  history_retention_days = env_int e "SPEEDTEST_HISTORY_RETENTION_DAYS" (pos 90) (pos 0) (pos 3650);
  rate_per_min = env_int e "SPEEDTEST_RATE_PER_MIN" (pos 0) (pos 0) (pos 100_000);
  config_file_path = env_str_allow_empty e "SPEEDTEST_CONFIG" [];
  geoip_db_path = env_str_allow_empty e "SPEEDTEST_GEOIP_DB" [];
  geoip_license_key = env_str_allow_empty e "SPEEDTEST_GEOIP_LICENSE_KEY" [];
  geoip_edition = env_str e "SPEEDTEST_GEOIP_EDITION" (str "GeoLite2-City");
}

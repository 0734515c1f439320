-- ===== src/Config/Precedence.antt =====
-- The precedence of the layers: the configuration that loads is the one that the layers name.
use speedtest_go.Base.{
  ◌≡◌, refl, ◌∙◌, inl, inr, true, Option, none, some, List, Str, is_empty, arith, Bool-cases,
}
use speedtest_go.Base.Int.{pos}
use speedtest_go.Config.{Config, defaults}
use speedtest_go.Config.Cli.{CliValues, CliOpts, apply_cli}
use speedtest_go.Config.Json.{JsonConfig, json_str_over, json_int_over, apply_json}
use speedtest_go.Config.Env.{overlay_env}
use speedtest_go.Config.Layers.{apply_file, Layers, load_with_sources-Layers}
use speedtest_go.Config.Sources.{
  World, config_path, file_system_search, load_with_sources, overlay_all, ok,
}
use speedtest_go.Config.Settings.{resolve}
use speedtest_go.Config.Stacks.{
  days_stack, duration_stack, edition_stack, int_stack, mode_stack, port_stack, text_stack,
}

path_lem :
    (w : World) (cli : CliValues) (search : List Str → Str) (path : Str)
    → path ≡ config_path cli.config_path w.env w.join search
    → is_empty path ≡ true
    → is_empty (w.env "SPEEDTEST_CONFIG") ≡ true
unfolding config_path
path_lem w cli search path e h = ground arith

-- The echo of the path changes nothing: where no path was found, the variable is empty too.
overlay_all_lem :
    (w : World) (cli : CliValues) (base : Config) (search : List Str → Str)
    → base.config_file_path ≡ config_path cli.config_path w.env w.join search
    → overlay_all w cli base ≡ apply_cli (overlay_env base w.env) cli
unfolding overlay_all apply_cli overlay_env
overlay_all_lem w cli base search e = elim (Bool-cases (is_empty base.config_file_path)) [
  | inr h ↦ rw h
  | inl h ↦ rw (h, path_lem w cli search base.config_file_path e h)
]

resolved :
    (w : World) (cli : CliValues) (file : Option JsonConfig) (path : Str)
    → apply_cli
        (overlay_env (apply_file (record defaults { config_file_path = path }) file) w.env)
        cli
      ≡ resolve w cli file path
unfolding apply_cli overlay_env apply_json json_str_over json_int_over
resolved w cli none path i = record {
  host = text_stack cli.host (w.env "SPEEDTEST_HOST") none defaults.host i;
  port = port_stack cli.port (w.env "SPEEDTEST_PORT") none defaults.port i;
  mode = mode_stack cli.mode (w.env "SPEEDTEST_MODE") none defaults.mode i;
  duration = duration_stack cli.duration_sec (w.env "SPEEDTEST_DURATION") none defaults.duration i;
  download_mb =
      int_stack cli.download_mb (w.env "SPEEDTEST_DOWNLOAD_SIZE") none (pos 1) (pos 10240)
        defaults.download_mb i;
  upload_mb =
      int_stack cli.upload_mb (w.env "SPEEDTEST_UPLOAD_SIZE") none (pos 1) (pos 10240)
        defaults.upload_mb i;
  streams =
      int_stack cli.streams (w.env "SPEEDTEST_STREAMS") none (pos 1) (pos 32) defaults.streams i;
  max_concurrent =
      int_stack cli.max_concurrent (w.env "SPEEDTEST_MAX_CONCURRENT") none (pos 1) (pos 100)
        defaults.max_concurrent i;
  warmup_ms =
      int_stack cli.warmup_ms (w.env "SPEEDTEST_WARMUP_MS") none (pos 0) (pos 10_000)
        defaults.warmup_ms i;
  db_path = text_stack cli.db_path (w.env "SPEEDTEST_DB_PATH") none defaults.db_path i;
  history_retention_days =
      days_stack (w.env "SPEEDTEST_HISTORY_RETENTION_DAYS") none (pos 0) (pos 3650)
        defaults.history_retention_days i;
  rate_per_min =
      int_stack cli.rate_per_min (w.env "SPEEDTEST_RATE_PER_MIN") none (pos 0) (pos 100_000)
        defaults.rate_per_min i;
  config_file_path = path;
  geoip_db_path =
      text_stack cli.geoip_db_path (w.env "SPEEDTEST_GEOIP_DB") none defaults.geoip_db_path i;
  geoip_license_key =
      text_stack cli.geoip_license_key (w.env "SPEEDTEST_GEOIP_LICENSE_KEY") none
        defaults.geoip_license_key i;
  geoip_edition =
      edition_stack cli.geoip_edition (w.env "SPEEDTEST_GEOIP_EDITION") none defaults.geoip_edition
        i;
}
resolved w cli (some fc) path i = record {
  host = text_stack cli.host (w.env "SPEEDTEST_HOST") fc.host defaults.host i;
  port = port_stack cli.port (w.env "SPEEDTEST_PORT") fc.port defaults.port i;
  mode = mode_stack cli.mode (w.env "SPEEDTEST_MODE") fc.mode defaults.mode i;
  duration =
      duration_stack cli.duration_sec (w.env "SPEEDTEST_DURATION") fc.duration_sec defaults.duration
        i;
  download_mb =
      int_stack cli.download_mb (w.env "SPEEDTEST_DOWNLOAD_SIZE") fc.download_mb (pos 1) (pos 10240)
        defaults.download_mb i;
  upload_mb =
      int_stack cli.upload_mb (w.env "SPEEDTEST_UPLOAD_SIZE") fc.upload_mb (pos 1) (pos 10240)
        defaults.upload_mb i;
  streams =
      int_stack cli.streams (w.env "SPEEDTEST_STREAMS") fc.streams (pos 1) (pos 32) defaults.streams
        i;
  max_concurrent =
      int_stack cli.max_concurrent (w.env "SPEEDTEST_MAX_CONCURRENT") fc.max_concurrent (pos 1)
        (pos 100) defaults.max_concurrent i;
  warmup_ms =
      int_stack cli.warmup_ms (w.env "SPEEDTEST_WARMUP_MS") fc.warmup_ms (pos 0) (pos 10_000)
        defaults.warmup_ms i;
  db_path = text_stack cli.db_path (w.env "SPEEDTEST_DB_PATH") fc.db_path defaults.db_path i;
  history_retention_days =
      days_stack (w.env "SPEEDTEST_HISTORY_RETENTION_DAYS") fc.history_retention_days (pos 0)
        (pos 3650) defaults.history_retention_days i;
  rate_per_min =
      int_stack cli.rate_per_min (w.env "SPEEDTEST_RATE_PER_MIN") fc.rate_per_min (pos 0)
        (pos 100_000) defaults.rate_per_min i;
  config_file_path = path;
  geoip_db_path =
      text_stack cli.geoip_db_path (w.env "SPEEDTEST_GEOIP_DB") fc.geoip_db_path
        defaults.geoip_db_path i;
  geoip_license_key =
      text_stack cli.geoip_license_key (w.env "SPEEDTEST_GEOIP_LICENSE_KEY") fc.geoip_license_key
        defaults.geoip_license_key i;
  geoip_edition =
      edition_stack cli.geoip_edition (w.env "SPEEDTEST_GEOIP_EDITION") fc.geoip_edition
        defaults.geoip_edition i;
}

apply_file-path :
    (c : Config) (file : Option JsonConfig)
    → (apply_file c file).config_file_path ≡ c.config_file_path
unfolding apply_json
apply_file-path c none = refl
apply_file-path c (some fc) = refl

-- A configuration that loads is the one that its layers name: each setting has the value of the
-- first of command line, environment and file that gives a valid one, or else its default.
pub load_with_sources-resolve :
    (args : List Str) (w : World) (cfg : Config) (opts : CliOpts)
    → load_with_sources args w ≡ ok cfg opts
    → (l : Layers args w cfg opts) × (cfg ≡ resolve w l.cli l.file l.path)
load_with_sources-resolve args w cfg opts e =
    let l = load_with_sources-Layers args w cfg opts e in
    (
      l,
      l.result
          ∙ overlay_all_lem w l.cli (apply_file _ l.file) (file_system_search w.is_file)
              (apply_file-path _ l.file ∙ l.searched)
          ∙ resolved w l.cli l.file l.path,
    )

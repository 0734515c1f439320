-- ===== src/Config/Cli.antt =====
-- The command line: `parseCLI`, and `applyCLI`, which lays the given flags over the settings.
use speedtest_go.Base.{
  Bool, true, false, ◌&&◌, ◌||◌, not, none, some, List, [], ◌∷◌, Str, str, str_eq, is_empty,
  if◌then◌else◌,
}
use speedtest_go.Base.Int.{ℤ, pos}
use speedtest_go.Golang.Flag
use speedtest_go.Golang.Flag.{
  Formal, FlagError, Settings, string_flag, int_flag, bool_flag, last_value, parse_int_base0,
}
use speedtest_go.Config.{Config, clamp, set_mode, set_port, set_duration}

-- A flag's value, with the bit that says whether it was given.
pub record Given (A : Type 0) : Type 0 where
  pub value : A
  pub given : Bool

pub record CliValues : Type 0 where
  pub config_path : Str
  pub host : Given Str
  pub port : Given Str
  pub mode : Given Str
  pub duration_sec : Given ℤ
  pub streams : Given ℤ
  pub download_mb : Given ℤ
  pub upload_mb : Given ℤ
  pub max_concurrent : Given ℤ
  pub warmup_ms : Given ℤ
  pub db_path : Given Str
  pub rate_per_min : Given ℤ
  pub geoip_db_path : Given Str
  pub geoip_license_key : Given Str
  pub geoip_edition : Given Str

pub record CliOpts : Type 0 where
  pub show_version : Bool

pub data Parsed : Type 0 where
  ok : CliValues → CliOpts → Parsed
  err : FlagError → Parsed

-- The flags that `parseCLI` defines.
abbrev pub flags : Formal
flags =
    (str "config", string_flag)
    ∷ (str "host", string_flag)
    ∷ (str "port", string_flag)
    ∷ (str "mode", string_flag)
    ∷ (str "duration", int_flag)
    ∷ (str "streams", int_flag)
    ∷ (str "download-mb", int_flag)
    ∷ (str "upload-mb", int_flag)
    ∷ (str "max-concurrent", int_flag)
    ∷ (str "warmup-ms", int_flag)
    ∷ (str "db-path", string_flag)
    ∷ (str "rate-per-min", int_flag)
    ∷ (str "geoip-db", string_flag)
    ∷ (str "geoip-license-key", string_flag)
    ∷ (str "geoip-edition", string_flag)
    ∷ (str "version", bool_flag)
    ∷ []

unfoldable pub string_value : Str → Settings → Given Str
unfolding last_value
string_value name settings = elim (last_value name settings) [
  | none ↦ record { value = []; given = false }
  | some v ↦ record { value = v; given = true }
]

unfoldable pub int_value : Str → Settings → Given ℤ
unfolding last_value parse_int_base0
int_value name settings = elim (last_value name settings) [
  | none ↦ record { value = pos 0; given = false }
  | some v ↦ record { value = elim (parse_int_base0 v) [ none ↦ pos 0 | some n ↦ n ]; given = true }
]

is_true_text : Str → Bool
unfolding str_eq
is_true_text v =
    str_eq v (str "1")
    || str_eq v (str "t")
    || str_eq v (str "T")
    || str_eq v (str "TRUE")
    || str_eq v (str "true")
    || str_eq v (str "True")

bool_value : Str → Settings → Bool
unfolding last_value is_true_text
bool_value name settings = elim (last_value name settings) [
  | none ↦ false
  | some v ↦ is_true_text v
]

-- The variables after a parse that made these settings.
unfoldable pub cli_values : Settings → CliValues
unfolding string_value int_value
cli_values settings = record {
  config_path = (string_value (str "config") settings).value;
  host = string_value (str "host") settings;
  port = string_value (str "port") settings;
  mode = string_value (str "mode") settings;
  duration_sec = int_value (str "duration") settings;
  streams = int_value (str "streams") settings;
  download_mb = int_value (str "download-mb") settings;
  upload_mb = int_value (str "upload-mb") settings;
  max_concurrent = int_value (str "max-concurrent") settings;
  warmup_ms = int_value (str "warmup-ms") settings;
  db_path = string_value (str "db-path") settings;
  rate_per_min = int_value (str "rate-per-min") settings;
  geoip_db_path = string_value (str "geoip-db") settings;
  geoip_license_key = string_value (str "geoip-license-key") settings;
  geoip_edition = string_value (str "geoip-edition") settings;
}

unfoldable pub parse_cli : List Str → Parsed
unfolding Flag.parse cli_values bool_value
parse_cli args = elim (Flag.parse flags args) [
  | Flag.Parsed.err e ↦ err e
  | Flag.Parsed.ok settings ↦
      ok (cli_values settings) (record { show_version = bool_value (str "version") settings })
]

-- `if cli.setX { cfg.X = cli.x }`
unfoldable pub cli_str_over : Given Str → Str → Str
cli_str_over v old = if v.given then v.value else old

-- `if cli.setX { cfg.X = clamp(cli.x, …, cfg.X) }`
unfoldable pub cli_int_over : Given ℤ → ℤ → ℤ → ℤ → ℤ
cli_int_over v low high old = if v.given then clamp v.value low high old else old

unfoldable pub apply_cli : Config → CliValues → Config
apply_cli cfg cli = record {
  host = cli_str_over cli.host cfg.host;
  port = if cli.port.given then set_port cli.port.value cfg.port else cfg.port;
  mode = if cli.mode.given then set_mode cli.mode.value cfg.mode else cfg.mode;
  duration =
      if cli.duration_sec.given
      then set_duration cli.duration_sec.value cfg.duration
      else cfg.duration;
  download_mb = cli_int_over cli.download_mb (pos 1) (pos 10240) cfg.download_mb;
  upload_mb = cli_int_over cli.upload_mb (pos 1) (pos 10240) cfg.upload_mb;
  streams = cli_int_over cli.streams (pos 1) (pos 32) cfg.streams;
  max_concurrent = cli_int_over cli.max_concurrent (pos 1) (pos 100) cfg.max_concurrent;
  warmup_ms = cli_int_over cli.warmup_ms (pos 0) (pos 10_000) cfg.warmup_ms;
  db_path = cli_str_over cli.db_path cfg.db_path;
  history_retention_days = cfg.history_retention_days;
  rate_per_min = cli_int_over cli.rate_per_min (pos 0) (pos 100_000) cfg.rate_per_min;
  config_file_path = cfg.config_file_path;
  geoip_db_path = cli_str_over cli.geoip_db_path cfg.geoip_db_path;
  geoip_license_key = cli_str_over cli.geoip_license_key cfg.geoip_license_key;
  geoip_edition =
      if cli.geoip_edition.given && not (is_empty cli.geoip_edition.value)
      then cli.geoip_edition.value
      else cfg.geoip_edition;
}

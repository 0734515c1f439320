-- ===== src/Config.antt =====
-- internal/config/config.go: the settings, their defaults, and the rules by which one layer of
-- the configuration overrides another. Each child is one layer or a group of theorems.
pub mod Cli
pub mod Json
pub mod Env
pub mod Sources
pub mod Layers
pub mod Addr
pub mod Durations
pub mod Legacy
pub mod Range
pub mod Settings
pub mod Stacks
pub mod Precedence
use speedtest_go.Base.{
  ℕ, Bool, ◌||◌, Option, none, some, [], Str, str, str_eq, is_empty, if◌then◌else◌,
}
use speedtest_go.Base.Int.{ℤ, pos, ◌*ℤ◌, ltb_ℤ, wrap64}
use speedtest_go.Golang.Strconv.{atoi}

pub data Mode : Type 0 where
  mode_size mode_time : Mode

pub record Config : Type 0 where
  pub host : Str
  pub port : Str
  pub mode : Mode
  -- time.Duration, in nanoseconds
  pub duration : ℤ
  pub download_mb : ℤ
  pub upload_mb : ℤ
  pub streams : ℤ
  pub max_concurrent : ℤ
  pub warmup_ms : ℤ
  pub db_path : Str
  pub history_retention_days : ℤ
  pub rate_per_min : ℤ
  pub config_file_path : Str
  pub geoip_db_path : Str
  pub geoip_license_key : Str
  pub geoip_edition : Str

-- `time.Duration(n) * time.Second`, in an int64.
unfoldable pub seconds : ℤ → ℤ
seconds n = wrap64 (n *ℤ pos 1_000_000_000)

unfoldable pub defaults : Config
unfolding seconds wrap64 ◌*ℤ◌
defaults = record {
  host = str "::";
  port = str "8080";
  mode = mode_time;
  duration = seconds (pos 15);
  download_mb = pos 25;
  upload_mb = pos 10;
  streams = pos 4;
  max_concurrent = pos 10;
  warmup_ms = pos 500;
  db_path = str "./speedtest.db";
  history_retention_days = pos 90;
  rate_per_min = pos 0;
  config_file_path = [];
  geoip_db_path = [];
  geoip_license_key = [];
  geoip_edition = str "GeoLite2-City";
}

-- A value out of range is dropped for the fallback.
unfoldable pub clamp : ℤ → ℤ → ℤ → ℤ → ℤ
clamp n low high fallback = if ltb_ℤ n low || ltb_ℤ high n then fallback else n

-- `switch Mode(v)`: the two known modes, and none for any other text.
unfoldable pub parse_mode : Str → Option Mode
unfolding str_eq
parse_mode v =
    if str_eq v (str "size")
    then some mode_size
    else if str_eq v (str "time")
    then some mode_time
    else none

-- A mode text that names no mode leaves the mode alone.
unfoldable pub set_mode : Str → Mode → Mode
set_mode v old = elim (parse_mode v) [ none ↦ old | some m ↦ m ]

-- A port is kept as text, and replaced only by a text that `Atoi` accepts.
unfoldable pub set_port : Str → Str → Str
set_port v old = elim (atoi v) [ none ↦ old | some _ ↦ v ]

-- A duration below one second is ignored.
unfoldable pub set_duration : ℤ → ℤ → ℤ
unfolding seconds
set_duration n old = if ltb_ℤ n (pos 1) then old else seconds n

-- ===== src/Config/Json.antt =====
-- The JSON file's values: a field that the file does not set is none.
use speedtest_go.Base.{Option, none, some, Str, is_empty, if◌then◌else◌}
use speedtest_go.Base.Int.{ℤ, pos}
use speedtest_go.Config.{Config, clamp, set_mode, set_port, set_duration}

pub record JsonConfig : Type 0 where
  pub host : Option Str
  pub port : Option Str
  pub mode : Option Str
  pub duration_sec : Option ℤ
  pub download_mb : Option ℤ
  pub upload_mb : Option ℤ
  pub streams : Option ℤ
  pub max_concurrent : Option ℤ
  pub warmup_ms : Option ℤ
  pub db_path : Option Str
  pub history_retention_days : Option ℤ
  pub rate_per_min : Option ℤ
  pub geoip_db_path : Option Str
  pub geoip_license_key : Option Str
  pub geoip_edition : Option Str

-- `if p != nil { cfg.X = *p }`
unfoldable pub json_str_over : Option Str → Str → Str
json_str_over p old = elim p [ none ↦ old | some v ↦ v ]

-- `if p != nil { cfg.X = clamp(*p, …, cfg.X) }`
unfoldable pub json_int_over : Option ℤ → ℤ → ℤ → ℤ → ℤ
json_int_over p low high old = elim p [ none ↦ old | some n ↦ clamp n low high old ]

unfoldable pub apply_json : Config → JsonConfig → Config
apply_json cfg fc = record {
  host = json_str_over fc.host cfg.host;
  port = elim fc.port [ none ↦ cfg.port | some v ↦ set_port v cfg.port ];
  mode = elim fc.mode [ none ↦ cfg.mode | some v ↦ set_mode v cfg.mode ];
  duration = elim fc.duration_sec [ none ↦ cfg.duration | some n ↦ set_duration n cfg.duration ];
  download_mb = json_int_over fc.download_mb (pos 1) (pos 10240) cfg.download_mb;
  upload_mb = json_int_over fc.upload_mb (pos 1) (pos 10240) cfg.upload_mb;
  streams = json_int_over fc.streams (pos 1) (pos 32) cfg.streams;
  max_concurrent = json_int_over fc.max_concurrent (pos 1) (pos 100) cfg.max_concurrent;
  warmup_ms = json_int_over fc.warmup_ms (pos 0) (pos 10_000) cfg.warmup_ms;
  db_path = json_str_over fc.db_path cfg.db_path;
  history_retention_days =
      json_int_over fc.history_retention_days (pos 0) (pos 3650) cfg.history_retention_days;
  rate_per_min = json_int_over fc.rate_per_min (pos 0) (pos 100_000) cfg.rate_per_min;
  config_file_path = cfg.config_file_path;
  geoip_db_path = json_str_over fc.geoip_db_path cfg.geoip_db_path;
  geoip_license_key = json_str_over fc.geoip_license_key cfg.geoip_license_key;
  geoip_edition = elim fc.geoip_edition [
    | none ↦ cfg.geoip_edition
    | some v ↦ if is_empty v then cfg.geoip_edition else v
  ];
}

-- ===== src/Config/Settings.antt =====
-- The settings that the layers of the configuration name: for each, the first layer, from the command
-- line down, that gives a valid value decides, and the default stands where none does.
use Prim.Native.String.{String}
use speedtest_go.Base.{◌&&◌, Option, none, some, List, [], ◌∷◌, Str, is_empty, if◌then◌else◌}
use speedtest_go.Base.Int.{ℤ, pos, leb_ℤ}
use speedtest_go.Golang.Strconv.{atoi}
use speedtest_go.Config.{Config, defaults, seconds, parse_mode}
use speedtest_go.Config.Cli.{Given, CliValues}
use speedtest_go.Config.Json.{JsonConfig}
use speedtest_go.Config.Sources.{World}

module _ {ℓ} {A : Type ℓ} where
  -- The first layer that offers a value decides.
  abbrev pub first_of : List (Option A) → A → A
  first_of [] def = def
  first_of (none ∷ layers) def = first_of layers def
  first_of (some v ∷ layers) def = v

  -- A layer's offer, tested.
  abbrev pub offer {κ} : {B : Type κ} → (B → Option A) → Option B → Option A
  offer valid none = none
  offer valid (some b) = valid b

abbrev pub given_text : Given Str → Option Str
given_text g = if g.given then some g.value else none

abbrev pub given_int : Given ℤ → Option ℤ
given_int g = if g.given then some g.value else none

abbrev pub nonempty : Str → Option Str
nonempty v = if is_empty v then none else some v

abbrev pub in_range : ℤ → ℤ → ℤ → Option ℤ
in_range low high n = if leb_ℤ low n && leb_ℤ n high then some n else none

abbrev pub positive_seconds : ℤ → Option ℤ
positive_seconds n = if leb_ℤ (pos 1) n then some (seconds n) else none

abbrev pub numeric : Str → Option Str
numeric v = elim (atoi v) [ none ↦ none | some _ ↦ some v ]

module _ (w : World) (cli : CliValues) (file : Option JsonConfig) where
  abbrev file_value {ℓ} : {A : Type ℓ} → (JsonConfig → Option A) → Option A
  file_value field = elim file [ none ↦ none | some fc ↦ field fc ]

  abbrev pub int_setting : Given ℤ → String → (JsonConfig → Option ℤ) → ℤ → ℤ → ℤ → ℤ
  int_setting flag key field low high def =
      first_of
        (offer (in_range low high) (given_int flag)
          ∷ offer (in_range low high) (atoi (w.env key))
          ∷ offer (in_range low high) (file_value field)
          ∷ [])
        def

  abbrev pub text_setting : Given Str → String → (JsonConfig → Option Str) → Str → Str
  text_setting flag key field def =
      first_of (given_text flag ∷ nonempty (w.env key) ∷ file_value field ∷ []) def

  -- The settings that the layers name.
  abbrev pub resolve : Str → Config
  resolve path = record {
    host = text_setting cli.host "SPEEDTEST_HOST" (λ fc. fc.host) defaults.host;
    port =
        first_of
          (offer numeric (given_text cli.port)
            ∷ numeric (w.env "SPEEDTEST_PORT")
            ∷ offer numeric (file_value (λ fc. fc.port))
            ∷ [])
          defaults.port;
    mode =
        first_of
          (offer parse_mode (given_text cli.mode)
            ∷ parse_mode (w.env "SPEEDTEST_MODE")
            ∷ offer parse_mode (file_value (λ fc. fc.mode))
            ∷ [])
          defaults.mode;
    duration =
        first_of
          (offer positive_seconds (given_int cli.duration_sec)
            ∷ offer positive_seconds (atoi (w.env "SPEEDTEST_DURATION"))
            ∷ offer positive_seconds (file_value (λ fc. fc.duration_sec))
            ∷ [])
          defaults.duration;
    download_mb =
        int_setting cli.download_mb "SPEEDTEST_DOWNLOAD_SIZE" (λ fc. fc.download_mb) (pos 1)
          (pos 10240) defaults.download_mb;
    upload_mb =
        int_setting cli.upload_mb "SPEEDTEST_UPLOAD_SIZE" (λ fc. fc.upload_mb) (pos 1) (pos 10240)
          defaults.upload_mb;
    streams =
        int_setting cli.streams "SPEEDTEST_STREAMS" (λ fc. fc.streams) (pos 1) (pos 32)
          defaults.streams;
    max_concurrent =
        int_setting cli.max_concurrent "SPEEDTEST_MAX_CONCURRENT" (λ fc. fc.max_concurrent) (pos 1)
          (pos 100) defaults.max_concurrent;
    warmup_ms =
        int_setting cli.warmup_ms "SPEEDTEST_WARMUP_MS" (λ fc. fc.warmup_ms) (pos 0) (pos 10_000)
          defaults.warmup_ms;
    db_path = text_setting cli.db_path "SPEEDTEST_DB_PATH" (λ fc. fc.db_path) defaults.db_path;
    history_retention_days =
        first_of
          (offer (in_range (pos 0) (pos 3650)) (atoi (w.env "SPEEDTEST_HISTORY_RETENTION_DAYS"))
            ∷ offer (in_range (pos 0) (pos 3650)) (file_value (λ fc. fc.history_retention_days))
            ∷ [])
          defaults.history_retention_days;
    rate_per_min =
        int_setting cli.rate_per_min "SPEEDTEST_RATE_PER_MIN" (λ fc. fc.rate_per_min) (pos 0)
          (pos 100_000) defaults.rate_per_min;
    config_file_path = path;
    geoip_db_path =
        text_setting cli.geoip_db_path "SPEEDTEST_GEOIP_DB" (λ fc. fc.geoip_db_path)
          defaults.geoip_db_path;
    geoip_license_key =
        text_setting cli.geoip_license_key "SPEEDTEST_GEOIP_LICENSE_KEY"
          (λ fc. fc.geoip_license_key) defaults.geoip_license_key;
    geoip_edition =
        first_of
          (offer nonempty (given_text cli.geoip_edition)
            ∷ nonempty (w.env "SPEEDTEST_GEOIP_EDITION")
            ∷ offer nonempty (file_value (λ fc. fc.geoip_edition))
            ∷ [])
          defaults.geoip_edition;
  }

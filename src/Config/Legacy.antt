-- ===== src/Config/Legacy.antt =====
-- `Load` against the environment layer of LoadWithSources.
use Prim.Native.String.{String}
use speedtest_go.Base.{
  ◌≡◌, refl, ◌⊎◌, inl, inr, Option, none, some, [], ◌∷◌, Str, arith, Option-cases, Bool-cases,
  is_empty, if◌then◌else◌,
}
use speedtest_go.Base.Int.{ℤ, pos, ◌<ℤ◌, ◌≤ℤ◌, ltb_ℤ}
use speedtest_go.Golang.Strconv.{atoi}
use speedtest_go.Config.{
  Config, Mode, defaults, clamp, parse_mode, set_mode, set_port, set_duration, seconds,
}
use speedtest_go.Config.Env.{
  Environ, getenv, env_str, env_port, env_mode, env_duration, env_int, load, env_str_over,
  env_int_over, env_duration_over, overlay_env,
}

-- Two readings of one number agree, or it lies above the range: then `Load` takes the upper end
-- and the environment layer keeps the default.
abbrev ReadsNumber : Option ℤ → ℤ → ℤ → ℤ → ℤ → Type 0
ReadsNumber o high def loaded layered =
    (loaded ≡ layered) ⊎ ((n : ℤ) × (o ≡ some n) × (high <ℤ n) × (loaded ≡ high) × (layered ≡ def))

abbrev pub Reads : Str → ℤ → ℤ → ℤ → ℤ → Type 0
Reads v = ReadsNumber (atoi v)

read_int_some :
    (n def low high : ℤ)
    → low ≤ℤ high
    → ReadsNumber
        (some n)
        high
        def
        (if ltb_ℤ n low then def else if ltb_ℤ high n then high else n)
        (clamp n low high def)
unfolding clamp
read_int_some n def low high h = elim (Bool-cases (ltb_ℤ high n)) [
  | inl above ↦ inr (n, refl, ground arith, ground arith, ground arith)
  | inr inside ↦ inl (ground arith)
]

read_int :
    (e : Environ) (key : String) (def low high : ℤ)
    → low ≤ℤ high
    → Reads
        (getenv e key)
        high
        def
        (env_int e key def low high)
        (env_int_over (getenv e key) low high def)
unfolding env_int env_int_over
read_int e key def low high h = elim (Bool-cases (is_empty (getenv e key))) [
  | inl unset ↦ inl (rw unset)
  | inr text ↦ elim (Option-cases (atoi (getenv e key))) [
    | inl bad ↦ inl (rw (text, bad))
    | inr (n, good) ↦ rw text (rw good (read_int_some n def low high h))
  ]
]

-- What the two entry points make of one environment: the same texts and the same duration where
-- the text variables are not set to the empty text, and the same numbers up to `Reads`.
pub record Agree (e : Environ) (loaded layered : Config) : Type 0 where
  pub host : loaded.host ≡ layered.host
  pub port : loaded.port ≡ layered.port
  pub mode : loaded.mode ≡ layered.mode
  pub duration : loaded.duration ≡ layered.duration
  pub geoip_edition : loaded.geoip_edition ≡ layered.geoip_edition
  pub download_mb :
      Reads
        (getenv e "SPEEDTEST_DOWNLOAD_SIZE")
        (pos 10240)
        (pos 25)
        loaded.download_mb
        layered.download_mb
  pub upload_mb :
      Reads
        (getenv e "SPEEDTEST_UPLOAD_SIZE")
        (pos 10240)
        (pos 10)
        loaded.upload_mb
        layered.upload_mb
  pub streams : Reads (getenv e "SPEEDTEST_STREAMS") (pos 32) (pos 4) loaded.streams layered.streams
  pub max_concurrent :
      Reads
        (getenv e "SPEEDTEST_MAX_CONCURRENT")
        (pos 100)
        (pos 10)
        loaded.max_concurrent
        layered.max_concurrent
  pub warmup_ms :
      Reads
        (getenv e "SPEEDTEST_WARMUP_MS")
        (pos 10_000)
        (pos 500)
        loaded.warmup_ms
        layered.warmup_ms
  pub history_retention_days :
      Reads
        (getenv e "SPEEDTEST_HISTORY_RETENTION_DAYS")
        (pos 3650)
        (pos 90)
        loaded.history_retention_days
        layered.history_retention_days
  pub rate_per_min :
      Reads
        (getenv e "SPEEDTEST_RATE_PER_MIN")
        (pos 100_000)
        (pos 0)
        loaded.rate_per_min
        layered.rate_per_min

port_lem :
    (e : Environ) (key : String) (def : Str)
    → env_port e key def ≡ (let v = getenv e key in if is_empty v then def else set_port v def)
unfolding env_port set_port
port_lem e key def = ground arith

mode_lem :
    (e : Environ) (key : String) (def : Mode)
    → env_mode e key def ≡ (let v = getenv e key in if is_empty v then def else set_mode v def)
unfolding env_mode set_mode parse_mode
mode_lem e key def = by_text (getenv e key)
  where
    by_text :
        (v : Str)
        → (elim (parse_mode v) [ none ↦ def | some m ↦ m ])
          ≡ (if is_empty v then def else set_mode v def)
    by_text [] = refl
    by_text (b ∷ v) = refl

duration_lem :
    (e : Environ) (key : String) (n : ℤ)
    → env_duration e key n ≡ env_duration_over (getenv e key) (seconds n)
unfolding env_duration env_duration_over set_duration
duration_lem e key n = ground arith

-- `Load` and the environment layer over the defaults agree on host, port, mode, duration and
-- edition for every environment. They differ in one way on the numbers: one above its range is cut
-- to the upper end by `Load`, and dropped for the default by the layer.
pub load-overlay_env : (e : Environ) → Agree e (load e) (overlay_env defaults (getenv e))
unfolding load overlay_env env_str env_str_over defaults
load-overlay_env e = record {
  host = refl;
  port = port_lem e _ _;
  mode = mode_lem e _ _;
  duration = duration_lem e _ (pos 15);
  geoip_edition = refl;
  download_mb = read_int e _ _ (pos 1) _ (omega arith);
  upload_mb = read_int e _ _ (pos 1) _ (omega arith);
  streams = read_int e _ _ (pos 1) _ (omega arith);
  max_concurrent = read_int e _ _ (pos 1) _ (omega arith);
  warmup_ms = read_int e _ _ (pos 0) _ (omega arith);
  history_retention_days = read_int e _ _ (pos 0) _ (omega arith);
  rate_per_min = read_int e _ _ (pos 0) _ (omega arith);
}

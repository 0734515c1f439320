-- ===== src/Config/Range.antt =====
-- The ranges that every layer of the configuration keeps.
use speedtest_go.Base.{
  ◌≡◌, sym, subst, ◌≢◌, inl, inr, Bool, true, false, Option, none, some, List, [], ◌∷◌, Str,
  if◌then◌else◌, arith, Option-cases,
}
use speedtest_go.Base.Int.{ℤ, pos, ◌≤ℤ◌}
use speedtest_go.Golang.Strconv.{atoi}
use speedtest_go.Config.{Config, defaults, clamp, set_port}
use speedtest_go.Config.Cli.{Given, CliValues, CliOpts, cli_int_over, apply_cli}
use speedtest_go.Config.Json.{JsonConfig, json_int_over, apply_json}
use speedtest_go.Config.Env.{env_int_over, overlay_env}
use speedtest_go.Config.Layers.{apply_file, load_with_sources-Layers}
use speedtest_go.Config.Sources.{World, overlay_all, load_with_sources, ok}

abbrev pub Within : ℤ → ℤ → ℤ → Type 0
Within low high n = (low ≤ℤ n) × (n ≤ℤ high)

-- The sizes, the streams, the tests at once, the warm-up, the days of history and the rate lie in the
-- range of the clamping, and the port reads as a number. Of the duration nothing is said.
pub record IsInRange (c : Config) : Type 0 where
  pub port : atoi c.port ≢ none
  pub download_mb : Within (pos 1) (pos 10240) c.download_mb
  pub upload_mb : Within (pos 1) (pos 10240) c.upload_mb
  pub streams : Within (pos 1) (pos 32) c.streams
  pub max_concurrent : Within (pos 1) (pos 100) c.max_concurrent
  pub warmup_ms : Within (pos 0) (pos 10_000) c.warmup_ms
  pub history_retention_days : Within (pos 0) (pos 3650) c.history_retention_days
  pub rate_per_min : Within (pos 0) (pos 100_000) c.rate_per_min

clamp-Within : (n low high old : ℤ) → Within low high old → Within low high (clamp n low high old)
unfolding clamp
clamp-Within n low high old h = ground arith

set_port-ne-none : (v old : Str) → atoi old ≢ none → atoi (set_port v old) ≢ none
unfolding set_port
set_port-ne-none v old h = elim (Option-cases (atoi v)) [
  | inl e ↦ rw (e, set_port) h
  | inr (n, e) ↦ rw (e, set_port) (λ q. cc)
]

defaults-IsInRange : IsInRange defaults
unfolding defaults atoi
defaults-IsInRange = record {
  port = λ e. cc;
  download_mb = omega arith;
  upload_mb = omega arith;
  streams = omega arith;
  max_concurrent = omega arith;
  warmup_ms = omega arith;
  history_retention_days = omega arith;
  rate_per_min = omega arith;
}

json_int-Within :
    (p : Option ℤ) (low high old : ℤ)
    → Within low high old
    → Within low high (json_int_over p low high old)
unfolding json_int_over
json_int-Within none low high old h = h
json_int-Within (some n) low high old h = clamp-Within n low high old h

json_port-ne-none :
    (p : Option Str) (old : Str)
    → atoi old ≢ none
    → atoi (elim p [ none ↦ old | some v ↦ set_port v old ]) ≢ none
json_port-ne-none none old h = h
json_port-ne-none (some v) old h = set_port-ne-none v old h

apply_json-IsInRange : (c : Config) (fc : JsonConfig) → IsInRange c → IsInRange (apply_json c fc)
unfolding apply_json
apply_json-IsInRange c fc h = record {
  port = json_port-ne-none fc.port c.port h.port;
  download_mb = json_int-Within fc.download_mb _ _ _ h.download_mb;
  upload_mb = json_int-Within fc.upload_mb _ _ _ h.upload_mb;
  streams = json_int-Within fc.streams _ _ _ h.streams;
  max_concurrent = json_int-Within fc.max_concurrent _ _ _ h.max_concurrent;
  warmup_ms = json_int-Within fc.warmup_ms _ _ _ h.warmup_ms;
  history_retention_days = json_int-Within fc.history_retention_days _ _ _ h.history_retention_days;
  rate_per_min = json_int-Within fc.rate_per_min _ _ _ h.rate_per_min;
}

env_int_over-Within :
    (v : Str) (low high old : ℤ)
    → Within low high old
    → Within low high (env_int_over v low high old)
unfolding env_int_over
env_int_over-Within [] low high old h = h
env_int_over-Within (b ∷ v) low high old h = elim (Option-cases (atoi (b ∷ v))) [
  | inl e ↦ rw (e, env_int_over) h
  | inr (n, e) ↦ rw (e, env_int_over) (clamp-Within n low high old h)
]

if_port-ne-none :
    (b : Bool) (x y : Str) → atoi x ≢ none → atoi y ≢ none → atoi (if b then x else y) ≢ none
if_port-ne-none true x y hx hy = hx
if_port-ne-none false x y hx hy = hy

overlay_env-IsInRange : (c : Config) (w : World) → IsInRange c → IsInRange (overlay_env c w.env)
unfolding overlay_env
overlay_env-IsInRange c w h = record {
  port = if_port-ne-none _ _ _ h.port (set_port-ne-none _ c.port h.port);
  download_mb = env_int_over-Within _ _ _ _ h.download_mb;
  upload_mb = env_int_over-Within _ _ _ _ h.upload_mb;
  streams = env_int_over-Within _ _ _ _ h.streams;
  max_concurrent = env_int_over-Within _ _ _ _ h.max_concurrent;
  warmup_ms = env_int_over-Within _ _ _ _ h.warmup_ms;
  history_retention_days = env_int_over-Within _ _ _ _ h.history_retention_days;
  rate_per_min = env_int_over-Within _ _ _ _ h.rate_per_min;
}

cli_int_over-Within :
    (v : Given ℤ) (low high old : ℤ)
    → Within low high old
    → Within low high (cli_int_over v low high old)
unfolding cli_int_over
cli_int_over-Within v low high old h = ground (arith, clamp-Within v.value low high old h)

apply_cli-IsInRange : (c : Config) (cli : CliValues) → IsInRange c → IsInRange (apply_cli c cli)
unfolding apply_cli
apply_cli-IsInRange c cli h = record {
  port = if_port-ne-none cli.port.given _ _ (set_port-ne-none _ c.port h.port) h.port;
  download_mb = cli_int_over-Within cli.download_mb _ _ _ h.download_mb;
  upload_mb = cli_int_over-Within cli.upload_mb _ _ _ h.upload_mb;
  streams = cli_int_over-Within cli.streams _ _ _ h.streams;
  max_concurrent = cli_int_over-Within cli.max_concurrent _ _ _ h.max_concurrent;
  warmup_ms = cli_int_over-Within cli.warmup_ms _ _ _ h.warmup_ms;
  history_retention_days = h.history_retention_days;
  rate_per_min = cli_int_over-Within cli.rate_per_min _ _ _ h.rate_per_min;
}

with_path-IsInRange :
    (c : Config) (path : Str) → IsInRange c → IsInRange (record c { config_file_path = path })
with_path-IsInRange c path h = record {
  port = h.port;
  download_mb = h.download_mb;
  upload_mb = h.upload_mb;
  streams = h.streams;
  max_concurrent = h.max_concurrent;
  warmup_ms = h.warmup_ms;
  history_retention_days = h.history_retention_days;
  rate_per_min = h.rate_per_min;
}

if-IsInRange :
    (b : Bool) (c d : Config) → IsInRange c → IsInRange d → IsInRange (if b then c else d)
if-IsInRange true c d hc hd = hc
if-IsInRange false c d hc hd = hd

overlay_all-IsInRange :
    (w : World) (cli : CliValues) (c : Config) → IsInRange c → IsInRange (overlay_all w cli c)
unfolding overlay_all
overlay_all-IsInRange w cli c h =
    let top = apply_cli-IsInRange _ cli (overlay_env-IsInRange c w h) in
    if-IsInRange _ _ _ (if-IsInRange _ _ _ top (with_path-IsInRange _ _ top)) top

apply_file-IsInRange :
    (c : Config) (file : Option JsonConfig) → IsInRange c → IsInRange (apply_file c file)
apply_file-IsInRange c none h = h
apply_file-IsInRange c (some fc) h = apply_json-IsInRange c fc h

-- Whatever the arguments, the environment and the file hold, a configuration that loads has 1 to 10240
-- MB for either direction, 1 to 32 streams, 1 to 100 tests at once, 0 to 10000 ms of warm-up, 0 to
-- 3650 days of history and 0 to 100000 requests a minute, and its port reads as a number, of any size.
-- The duration is left out.
pub load_with_sources-IsInRange :
    (args : List Str) (w : World) (cfg : Config) (opts : CliOpts)
    → load_with_sources args w ≡ ok cfg opts
    → IsInRange cfg
load_with_sources-IsInRange args w cfg opts e =
    let l = load_with_sources-Layers args w cfg opts e in
    subst IsInRange (sym l.result) (
      overlay_all-IsInRange w l.cli _
        (apply_file-IsInRange _ l.file (with_path-IsInRange defaults l.path defaults-IsInRange)))

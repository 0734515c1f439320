-- ===== src/Server/Startup.antt =====
-- main.go: what `main` opens before it serves, over any store.
pub mod Pruning
pub mod Offline
use speedtest_go.Base.{
  ℕ, ◌/◌, Bool, true, false, Option, none, some, [], ◌∷◌, ◌++◌, Str, str, is_empty, if◌then◌else◌,
}
use speedtest_go.Base.Int.{ℤ, pos, negsuc, ltb_ℤ, ◌+ℤ◌, ◌-ℤ◌, ◌*ℤ◌, wrap64}
use speedtest_go.Golang.Flag.{FlagError, err_help, err_flag}
use speedtest_go.Config.{Config}
use speedtest_go.Config.Addr.{addr}
use speedtest_go.Config.Cli.{CliOpts}
use speedtest_go.Config.Sources.{Loaded, ok, err_flags, err_file}
use speedtest_go.Store.{Store}
use speedtest_go.Geoip.Updater.{UpdaterConfig, new_updater}
use speedtest_go.Handler.State.{Handler, BuildInfo, new}
use speedtest_go.Server.Logging.{idle_timeout}

-- `t.UnixMilli()` of a time in nanoseconds
abbrev unix_milli : ℤ → ℤ
unix_milli (pos n) = pos (n / 1_000_000)
unix_milli (negsuc n) = negsuc (n / 1_000_000)

-- `time.Now().Add(-time.Duration(days) * 24 * time.Hour).UnixMilli()`
unfoldable pub cutoff : (now : ℕ) → (days : ℤ) → ℤ
unfolding ◌+ℤ◌ ◌-ℤ◌ ◌*ℤ◌ wrap64
cutoff now days =
    let back = wrap64 (wrap64 ((pos 0 -ℤ days) *ℤ pos 24) *ℤ pos 3_600_000_000_000) in
    unix_milli (pos now +ℤ back)

-- The file of the updater where the configuration names none.
unfoldable pub target_path : Config → Str
target_path cfg =
    if is_empty cfg.geoip_db_path
    then str "./" ++ (cfg.geoip_edition ++ str ".mmdb")
    else cfg.geoip_db_path

unfoldable pub updater_of : Config → Option UpdaterConfig
unfolding new_updater target_path
updater_of cfg =
    if is_empty cfg.geoip_license_key
    then none
    else new_updater (record {
      license_key = cfg.geoip_license_key;
      edition = cfg.geoip_edition;
      target_path = target_path cfg;
      refresh_interval = pos 0;
    })

-- `http.Server`; times are in nanoseconds, and 0 is no limit.
pub record HttpServer : Type 0 where
  pub addr : Str
  pub read_header_timeout : ℤ
  pub read_timeout : ℤ
  pub write_timeout : ℤ
  pub idle_timeout : ℤ

unfoldable pub http_server : Config → HttpServer
unfolding addr idle_timeout
http_server cfg = record {
  addr = addr cfg;
  read_header_timeout = pos 30_000_000_000;
  read_timeout = pos 0;
  write_timeout = pos 0;
  idle_timeout = idle_timeout cfg.duration;
}

-- How `main` goes on after it has loaded the configuration.
pub data Outcome : Type 0 where
  exit : ℕ → Outcome
  serve : Config → Outcome

unfoldable pub main_outcome : Loaded → Outcome
main_outcome (ok cfg opts) = if opts.show_version then exit 0 else serve cfg
main_outcome (err_flags err_help) = exit 0
main_outcome (err_flags err_flag) = exit 2
main_outcome (err_file e) = exit 2

module _ (db : Store) where
  -- What the machine answers: `store.Open` and `geoip.Open` of a path, none for an error, and the
  -- clock in nanoseconds.
  pub record Machine : Type 0 where
    pub open_store : Str → Option db.State
    pub open_geo : Str → Option ℕ
    pub now : ℕ

  pub record Started : Type 0 where
    pub history : Option db.State
    pub geo : Option ℕ
    pub handler : Handler
    pub updater : Option UpdaterConfig
    pub server : HttpServer

  opened_history : Config → ℕ → Option db.State → Option db.State
  opened_history cfg now none = none
  opened_history cfg now (some d) =
      if ltb_ℤ (pos 0) cfg.history_retention_days
      then some (db.prune_older_than d (cutoff now cfg.history_retention_days)).1
      else some d

  unfoldable pub history : Config → Machine → Option db.State
  unfolding opened_history
  history cfg m =
      if is_empty cfg.db_path then none else opened_history cfg m.now (m.open_store cfg.db_path)

  has_state : Option db.State → Bool
  has_state none = false
  has_state (some d) = true

  -- The start of `main`; `build` holds the variables that the linker sets.
  unfoldable pub start : BuildInfo → Config → Machine → Started
  unfolding history has_state updater_of http_server new
  start build cfg m = record {
    history = history cfg m;
    geo = if is_empty cfg.geoip_db_path then none else m.open_geo cfg.geoip_db_path;
    handler = record (new cfg (has_state (history cfg m)) m.now) { build = build };
    updater = updater_of cfg;
    server = http_server cfg;
  }

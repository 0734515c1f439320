-- ===== src/Config/Sources.antt =====
-- `LoadWithSources`: the search for a config file, and the layers laid over one another.
use Prim.Native.String.{String}
use speedtest_go.Base.{Bool, Option, none, some, List, [], ◌∷◌, Str, str, is_empty, if◌then◌else◌}
use speedtest_go.Golang.Flag.{FlagError}
use speedtest_go.Config.{Config, defaults}
use speedtest_go.Config.Cli.{CliValues, CliOpts, parse_cli, apply_cli}
use speedtest_go.Config.Cli
use speedtest_go.Config.Json.{JsonConfig, apply_json}
use speedtest_go.Config.Env.{overlay_env}

-- What `readJSONFile` gives: the file's values, or an error of opening or decoding it.
pub data FileResult : Type 0 where
  decoded : JsonConfig → FileResult
  unreadable : FileResult

-- The outside world as the loader sees it. `is_file` is `os.Stat` without an error on what is no
-- directory; `read_json` opens and decodes a file; `join` is `filepath.Join`.
pub record World : Type 0 where
  pub env : String → Str
  pub is_file : Str → Bool
  pub read_json : Str → FileResult
  pub join : List Str → Str

-- `fileSystemSearch`: the first candidate that is a file.
unfoldable pub file_system_search : (Str → Bool) → List Str → Str
file_system_search is_file [] = []
file_system_search is_file (p ∷ candidates) =
    let rest = file_system_search is_file candidates in
    if is_empty p then rest else if is_file p then p else rest

unfoldable pub xdg_config_path : (String → Str) → (List Str → Str) → Str
xdg_config_path env join =
    let xdg = env "XDG_CONFIG_HOME" in
    let home = env "HOME" in
    if is_empty xdg
    then if is_empty home
      then []
      else join (home ∷ str ".config" ∷ str "speedtest" ∷ str "config.json" ∷ [])
    else join (xdg ∷ str "speedtest" ∷ str "config.json" ∷ [])

unfoldable pub config_path : Str → (String → Str) → (List Str → Str) → (List Str → Str) → Str
unfolding xdg_config_path
config_path cli_path env join search =
    let p = env "SPEEDTEST_CONFIG" in
    if is_empty cli_path
    then if is_empty p
      then search (
          str "./speedtest.json" ∷ xdg_config_path env join ∷ str "/etc/speedtest/config.json" ∷ [])
      else p
    else cli_path

pub data Loaded : Type 0 where
  ok : Config → CliOpts → Loaded
  err_flags : FlagError → Loaded
  err_file : Str → Loaded

-- The layers above the file, and the path that is echoed back.
unfoldable pub overlay_all : World → CliValues → Config → Config
unfolding overlay_env apply_cli
overlay_all w cli base =
    let cfg = apply_cli (overlay_env base w.env) cli in
    let v = w.env "SPEEDTEST_CONFIG" in
    if is_empty cfg.config_file_path
    then if is_empty v then cfg else record cfg { config_file_path = v }
    else cfg

unfoldable pub load_file : World → Str → Config → Option Config
unfolding apply_json
load_file w path cfg =
    if is_empty path
    then some cfg
    else elim (w.read_json path) [ unreadable ↦ none | decoded fc ↦ some (apply_json cfg fc) ]

unfoldable pub load_parsed : World → CliValues → CliOpts → Loaded
unfolding load_file overlay_all config_path file_system_search defaults
load_parsed w cli opts =
    let path = config_path cli.config_path w.env w.join (file_system_search w.is_file) in
    elim (load_file w path (record defaults { config_file_path = path })) [
      | none ↦ err_file path
      | some base ↦ ok (overlay_all w cli base) opts
    ]

unfoldable pub load_with_sources : List Str → World → Loaded
unfolding parse_cli load_parsed
load_with_sources args w = elim (parse_cli args) [
  | Cli.Parsed.err e ↦ err_flags e
  | Cli.Parsed.ok cli opts ↦ load_parsed w cli opts
]

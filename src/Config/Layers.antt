-- ===== src/Config/Layers.antt =====
-- What a successful load is made of: the layers that were found, laid over the defaults.
use speedtest_go.Base.{
  ◌≡◌, refl, sym, ◌∙◌, ap, Option, none, some, List, [], ◌∷◌, Str, is_empty, if◌then◌else◌, arith,
}
use speedtest_go.Config.{Config, defaults}
use speedtest_go.Config.Cli
use speedtest_go.Config.Cli.{CliValues, CliOpts, parse_cli}
use speedtest_go.Config.Json.{JsonConfig, apply_json}
use speedtest_go.Config.Sources.{
  World, FileResult, decoded, unreadable, ok, config_path, file_system_search, load_file,
  overlay_all, load_parsed, load_with_sources,
}

-- A file that was not looked for, or that was read.
abbrev pub apply_file : Config → Option JsonConfig → Config
apply_file c none = c
apply_file c (some fc) = apply_json c fc

-- The file layer at a path: none where the file cannot be read, and no layer at the empty path.
abbrev read_result : FileResult → Option (Option JsonConfig)
read_result unreadable = none
read_result (decoded fc) = some (some fc)

abbrev pub file_layer : World → Str → Option (Option JsonConfig)
file_layer w path = if is_empty path then some none else read_result (w.read_json path)

load_file_layer :
    (w : World) (path : Str) (c d : Config)
    → load_file w path c ≡ some d
    → (file : Option JsonConfig) × (d ≡ apply_file c file) × (file_layer w path ≡ some file)
unfolding load_file
load_file_layer w [] c d e = (none, ground arith, refl)
load_file_layer w (b ∷ path) c d e = read (w.read_json (b ∷ path)) refl
  where
    read :
        (r : FileResult)
        → w.read_json (b ∷ path) ≡ r
        → (file : Option JsonConfig) × (d ≡ apply_file c file)
          × (read_result (w.read_json (b ∷ path)) ≡ some file)
    read unreadable q = absurd (cc (rw (q, load_file) at e))
    read (decoded fc) q = (some fc, cc (rw (q, load_file) at e), ap read_result q)

pub record Layers (args : List Str) (w : World) (cfg : Config) (opts : CliOpts) : Type 0 where
  pub cli : CliValues
  pub parsed : parse_cli args ≡ Cli.Parsed.ok cli opts
  pub path : Str
  pub searched : path ≡ config_path cli.config_path w.env w.join (file_system_search w.is_file)
  pub file : Option JsonConfig
  pub read : file_layer w path ≡ some file
  pub result :
      cfg ≡ overlay_all w cli (apply_file (record defaults { config_file_path = path }) file)

ok-injective : (c d : Config) (o p : CliOpts) → ok c o ≡ ok d p → (c ≡ d) × (o ≡ p)
ok-injective c d o p e = (cc, cc)

cli_ok-injective :
    (c d : CliValues) (o p : CliOpts) → Cli.Parsed.ok c o ≡ Cli.Parsed.ok d p → (c ≡ d) × (o ≡ p)
cli_ok-injective c d o p e = (cc, cc)

load_parsed-Layers :
    (args : List Str) (w : World) (cli : CliValues) (opts opts' : CliOpts) (cfg : Config)
    → parse_cli args ≡ Cli.Parsed.ok cli opts
    → load_parsed w cli opts ≡ ok cfg opts'
    → Layers args w cfg opts'
unfolding load_parsed
load_parsed-Layers args w cli opts opts' cfg p e = build (load_file w path base) refl
  where
    path : Str
    path = config_path cli.config_path w.env w.join (file_system_search w.is_file)

    base : Config
    base = record defaults { config_file_path = path }

    build : (r : Option Config) → load_file w path base ≡ r → Layers args w cfg opts'
    build none q = absurd (cc (rw (q, load_parsed) at e))
    build (some d) q =
        let (file, made, read) = load_file_layer w path base d q in
        let same = ok-injective (overlay_all w cli d) cfg opts opts' (rw (q, load_parsed) at e) in
        record {
          cli = cli;
          parsed = p ∙ ap (Cli.Parsed.ok cli) same.1;
          path = path;
          searched = refl;
          file = file;
          read = read;
          result = sym same.0 ∙ ap (overlay_all w cli) made;
        }

-- Every successful load has its layers.
pub load_with_sources-Layers :
    (args : List Str) (w : World) (cfg : Config) (opts : CliOpts)
    → load_with_sources args w ≡ ok cfg opts
    → Layers args w cfg opts
unfolding load_with_sources
load_with_sources-Layers args w cfg opts e = by_parse (parse_cli args) refl
  where
    by_parse : (r : Cli.Parsed) → parse_cli args ≡ r → Layers args w cfg opts
    by_parse (Cli.Parsed.err x) q = absurd (cc (rw (q, load_with_sources) at e))
    by_parse (Cli.Parsed.ok cli o) q =
        load_parsed-Layers args w cli o opts cfg q (rw (q, load_with_sources) at e)

-- ===== src/Tests/Refresh.antt =====
-- The theorems on the updater at concrete cycles and at a request.
use speedtest_go.Base.{List, none, ◌≡◌, refl, true, some, [], ◌∷◌, ◌++◌, Str, str, arith}
use speedtest_go.Base.Int.{pos}
use speedtest_go.Geoip.Updater.{tick, UpdaterConfig}
use speedtest_go.Geoip.Updater.Run.{Turn, Wake, done, ticked, in_entry, panicked, tick_safe, run}
use speedtest_go.Geoip.Updater.Run.Follows.{turns, Follows, run-Follows}
use speedtest_go.Geoip.Updater.Request.{
  download_host_default, trim_right_slash, parameters, bundle_request,
}
use speedtest_go.Geoip.Updater.Request.Query.{read_query, bundle_request-read}
use speedtest_go.Tests.Fixtures.{disk, answers}
use speedtest_go.Geoip.Updater.Safety.{Ends, tick_lem}

tick_lem_example :
    ((tick answers true disk).disk.temps ≡ 7 ∷ [])
    × Ends (some (record { data_id = 1; size = 10 })) true (tick answers true disk)
tick_lem_example =
    tick_lem answers true disk
      (record { tar = (refl, tt); mmdb = (refl, tt); apart = refl; removes = λ n. refl })

-- A cycle that panics in the copy of the entry, then one that goes through, then the end.
abbrev stopped_short : Turn
stopped_short = record { answers = answers; panic = some in_entry }

abbrev through : Turn
through = record { answers = record answers { mmdb_temp = some 11 }; panic = none }

abbrev wakes : List Wake
wakes = ticked through ∷ done ∷ ticked through ∷ []

run-Follows_example :
    Follows true disk (stopped_short ∷ turns wakes) (run true disk stopped_short wakes)
unfolding tick_safe panicked turns
run-Follows_example = run-Follows true disk stopped_short wakes (
  record { tar = (refl, tt); mmdb = (refl, tt); apart = refl; removes = λ n. refl },
  (
    record {
      tar = (refl, (refl, tt));
      mmdb = (refl, (refl, tt));
      apart = refl;
      removes = λ n. refl;
    },
    tt,
  ),
)

-- A key that would be another parameter if it were written as it is.
abbrev odd : UpdaterConfig
odd = record {
  license_key = str "k&suffix=x";
  edition = str "City";
  target_path = str "./City.mmdb";
  refresh_interval = pos 1;
}

bundle_request-read_example :
    (query : Str) × ((bundle_request odd download_host_default (some 5)).url
      ≡ trim_right_slash download_host_default ++ (str "/app/geoip_download?" ++ query))
    × (read_query 2 query ≡ some (parameters odd))
bundle_request-read_example =
    bundle_request-read odd download_host_default (some 5) (ground arith) (ground arith)

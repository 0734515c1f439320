-- ===== src/Tests/Lives.antt =====
-- The theorems on the life of a process at concrete inputs.
use speedtest_go.Base.{
  ℕ, ◌+◌, ◌≡◌, ◌≤◌, length, refl, true, false, none, some, List, [], ◌∷◌, ◌++◌, str,
}
use speedtest_go.Base.Int.{pos}
use speedtest_go.Config.{Config}
use speedtest_go.Handler.State.{BuildInfo}
use speedtest_go.Handler.Geoip.{geoip_enabled}
use speedtest_go.Handler.Geoip.Lifetime.{count}
use speedtest_go.Geoip.Updater.{Answers}
use speedtest_go.Geoip.Updater.Run.{Turn, in_body, tick_safe}
use speedtest_go.Server.Lifecycle.{Event, cycle, shutdown, run, launched}
use speedtest_go.Server.Lifecycle.Handles.{panics, run-closed}
use speedtest_go.Server.Startup.{Machine, updater_of, start}
use speedtest_go.Server.Shutdown as Shutdown
use speedtest_go.Server.Shutdown.{Process, serving, Reach, here, next}
use speedtest_go.Server.Shutdown.Order.{InOrder, Reach-InOrder}
use speedtest_go.Handler.Geoip.{empty_slot}
use speedtest_go.Store.{Store}
use speedtest_go.Server.Startup.Offline.{start-geo_off}
use speedtest_go.Tests.Fixtures.{cfg_time, disk, answers}

abbrev first : List Event
first = cycle (record { answers = answers; panic = none }) ∷ []

run-closed_example :
    (count 4 (run (launched disk (some 3)) (first ++ shutdown ∷ [])).slot.closes
        + count 4 (run (launched disk (some 3)) (first ++ shutdown ∷ [])).closed
      ≡ count 4 (run (launched disk (some 3)) (first ++ shutdown ∷ [])).opened)
    × ((run (launched disk (some 3)) (first ++ shutdown ∷ [])).slot.current ≡ none)
    × (length (run (launched disk (some 3)) (first ++ shutdown ∷ [])).disk.temps
        ≤ length disk.temps + panics (first ++ shutdown ∷ []))
unfolding run launched tick_safe
run-closed_example =
    run-closed disk (some 3) first [] 4
      (record { tar = (refl, tt); mmdb = (refl, tt); apart = refl; removes = λ n. refl }, tt)
      (refl, (refl, tt))

-- A store that holds nothing, and settings with a licence key only.
abbrev nowhere : Store
nowhere = record {
  State = ℕ;
  save = λ d now r. (none, d);
  list = λ d limit offset. none;
  count = λ d. none;
  delete = λ d id. (none, d);
  delete_all = λ d. (none, d);
  prune_older_than = λ d cutoff. (none, d);
}

abbrev keyed : Config
keyed = record cfg_time {
  geoip_db_path = [];
  geoip_license_key = str "k";
  geoip_edition = str "GeoLite2-City";
}

abbrev machine : Machine nowhere
machine = record { open_store = λ path. none; open_geo = λ path. some 3; now = 5 }

abbrev build : BuildInfo
build = record { version = str "1.2.0"; commit = []; date = [] }

abbrev unchanged : Answers
unchanged = record answers { response = some (record { status = 304; size = 0; broken = false }) }

abbrev quiet : Turn
quiet = record { answers = unchanged; panic = some in_body }

start-geo_off_example :
    (updater_of keyed
      ≡ some (record {
        license_key = str "k";
        edition = str "GeoLite2-City";
        target_path = str "./" ++ (str "GeoLite2-City" ++ str ".mmdb");
        refresh_interval = pos 604_800_000_000_000;
      }))
    × (geoip_enabled
          (run (launched disk (start nowhere build keyed machine).geo) (cycle quiet ∷ [])).slot
        ≡ false)
    × ((run (launched disk (start nowhere build keyed machine).geo) (cycle quiet ∷ [])).disk ≡ disk)
start-geo_off_example =
    start-geo_off nowhere build keyed machine disk (cycle quiet ∷ []) refl (λ e. cc) (λ e. cc)
      ((record { status = 304; size = 0; broken = false }, refl, refl), tt)

-- The signal comes while a request is served that outlasts the drain; a swap comes after the end.
abbrev stopped : Process
stopped = record {
  phase = Shutdown.exited;
  listening = false;
  in_flight = 1;
  timed_out = true;
  history_open = false;
  slot = record { current = none; closed = true; closes = 8 ∷ [] };
}

Reach-stopped : Reach (serving true empty_slot) stopped
unfolding Shutdown.step empty_slot
Reach-stopped =
    next (Shutdown.swap 8)
      (next Shutdown.main_returns
        (next Shutdown.close_lookup
          (next Shutdown.close_history
            (next Shutdown.deadline
              (next Shutdown.shutdown_begins
                (next Shutdown.signal (next Shutdown.request_begins here refl) refl) refl)
              refl)
            refl)
          refl)
        refl)
      refl

Reach-InOrder_example : InOrder true stopped.phase stopped
Reach-InOrder_example = Reach-InOrder true empty_slot stopped Reach-stopped

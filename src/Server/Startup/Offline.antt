-- ===== src/Server/Startup/Offline.antt =====
-- The geo lookup of a process that is given a licence key and no path.
use speedtest_go.Base.{
  ◌≡◌, ◌≢◌, refl, ap, ◌∙◌, true, false, none, some, List, [], ◌∷◌, ◌++◌, str, is_empty,
  if◌then◌else◌,
}
use speedtest_go.Base.Int.{pos}
use speedtest_go.Config.{Config}
use speedtest_go.Store.{Store}
use speedtest_go.Handler.State.{BuildInfo}
use speedtest_go.Handler.Geoip.{geoip_enabled, empty_slot, set_geoip}
use speedtest_go.Geoip.Updater.{Disk, new_updater}
use speedtest_go.Geoip.Updater.Run.{tick_safe}
use speedtest_go.Geoip.Updater.Run.Unchanged.{IsUnchanged, tick_safe-IsUnchanged}
use speedtest_go.Server.Lifecycle.{Event, cycle, shutdown, Process, cycled, on_swap, run, launched}
use speedtest_go.Server.Startup.Pruning.{has_text}
use speedtest_go.Server.Startup.{Machine, target_path, updater_of, start}

-- Cycles that are all answered 304.
abbrev pub AllUnchanged : List Event → Type 0
AllUnchanged [] = Unit {0}
AllUnchanged (cycle t ∷ events) = IsUnchanged t.answers × AllUnchanged events
AllUnchanged (shutdown ∷ events) = ⊥

run-AllUnchanged :
    (p : Process) (events : List Event)
    → AllUnchanged events
    → ((run p events).slot ≡ p.slot) × ((run p events).disk ≡ p.disk)
unfolding run
run-AllUnchanged p [] h = (refl, refl)
run-AllUnchanged p (cycle t ∷ events) (u, us) =
    let c = tick_safe true p.disk t in
    let (swapped, disk) = tick_safe-IsUnchanged t true p.disk u in
    let (slot', disk') = run-AllUnchanged (cycled p c) events us in
    (slot' ∙ ap (λ o. on_swap o p.slot) swapped, disk' ∙ disk)
run-AllUnchanged p (shutdown ∷ events) h = elim h [ ]

updater_lem :
    (cfg : Config)
    → cfg.geoip_db_path ≡ []
    → is_empty cfg.geoip_license_key ≡ false
    → is_empty cfg.geoip_edition ≡ false
    → updater_of cfg
      ≡ some (record {
        license_key = cfg.geoip_license_key;
        edition = cfg.geoip_edition;
        target_path = str "./" ++ (cfg.geoip_edition ++ str ".mmdb");
        refresh_interval = pos 604_800_000_000_000;
      })
unfolding updater_of target_path new_updater
updater_lem cfg path key edition =
    rw (updater_of, target_path, new_updater, path, key, edition) refl

-- A process with a licence key, an edition and no database path writes its updates to the file that
-- is named after the edition. At the next start with that file on the disk, whatever is in it, the
-- lookup is off, and it stays off as long as the server answers that it has nothing newer.
pub start-geo_off :
    (db : Store) (build : BuildInfo) (cfg : Config) (m : Machine db) (disk : Disk)
    (events : List Event)
    → cfg.geoip_db_path ≡ []
    → cfg.geoip_license_key ≢ []
    → cfg.geoip_edition ≢ []
    → AllUnchanged events
    → (updater_of cfg
        ≡ some (record {
          license_key = cfg.geoip_license_key;
          edition = cfg.geoip_edition;
          target_path = str "./" ++ (cfg.geoip_edition ++ str ".mmdb");
          refresh_interval = pos 604_800_000_000_000;
        }))
      × (geoip_enabled (run (launched disk (start db build cfg m).geo) events).slot ≡ false)
      × ((run (launched disk (start db build cfg m).geo) events).disk ≡ disk)
unfolding geoip_enabled start launched set_geoip empty_slot
start-geo_off db build cfg m disk events path key edition quiet =
    let no_geo : (start db build cfg m).geo ≡ none =
      ap (λ p. if is_empty p then none else m.open_geo p) path in
    let (slot, files) = run-AllUnchanged (launched disk none) events quiet in
    (
      updater_lem cfg path (has_text cfg.geoip_license_key key)
          (has_text cfg.geoip_edition edition),
      ap (λ o. geoip_enabled (run (launched disk o) events).slot) no_geo ∙ ap geoip_enabled slot,
      ap (λ o. (run (launched disk o) events).disk) no_geo ∙ files,
    )

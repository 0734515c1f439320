-- ===== src/Server/Lifecycle.antt =====
-- main.go: the geo handle from the start of the process to its end, over the cycles of the updater
-- and the shutdown.
pub mod Handles
use speedtest_go.Base.{ℕ, ◌+◌, ◌≡◌, Bool, true, Option, none, some, List, [], ◌∷◌, ◌++◌}
use speedtest_go.Handler.Geoip.{Slot, empty_slot, set_geoip, close_geoip}
use speedtest_go.Geoip.Updater.{File, Disk, Cycle}
use speedtest_go.Geoip.Updater.Run.{Turn, tick_safe}

-- A cycle of the updater, which recovers from a panic, or what the signal handler does of the geo lookup. The updater's context
-- is cancelled before, which stops no cycle that runs: it may end after the shutdown.
pub data Event : Type 0 where
  cycle : Turn → Event
  shutdown : Event

-- The files, the handler's slot, the handles that were opened, and those that the updater closed.
pub record Process : Type 0 where
  pub disk : Disk
  pub slot : Slot
  pub opened : List ℕ
  pub closed : List ℕ

-- `u.OnSwap(func(lu geoip.Lookup) { h.SetGeoIP(lu) })`
abbrev pub on_swap : Option ℕ → Slot → Slot
on_swap none s = s
on_swap (some h) s = set_geoip (some h) s

abbrev pub verified_handle : Option (File × ℕ) → List ℕ
verified_handle none = []
verified_handle (some (f, h)) = h ∷ []

abbrev pub cycled : Process → Cycle → Process
cycled p c = record {
  disk = c.disk;
  slot = on_swap c.swapped p.slot;
  opened = verified_handle c.verified ++ p.opened;
  closed = c.closes ++ p.closed;
}

unfoldable pub step : Process → Event → Process
unfolding close_geoip set_geoip tick_safe
step p (cycle t) = cycled p (tick_safe true p.disk t)
step p shutdown = record p { slot = close_geoip p.slot }

unfoldable pub run : Process → List Event → Process
unfolding step
run p [] = p
run p (e ∷ events) = run (step p e) events

abbrev handle_list : Option ℕ → List ℕ
handle_list none = []
handle_list (some h) = h ∷ []

-- The process when `buildMux` has stored the handle of the static file, if it was opened.
unfoldable pub launched : Disk → Option ℕ → Process
unfolding set_geoip empty_slot
launched disk geo = record {
  disk = disk;
  slot = set_geoip geo empty_slot;
  opened = handle_list geo;
  closed = [];
}

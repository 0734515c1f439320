-- ===== src/Server/Shutdown.antt =====
-- main.go: the shutdown, as the steps of its goroutine between the requests that are served and the
-- swaps of the updater. A server that fails to listen exits at once and is not part of it.
pub mod Order
use speedtest_go.Base.{
  ℕ, zero, suc, ◌+◌, ◌≡◌, Bool, true, false, Option, none, some, if◌then◌else◌, ◌==◌,
}
use speedtest_go.Handler.Geoip.{Slot, set_geoip, close_geoip}

-- How far the goroutine that waits for a signal has come, and `main` behind it.
pub data Phase : Type 0 where
  waiting cancelled draining drained history_closed geo_closed exited : Phase

pub record Process : Type 0 where
  pub phase : Phase
  pub listening : Bool
  -- the requests that are being served, each from when its connection is taken up
  pub in_flight : ℕ
  -- the drain ran into its deadline of 30 seconds, and left requests behind
  pub timed_out : Bool
  pub history_open : Bool
  pub slot : Slot

pub data Event : Type 0 where
  request_begins request_ends : Event
  -- a cycle of the updater ends in a swap; its context is not looked at in between
  swap : ℕ → Event
  -- the signal, and `cancelUpdater()`
  signal : Event
  -- `srv.Shutdown(ctx)` begins, and returns when no request is left or at the deadline
  shutdown_begins shutdown_ends deadline : Event
  -- `historyStore.Close()`, where there is a store, and `h.CloseGeoIP()`
  close_history close_lookup : Event
  -- `main` goes on after `<-idleConnsClosed`
  main_returns : Event

-- A request begins on an open listener only.
begun : Process → Option Process
begun p = if p.listening then some (record p { in_flight = p.in_flight + 1 }) else none

ended : Process → Option Process
ended p = elim p.in_flight [ zero ↦ none | suc n ↦ some (record p { in_flight = n }) ]

rank : Phase → ℕ
rank waiting = 0
rank cancelled = 1
rank draining = 2
rank drained = 3
rank history_closed = 4
rank geo_closed = 5
rank exited = 6

-- The goroutine goes on from one point only.
from : Phase → Process → Option Process → Option Process
unfolding rank
from at p next = if rank p.phase == rank at then next else none

signalled : Process → Option Process
unfolding from
signalled p = from waiting p (some (record p { phase = cancelled }))

begun_shutdown : Process → Option Process
unfolding from
begun_shutdown p = from cancelled p (some (record p { phase = draining; listening = false }))

-- `srv.Shutdown` returns without an error when no request is left.
ended_shutdown : Process → Option Process
unfolding from
ended_shutdown p =
    from draining p (if p.in_flight == 0 then some (record p { phase = drained }) else none)

reached_deadline : Process → Option Process
unfolding from
reached_deadline p = from draining p (some (record p { phase = drained; timed_out = true }))

closed_history : Process → Option Process
unfolding from
closed_history p = from drained p (some (record p { phase = history_closed; history_open = false }))

closed_lookup : Process → Option Process
unfolding from close_geoip
closed_lookup p =
    from history_closed p (some (record p { phase = geo_closed; slot = close_geoip p.slot }))

returned : Process → Option Process
unfolding from
returned p = from geo_closed p (some (record p { phase = exited }))

-- A step, none where it cannot be taken.
unfoldable pub step : Process → Event → Option Process
unfolding begun ended signalled begun_shutdown ended_shutdown reached_deadline closed_history
    closed_lookup returned set_geoip
step p request_begins = begun p
step p request_ends = ended p
step p (swap h) = some (record p { slot = set_geoip (some h) p.slot })
step p signal = signalled p
step p shutdown_begins = begun_shutdown p
step p shutdown_ends = ended_shutdown p
step p deadline = reached_deadline p
step p close_history = closed_history p
step p close_lookup = closed_lookup p
step p main_returns = returned p

-- The process when it begins to serve.
abbrev pub serving : (has_store : Bool) → Slot → Process
serving has_store slot = record {
  phase = waiting;
  listening = true;
  in_flight = 0;
  timed_out = false;
  history_open = has_store;
  slot = slot;
}

pub data Reach (p : Process) : Process → Type 0 where
  here : Reach p p
  next : {q r : Process} (e : Event) → Reach p q → step q e ≡ some r → Reach p r

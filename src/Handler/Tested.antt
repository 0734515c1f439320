-- ===== src/Handler/Tested.antt =====
-- A test from its admission to its deferred calls, which downloads and uploads share.
use speedtest_go.Base.{ℕ, ◌+◌, ◌≤◌, ◌<◌, ◌≡◌, true, false, some, arith}
use speedtest_go.Handler.Metrics.{
  Direction, up, down, Metrics, total_tests, bytes_transferred, durations_observed,
  record_admission, observe_test_on,
}
use speedtest_go.Handler.State.{Handler, acquire, release, observe_test}

-- A test that was admitted and has ended: its slot is free again, it is counted once as accepted,
-- and its bytes and its duration are observed once.
pub record Tested (d : Direction) (bytes : ℕ) (h h' : Handler) (m m' : Metrics) : Type 0 where
  pub sem : h'.sem ≡ h.sem
  pub accepted : h'.accepted_total ≡ h.accepted_total + 1
  pub rejected : h'.rejected_total ≡ h.rejected_total
  pub metrics : h'.metrics ≡ some m'
  pub counted : total_tests true m'.calls ≡ total_tests true m.calls + 1
  pub transferred : bytes_transferred d m'.calls ≡ bytes_transferred d m.calls + bytes
  pub observed : durations_observed m'.calls ≡ durations_observed m.calls + 1

-- A test that was turned away: only the counts of rejected tests grow.
pub record Refused (h h' : Handler) (m m' : Metrics) : Type 0 where
  pub sem : h'.sem ≡ h.sem
  pub accepted : h'.accepted_total ≡ h.accepted_total
  pub rejected : h'.rejected_total ≡ h.rejected_total + 1
  pub metrics : h'.metrics ≡ some m'
  pub counted : total_tests false m'.calls ≡ total_tests false m.calls + 1
  pub observed : durations_observed m'.calls ≡ durations_observed m.calls

unfoldable pub after_test : Direction → ℕ → ℕ → Metrics → Metrics
unfolding observe_test_on record_admission
after_test d bytes elapsed m = observe_test_on (record_admission m true) d bytes elapsed

unfoldable pub after_handler : Direction → ℕ → ℕ → Handler → Metrics → Handler
after_handler d bytes elapsed h m = record h {
  accepted_total = h.accepted_total + 1;
  metrics = some (after_test d bytes elapsed m);
}

pub release-acquire :
    (d : Direction) (bytes elapsed : ℕ) (h : Handler) (m : Metrics)
    → h.metrics ≡ some m
    → h.sem.len < h.sem.cap
    → release (observe_test (acquire h).0 d bytes elapsed)
      ≡ some (after_handler d bytes elapsed h m)
unfolding release observe_test acquire after_handler after_test
release-acquire d bytes elapsed h m e room = ground arith

pub after_handler-Tested :
    (d : Direction) (bytes elapsed : ℕ) (h : Handler) (m : Metrics)
    → Tested d bytes h (after_handler d bytes elapsed h m) m (after_test d bytes elapsed m)
unfolding after_handler after_test
after_handler-Tested up bytes elapsed h m = ground arith
after_handler-Tested down bytes elapsed h m = ground arith

pub acquire_room : (h : Handler) → h.sem.len < h.sem.cap → (acquire h).1 ≡ true
unfolding acquire
acquire_room h room = ground arith

pub acquire_full :
    (h : Handler) (m : Metrics)
    → h.metrics ≡ some m
    → h.sem.cap ≤ h.sem.len
    → ((acquire h).1 ≡ false) × Refused h (acquire h).0 m (record_admission m false)
unfolding acquire record_admission
acquire_full h m e full = ground arith

pub acquire-cfg : (h : Handler) → (acquire h).0.cfg ≡ h.cfg
unfolding acquire
acquire-cfg h = ground arith

-- ===== src/Handler/Metrics.antt =====
-- internal/handler/metrics_handler.go. The collectors are those of the Prometheus client library:
-- a registry is read here as the calls made on its collectors, the latest first.
use speedtest_go.Base.{ℕ, suc, ◌+◌, Bool, true, false, List, [], ◌∷◌, Str, if◌then◌else◌, ltb}

pub data Direction : Type 0 where
  up down : Direction

pub data Call : Type 0 where
  -- `totalTests`, with the label accepted or rejected
  inc_total : Bool → Call
  -- `bytesTransferred`
  add_bytes : Direction → ℕ → Call
  -- `testDuration`, in nanoseconds
  observe_duration : ℕ → Call
  -- `httpRequestsTotal`, by method, path and status
  inc_request : Str → Str → Str → Call
  -- `WithLabelValues(…).Add(0)`, which makes a series appear
  touch_total : Bool → Call
  touch_bytes : Direction → Call

pub record Metrics : Type 0 where
  pub calls : List Call

abbrev called : Call → Metrics → Metrics
called c m = record m { calls = c ∷ m.calls }

unfoldable pub new_metrics : Metrics
new_metrics = record {
  calls = touch_bytes down ∷ touch_bytes up ∷ touch_total false ∷ touch_total true ∷ [];
}

unfoldable pub record_admission : Metrics → Bool → Metrics
record_admission m accepted = called (inc_total accepted) m

unfoldable pub observe_test_on : Metrics → Direction → ℕ → ℕ → Metrics
observe_test_on m direction bytes elapsed =
    called (observe_duration elapsed)
      (if ltb 0 bytes then called (add_bytes direction bytes) m else m)

unfoldable pub observe_request_on : Metrics → Str → Str → Str → Metrics
observe_request_on m method path status = called (inc_request method path status) m

-- The value of the counter `speedtest_total_tests_total` for a label.
abbrev pub same_bool : Bool → Bool → Bool
same_bool true b = b
same_bool false true = false
same_bool false false = true

abbrev pub total_tests : Bool → List Call → ℕ
total_tests label [] = 0
total_tests label (inc_total b ∷ calls) =
    (if same_bool label b then 1 else 0) + total_tests label calls
total_tests label (add_bytes d n ∷ calls) = total_tests label calls
total_tests label (observe_duration n ∷ calls) = total_tests label calls
total_tests label (inc_request m p s ∷ calls) = total_tests label calls
total_tests label (touch_total b ∷ calls) = total_tests label calls
total_tests label (touch_bytes d ∷ calls) = total_tests label calls

abbrev same_direction : Direction → Direction → Bool
same_direction up up = true
same_direction up down = false
same_direction down up = false
same_direction down down = true

-- The value of `speedtest_bytes_transferred_total` for a direction.
abbrev pub bytes_transferred : Direction → List Call → ℕ
bytes_transferred d [] = 0
bytes_transferred d (add_bytes e n ∷ calls) =
    (if same_direction d e then n else 0) + bytes_transferred d calls
bytes_transferred d (inc_total b ∷ calls) = bytes_transferred d calls
bytes_transferred d (observe_duration n ∷ calls) = bytes_transferred d calls
bytes_transferred d (inc_request m p s ∷ calls) = bytes_transferred d calls
bytes_transferred d (touch_total b ∷ calls) = bytes_transferred d calls
bytes_transferred d (touch_bytes e ∷ calls) = bytes_transferred d calls

-- The number of observations in `speedtest_test_duration_seconds`.
abbrev pub durations_observed : List Call → ℕ
durations_observed [] = 0
durations_observed (observe_duration n ∷ calls) = suc (durations_observed calls)
durations_observed (add_bytes e n ∷ calls) = durations_observed calls
durations_observed (inc_total b ∷ calls) = durations_observed calls
durations_observed (inc_request m p s ∷ calls) = durations_observed calls
durations_observed (touch_total b ∷ calls) = durations_observed calls
durations_observed (touch_bytes e ∷ calls) = durations_observed calls

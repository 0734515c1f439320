-- ===== src/Handler/State.antt =====
-- internal/handler/handler.go: the state of a Handler, its construction, and the semaphore that
-- admits tests.
use speedtest_go.Base.{
  ℕ, zero, suc, ◌+◌, Bool, true, false, ◌||◌, Option, none, some, [], Str, str, str_eq, is_empty,
  if◌then◌else◌, ltb,
}
use speedtest_go.Base.Int.{pos, pos_part, leb_ℤ}
use speedtest_go.Config.{Config}
use speedtest_go.Handler.Metrics.{
  Direction, Metrics, new_metrics, record_admission, observe_test_on, observe_request_on,
}

pub record BuildInfo : Type 0 where
  pub version : Str
  pub commit : Str
  pub date : Str

-- A buffered channel of empty structs: how many it holds, and how many it can hold.
pub record Semaphore : Type 0 where
  pub len : ℕ
  pub cap : ℕ

-- The optional lookup and limiter are states of their own (Geoip and RateLimit).
pub record Handler : Type 0 where
  pub cfg : Config
  pub sem : Semaphore
  pub has_store : Bool
  pub build : BuildInfo
  -- nanoseconds
  pub started_at : ℕ
  pub accepted_total : ℕ
  pub rejected_total : ℕ
  pub metrics : Option Metrics

unfoldable pub new : Config → Bool → ℕ → Handler
unfolding new_metrics
new cfg has_store now = record {
  cfg = cfg;
  sem = record {
    len = 0;
    cap = if leb_ℤ cfg.max_concurrent (pos 0) then 10 else pos_part cfg.max_concurrent;
  };
  has_store = has_store;
  build = record { version = []; commit = []; date = [] };
  started_at = now;
  accepted_total = 0;
  rejected_total = 0;
  metrics = some new_metrics;
}

-- `if reg, ok := h.metrics.(*metricsRegistry); ok && reg != nil { … }`
abbrev on_metrics : Option Metrics → (Metrics → Metrics) → Option Metrics
on_metrics none f = none
on_metrics (some m) f = some (f m)

unfoldable pub acquire : Handler → Handler × Bool
unfolding record_admission
acquire h =
    if ltb h.sem.len h.sem.cap
    then (
      record h {
        sem = record { len = h.sem.len + 1; cap = h.sem.cap };
        accepted_total = h.accepted_total + 1;
        metrics = on_metrics h.metrics (λ m. record_admission m true);
      },
      true,
    )
    else (
      record h {
        rejected_total = h.rejected_total + 1;
        metrics = on_metrics h.metrics (λ m. record_admission m false);
      },
      false,
    )

-- `<-h.sem`; none where the receive would block.
unfoldable pub release : Handler → Option Handler
release h = elim h.sem.len [
  | zero ↦ none
  | suc n ↦ some (record h { sem = record { len = n; cap = h.sem.cap } })
]

unfoldable pub observe_test : Handler → Direction → ℕ → ℕ → Handler
unfolding observe_test_on
observe_test h direction bytes elapsed = record h {
  metrics = on_metrics h.metrics (λ m. observe_test_on m direction bytes elapsed);
}

unfoldable pub observe_request : Handler → Str → Str → Str → Handler
unfolding observe_request_on
observe_request h method path status = record h {
  metrics = on_metrics h.metrics (λ m. observe_request_on m method path status);
}

unfoldable pub history_enabled : Handler → Bool
history_enabled h = h.has_store

unfoldable pub version_or_dev : Handler → Str
version_or_dev h = if is_empty h.build.version then str "dev" else h.build.version

unfoldable pub commit_or_empty : Handler → Str
unfolding str_eq
commit_or_empty h =
    if is_empty h.build.commit || str_eq h.build.commit (str "none") then [] else h.build.commit

unfoldable pub date_or_empty : Handler → Str
unfolding str_eq
date_or_empty h =
    if is_empty h.build.date || str_eq h.build.date (str "unknown") then [] else h.build.date

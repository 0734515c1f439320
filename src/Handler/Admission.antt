-- ===== src/Handler/Admission.antt =====
-- The semaphore under any interleaving of tests: what arrives, what is admitted, what finishes.
use speedtest_go.Base.{
  ℕ, zero, suc, ◌+◌, ◌≤◌, ◌<◌, ◌≡◌, ◌≢◌, refl, subst, ◌∙◌, ◌↔◌, Bool, true, false, Option, none,
  some, arith,
}
use mathlib.Core.Option.{some-injective, some-ne-none, none-ne-some}
use speedtest_go.Config.{Config}
use speedtest_go.Handler.Metrics.{Direction, Metrics, total_tests, durations_observed}
use speedtest_go.Handler.State.{Handler, new, acquire, release, observe_test}

-- A download or upload request calls `acquire` when it arrives; a test that was admitted ends by
-- its deferred calls, `ObserveTest` and then `release`. Each event stands for all the calls that it
-- makes, on the semaphore, the counters and the collectors; the states between these are left out, in
-- which another request can already see the slot taken and not yet the count.
pub data Event : Type 0 where
  arrive : Event
  finish : Direction → ℕ → ℕ → Event

-- The handler, and how many tests are running, have finished, and were turned away.
pub record System : Type 0 where
  pub handler : Handler
  pub running : ℕ
  pub finished : ℕ
  pub refused : ℕ

abbrev arrived : System → Handler × Bool → System
arrived s (h, true) = record s { handler = h; running = s.running + 1 }
arrived s (h, false) = record s { handler = h; refused = s.refused + 1 }

abbrev released : System → ℕ → Option Handler → Option System
released s left none = none
released s left (some h) =
    some (record s { handler = h; running = left; finished = s.finished + 1 })

-- One event; none where a goroutine would block on its release, or where no test is left to end.
unfoldable pub step : System → Event → Option System
step s arrive = some (arrived s (acquire s.handler))
step s (finish direction bytes elapsed) = elim s.running [
  | zero ↦ none
  | suc left ↦ released s left (release (observe_test s.handler direction bytes elapsed))
]

pub data Reach (s : System) : System → Type 0 where
  here : Reach s s
  next : {t u : System} (e : Event) → Reach s t → step t e ≡ some u → Reach s u

unfoldable pub start : Config → Bool → ℕ → System
unfolding new
start cfg has_store now = record {
  handler = new cfg has_store now;
  running = 0;
  finished = 0;
  refused = 0;
}

abbrev Counted : Handler → ℕ → ℕ → ℕ → Option Metrics → Type 0
Counted h running finished refused none = ⊥
Counted h running finished refused (some m) =
    (total_tests true m.calls ≡ h.accepted_total)
    × (total_tests false m.calls ≡ h.rejected_total)
    × (durations_observed m.calls ≡ finished)

-- The slots held are the tests that run, within the capacity; every arrival is counted once, as
-- accepted or rejected, by the handler and by the Prometheus counters alike; and every test that
-- has finished was observed once.
pub record Inv (s : System) : Type 0 where
  pub held : s.handler.sem.len ≡ s.running
  pub bounded : s.running ≤ s.handler.sem.cap
  pub accepted : s.handler.accepted_total ≡ s.running + s.finished
  pub rejected : s.handler.rejected_total ≡ s.refused
  pub counted : Counted s.handler s.running s.finished s.refused s.handler.metrics

start-Inv : (cfg : Config) (has_store : Bool) (now : ℕ) → Inv (start cfg has_store now)
unfolding start
start-Inv cfg has_store now = record {
  held = refl;
  bounded = omega arith;
  accepted = omega arith;
  rejected = refl;
  counted = (refl, refl, refl);
}

arrive-Inv :
    (s : System) (m : Metrics)
    → s.handler.metrics ≡ some m
    → Inv s
    → Inv (arrived s (acquire s.handler))
unfolding acquire
arrive-Inv s m e v = ground arith

finish-Inv :
    (s : System) (m : Metrics) (left : ℕ) (d : Direction) (bytes elapsed : ℕ) (u : System)
    → s.handler.metrics ≡ some m
    → s.running ≡ suc left
    → released s left (release (observe_test s.handler d bytes elapsed)) ≡ some u
    → Inv s
    → Inv u
unfolding release observe_test
finish-Inv s m left d bytes elapsed u e r q v = ground arith

has_metrics : (s : System) → Inv s → (m : Metrics) × (s.handler.metrics ≡ some m)
has_metrics s v = ground arith

-- The registry is there, and its counters agree with those of the handler.
pub series :
    (s : System)
    → Inv s
    → (m : Metrics) × (s.handler.metrics ≡ some m)
      × (total_tests true m.calls ≡ s.handler.accepted_total)
      × (total_tests false m.calls ≡ s.handler.rejected_total)
series s v = by_metrics s.handler.metrics v.counted
  where
    by_metrics :
        (o : Option Metrics)
        → Counted s.handler s.running s.finished s.refused o
        → (m : Metrics) × (o ≡ some m)
          × (total_tests true m.calls ≡ s.handler.accepted_total)
          × (total_tests false m.calls ≡ s.handler.rejected_total)
    by_metrics none c = elim c [ ]
    by_metrics (some m) (accepted, rejected, observed) = (m, refl, accepted, rejected)

step-Inv : (s : System) (e : Event) (u : System) → step s e ≡ some u → Inv s → Inv u
unfolding step
step-Inv s arrive u q v =
    let (m, e) = has_metrics s v in subst Inv (some-injective _ _ q) (arrive-Inv s m e v)
step-Inv s (finish d bytes elapsed) u q v = by_running s.running refl
  where
    by_running : (n : ℕ) → s.running ≡ n → Inv u
    by_running zero r = absurd (none-ne-some u (rw (r, step) at q))
    by_running (suc left) r =
        let (m, e) = has_metrics s v in
        finish-Inv s m left d bytes elapsed u e r (rw (r, step) at q) v

Reach-Inv : {s t : System} → Inv s → Reach s t → Inv t
Reach-Inv v here = v
Reach-Inv v (next e r q) = step-Inv _ e _ q (Reach-Inv v r)

-- However tests arrive and finish, from a new handler on: the slots that are held are the tests that
-- run, at most the capacity; every arrival is counted once, and alike by the handler and by the
-- Prometheus counters; and every finished test was observed once.
pub Reach-start-Inv :
    (cfg : Config) (has_store : Bool) (now : ℕ) (s : System)
    → Reach (start cfg has_store now) s
    → Inv s
Reach-start-Inv cfg has_store now s r = Reach-Inv (start-Inv cfg has_store now) r

release-observe :
    (h : Handler) (n : ℕ) (d : Direction) (bytes elapsed : ℕ)
    → h.sem.len ≡ suc n
    → release (observe_test h d bytes elapsed) ≢ none
unfolding release observe_test
release-observe h n d bytes elapsed e = ground arith

released-ne-none : (s : System) (n : ℕ) (o : Option Handler) → o ≢ none → released s n o ≢ none
released-ne-none s n none h = absurd (h refl)
released-ne-none s n (some x) h = λ e. some-ne-none _ e

-- In a reachable state a test that runs can always end: its release never blocks.
pub finish-ne-none :
    (cfg : Config) (has_store : Bool) (now : ℕ) (s : System) (d : Direction) (bytes elapsed : ℕ)
    → Reach (start cfg has_store now) s
    → 0 < s.running
    → step s (finish d bytes elapsed) ≢ none
unfolding step
finish-ne-none cfg has_store now s d bytes elapsed r h = by_running s.running refl
  where
    v : Inv s
    v = Reach-start-Inv cfg has_store now s r

    by_running : (n : ℕ) → s.running ≡ n → step s (finish d bytes elapsed) ≢ none
    by_running zero e = absurd (omega (arith, e))
    by_running (suc n) e =
        rw (e, step)
          (released-ne-none s n _ (release-observe s.handler n d bytes elapsed (v.held ∙ e)))

acquire_iff : (h : Handler) → ((acquire h).1 ≡ true) ↔ (h.sem.len < h.sem.cap)
unfolding acquire
acquire_iff h = ground arith

step-cap :
    (s : System) (e : Event) (u : System)
    → step s e ≡ some u
    → u.handler.sem.cap ≡ s.handler.sem.cap
unfolding step acquire release observe_test
step-cap s arrive u q = ground arith
step-cap s (finish d bytes elapsed) u q = ground arith

Reach-cap : {s t : System} → Reach s t → t.handler.sem.cap ≡ s.handler.sem.cap
Reach-cap here = refl
Reach-cap (next e r q) = step-cap _ e _ q ∙ Reach-cap r

new-cap :
    (cfg : Config) (has_store : Bool) (now : ℕ) → 0 < (start cfg has_store now).handler.sem.cap
unfolding start
new-cap cfg has_store now = ground arith

-- A test that arrives in a reachable state is admitted exactly when fewer tests run than the
-- semaphore holds; and the semaphore holds at least one, whatever the configuration says.
pub acquire-Reach :
    (cfg : Config) (has_store : Bool) (now : ℕ) (s : System)
    → Reach (start cfg has_store now) s
    → ((acquire s.handler).1 ≡ true ↔ (s.running < s.handler.sem.cap)) × (0 < s.handler.sem.cap)
acquire-Reach cfg has_store now s r =
    let v = Reach-start-Inv cfg has_store now s r in
    (rw (← v.held) (acquire_iff s.handler), rw (Reach-cap r) (new-cap cfg has_store now))

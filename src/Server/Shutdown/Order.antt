-- ===== src/Server/Shutdown/Order.antt =====
-- In which order the parts of the process end.
use mathlib.Core.Bool.{true≢false}
use mathlib.Core.Option.{some-injective, none-ne-some}
use speedtest_go.Base.{
  ℕ, zero, suc, ◌+◌, ◌≡◌, ◌⊎◌, inl, inr, refl, sym, ap, ◌∙◌, subst, Bool-cases, ==_iff, Bool, true,
  false, Option, none, some, if◌then◌else◌, ◌==◌, arith,
}
use speedtest_go.Handler.Geoip.{Slot, set_geoip, close_geoip}
use speedtest_go.Server.Shutdown.{
  Phase, waiting, cancelled, draining, drained, history_closed, geo_closed, exited, Process, Event,
  request_begins, request_ends, swap, signal, shutdown_begins, shutdown_ends, deadline,
  close_history, close_lookup, main_returns, begun, ended, signalled, begun_shutdown,
  ended_shutdown, reached_deadline, closed_history, closed_lookup, returned, rank, from, step,
  serving, Reach, here, next,
}

-- No request is being served, or the drain ran into its deadline.
abbrev pub Quiet : Process → Type 0
Quiet p = (p.in_flight ≡ 0) ⊎ (p.timed_out ≡ true)

abbrev pub Gone : Slot → Type 0
Gone s = (s.closed ≡ true) × (s.current ≡ none)

-- What has ended in each phase.
abbrev pub InOrder : (has_store : Bool) → Phase → Process → Type 0
InOrder has_store waiting p = (p.listening ≡ true) × (p.history_open ≡ has_store)
InOrder has_store cancelled p = (p.listening ≡ true) × (p.history_open ≡ has_store)
InOrder has_store draining p = (p.listening ≡ false) × (p.history_open ≡ has_store)
InOrder has_store drained p = (p.listening ≡ false) × (p.history_open ≡ has_store) × Quiet p
InOrder has_store history_closed p = (p.listening ≡ false) × (p.history_open ≡ false) × Quiet p
InOrder has_store geo_closed p =
    (p.listening ≡ false) × (p.history_open ≡ false) × Quiet p × Gone p.slot
InOrder has_store exited p =
    (p.listening ≡ false) × (p.history_open ≡ false) × Quiet p × Gone p.slot

abbrev Inv : Bool → Process → Type 0
Inv has_store p = InOrder has_store p.phase p

abbrev Kept : Bool → Option Process → Type 0
Kept has_store o = (q : Process) → o ≡ some q → Inv has_store q

kept : (b : Bool) (p : Process) → Inv b p → Kept b (some p)
kept b p v q e = subst (Inv b) (some-injective p q e) v

never : (b : Bool) → Kept b none
never b q e = absurd (none-ne-some q e)

-- A change that keeps what has ended.
same_order :
    (b : Bool) (ph : Phase) (p q : Process)
    → q.listening ≡ p.listening
    → q.history_open ≡ p.history_open
    → (Quiet p → Quiet q)
    → (Gone p.slot → Gone q.slot)
    → InOrder b ph p
    → InOrder b ph q
same_order b waiting p q l h quiet gone v = (l ∙ v.0, h ∙ v.1)
same_order b cancelled p q l h quiet gone v = (l ∙ v.0, h ∙ v.1)
same_order b draining p q l h quiet gone v = (l ∙ v.0, h ∙ v.1)
same_order b drained p q l h quiet gone v = (l ∙ v.0, h ∙ v.1, quiet v.2)
same_order b history_closed p q l h quiet gone v = (l ∙ v.0, h ∙ v.1, quiet v.2)
same_order b geo_closed p q l h quiet gone v = (l ∙ v.0, h ∙ v.1, quiet v.2, gone v.3)
same_order b exited p q l h quiet gone v = (l ∙ v.0, h ∙ v.1, quiet v.2, gone v.3)

-- A request may begin only before the listener is closed.
begun_lem :
    (b : Bool) (ph : Phase) (p : Process)
    → p.phase ≡ ph
    → p.listening ≡ true
    → InOrder b ph p
    → InOrder b ph (record p { in_flight = p.in_flight + 1 })
begun_lem b waiting p e l v = v
begun_lem b cancelled p e l v = v
begun_lem b draining p e l v = v
begun_lem b drained p e l v = absurd (true≢false (sym l ∙ v.0))
begun_lem b history_closed p e l v = absurd (true≢false (sym l ∙ v.0))
begun_lem b geo_closed p e l v = absurd (true≢false (sym l ∙ v.0))
begun_lem b exited p e l v = absurd (true≢false (sym l ∙ v.0))

begun-Kept : (b : Bool) (p : Process) → Inv b p → Kept b (begun p)
unfolding begun
begun-Kept b p v = by_listener p.listening refl
  where
    by_listener :
        (l : Bool)
        → p.listening ≡ l
        → Kept b (if l then some (record p { in_flight = p.in_flight + 1 }) else none)
    by_listener true open_now =
        kept b (record p { in_flight = p.in_flight + 1 }) (begun_lem b p.phase p refl open_now v)
    by_listener false shut = never b

ended-Quiet :
    (p : Process) (n : ℕ) → p.in_flight ≡ suc n → Quiet p → Quiet (record p { in_flight = n })
ended-Quiet p n e (inl none_left) = absurd (omega (arith, e, none_left))
ended-Quiet p n e (inr late) = inr late

ended-Kept : (b : Bool) (p : Process) → Inv b p → Kept b (ended p)
unfolding ended
ended-Kept b p v = by_count p.in_flight refl
  where
    by_count : (n : ℕ) → p.in_flight ≡ n → Kept b (ended p)
    by_count zero e = rw (ended, e) (never b)
    by_count (suc n) e =
        rw (ended, e)
          (kept b (record p { in_flight = n })
            (same_order b p.phase p (record p { in_flight = n }) refl refl (ended-Quiet p n e)
              (λ g. g) v))

-- A slot that was shut stays empty.
swap-Gone : (h : ℕ) (s : Slot) → Gone s → Gone (set_geoip (some h) s)
unfolding set_geoip
swap-Gone h s (shut, empty) = (rw (set_geoip, shut) refl, rw (set_geoip, shut) empty)

close-Gone : (s : Slot) → Gone (close_geoip s)
unfolding close_geoip
close-Gone s = (refl, refl)

unrank : ℕ → Phase
unrank zero = waiting
unrank (suc zero) = cancelled
unrank (suc (suc zero)) = draining
unrank (suc (suc (suc zero))) = drained
unrank (suc (suc (suc (suc zero)))) = history_closed
unrank (suc (suc (suc (suc (suc zero))))) = geo_closed
unrank (suc (suc (suc (suc (suc (suc n)))))) = exited

unrank-rank : (ph : Phase) → unrank (rank ph) ≡ ph
unfolding rank unrank
unrank-rank waiting = refl
unrank-rank cancelled = refl
unrank-rank draining = refl
unrank-rank drained = refl
unrank-rank history_closed = refl
unrank-rank geo_closed = refl
unrank-rank exited = refl

rank-injective : (a b : Phase) → rank a ≡ rank b → a ≡ b
rank-injective a b e = sym (unrank-rank a) ∙ ap unrank e ∙ unrank-rank b

from-Kept :
    (b : Bool) (at : Phase) (p : Process) (o : Option Process)
    → Inv b p
    → (InOrder b at p → Kept b o)
    → Kept b (from at p o)
unfolding from
from-Kept b at p o v kept_at = elim (Bool-cases (rank p.phase == rank at)) [
  | inl same ↦
      let there : p.phase ≡ at =
        rank-injective p.phase at ((==_iff (rank p.phase) (rank at)).0 same) in
      rw same (kept_at (subst (λ ph. InOrder b ph p) there v))
  | inr other ↦ rw other (never b)
]

ended_shutdown-Kept : (b : Bool) (p : Process) → Inv b p → Kept b (ended_shutdown p)
unfolding ended_shutdown
ended_shutdown-Kept b p v = from-Kept b draining p _ v (λ d. elim (Bool-cases (p.in_flight == 0)) [
  | inl idle ↦
      rw idle
        (kept b (record p { phase = drained }) (d.0, d.1, inl ((==_iff p.in_flight 0).0 idle)))
  | inr busy ↦ rw busy (never b)
])

step-Inv : (b : Bool) (p : Process) (e : Event) → Inv b p → Kept b (step p e)
unfolding step signalled begun_shutdown reached_deadline closed_history closed_lookup returned
step-Inv b p request_begins v = begun-Kept b p v
step-Inv b p request_ends v = ended-Kept b p v
step-Inv b p (swap h) v =
    kept b (record p { slot = set_geoip (some h) p.slot })
      (same_order b p.phase p (record p { slot = set_geoip (some h) p.slot }) refl refl (λ q. q)
        (swap-Gone h p.slot) v)
step-Inv b p signal v = from-Kept b waiting p _ v (λ w. kept b (record p { phase = cancelled }) w)
step-Inv b p shutdown_begins v =
    from-Kept b cancelled p _ v
      (λ c. kept b (record p { phase = draining; listening = false }) (refl, c.1))
step-Inv b p shutdown_ends v = ended_shutdown-Kept b p v
step-Inv b p deadline v =
    from-Kept b draining p _ v
      (λ d. kept b (record p { phase = drained; timed_out = true }) (d.0, d.1, inr refl))
step-Inv b p close_history v =
    from-Kept b drained p _ v
      (λ d. kept b (record p { phase = history_closed; history_open = false }) (d.0, refl, d.2))
step-Inv b p close_lookup v = from-Kept b history_closed p _ v (λ d.
    kept b (record p { phase = geo_closed; slot = close_geoip p.slot })
      (d.0, d.1, d.2, close-Gone p.slot))
step-Inv b p main_returns v =
    from-Kept b geo_closed p _ v (λ g. kept b (record p { phase = exited }) g)

Reach-Inv : (b : Bool) {p q : Process} → Inv b p → Reach p q → Inv b q
Reach-Inv b v here = v
Reach-Inv b v (next e r taken) = step-Inv b _ e (Reach-Inv b v r) _ taken

-- However requests, swaps and the steps of the shutdown follow on one another: the listener is closed
-- before the drain, and the history is closed only when no request is being served or the drain ran
-- into its deadline; when `main` returns, the history is closed and the handler has no lookup, which
-- no later swap brings back.
pub Reach-InOrder :
    (has_store : Bool) (slot : Slot) (p : Process)
    → Reach (serving has_store slot) p
    → InOrder has_store p.phase p
Reach-InOrder has_store slot p r = Reach-Inv has_store (refl, refl) r

-- ===== src/Server/Lifecycle/Handles.antt =====
-- No handle leaks, and a database that is only on the disk is not picked up.
use speedtest_go.Base.{
  ℕ, suc, length, ◌+◌, ◌≤◌, ◌≡◌, refl, sym, ap, ◌∙◌, subst, true, Option, none, some, List, [], ◌∷◌,
  ◌++◌, arith, inl, inr,
}
use speedtest_go.Handler.Geoip.{
  Slot, empty_slot, set_geoip, close_geoip, Op, set_op, close_op, geoip_enabled,
}
use speedtest_go.Handler.Geoip as G
use speedtest_go.Handler.Geoip.Lifetime.{count, handed, Distinct, Distinct-count, run-closes}
use speedtest_go.Geoip.Updater.{File, Disk, Cycle}
use speedtest_go.Geoip.Updater.Safety.{NewNames, Ends}
use speedtest_go.Geoip.Updater.Run.{Turn, Point, tick_safe}
use speedtest_go.Geoip.Updater.Run.Follows.{After, tick_safe-After}
use speedtest_go.Server.Lifecycle.{
  Event, cycle, shutdown, Process, on_swap, verified_handle, cycled, run, launched, handle_list,
}

-- Every cycle makes its temporary files under new names.
abbrev pub Named : Disk → List Event → Type 0
Named d [] = Unit {0}
Named d (cycle t ∷ events) = NewNames t.answers d × Named (tick_safe true d t).disk events
Named d (shutdown ∷ events) = Named d events

abbrev swap_op : Option ℕ → List Op → List Op
swap_op none ops = ops
swap_op (some h) ops = set_op (some h) ∷ ops

-- The calls on the slot.
ops : Disk → List Event → List Op
ops d [] = []
ops d (cycle t ∷ events) =
    swap_op (tick_safe true d t).swapped (ops (tick_safe true d t).disk events)
ops d (shutdown ∷ events) = close_op ∷ ops d events

run-swap_op :
    (o : Option ℕ) (s : Slot) (rest : List Op) → G.run s (swap_op o rest) ≡ G.run (on_swap o s) rest
unfolding G.run
run-swap_op none s rest = refl
run-swap_op (some h) s rest = refl

run-slot :
    (p : Process) (events : List Event) → (run p events).slot ≡ G.run p.slot (ops p.disk events)
unfolding run G.run ops
run-slot p [] = refl
run-slot p (cycle t ∷ events) =
    let c = tick_safe true p.disk t in
    run-slot (cycled p c) events ∙ sym (run-swap_op c.swapped p.slot (ops c.disk events))
run-slot p (shutdown ∷ events) = run-slot (record p { slot = close_geoip p.slot }) events

swap_op-handed :
    (h : ℕ) (o : Option ℕ) (rest : List Op)
    → count h (handed (swap_op o rest)) ≡ count h (handle_list o) + count h (handed rest)
swap_op-handed h none rest = omega arith
swap_op-handed h (some x) rest = omega arith

count-append : (h : ℕ) (xs ys : List ℕ) → count h (xs ++ ys) ≡ count h xs + count h ys
count-append h [] ys = omega arith
count-append h (x ∷ xs) ys = omega (arith, count-append h xs ys)

-- What a cycle opens it hands over or closes.
abbrev Balanced : Cycle → Type 0
Balanced c =
    (h : ℕ)
    → count h (verified_handle c.verified) ≡ count h (handle_list c.swapped) + count h c.closes

Ends-Balanced : (target : Option File) (c : Cycle) → Ends target true c → Balanced c
Ends-Balanced target c (inl (t, (s, inl (v, k)))) h = rw (v, k, s) (omega arith)
Ends-Balanced target c (inl (t, (s, inr (f, x, v, k)))) h = rw (v, k, s) (omega arith)
Ends-Balanced target c (inr (f, x, v, t, s, k)) h = rw (v, k, s) (omega arith)

run-opened :
    (h : ℕ) (p : Process) (events : List Event)
    → Named p.disk events
    → count h (run p events).opened + count h p.closed
      ≡ count h p.opened + count h (handed (ops p.disk events)) + count h (run p events).closed
unfolding run ops
run-opened h p [] n = omega arith
run-opened h p (cycle t ∷ events) (n, ns) =
    let c = tick_safe true p.disk t in
    let balanced = Ends-Balanced p.disk.target c (tick_safe-After true p.disk t n).0 h in
    omega (
      arith,
      run-opened h (cycled p c) events ns,
      balanced,
      count-append h (verified_handle c.verified) p.opened,
      count-append h c.closes p.closed,
      swap_op-handed h c.swapped (ops c.disk events),
    )
run-opened h p (shutdown ∷ events) n =
    run-opened h (record p { slot = close_geoip p.slot }) events n

-- The cycles that panic.
abbrev pub panics : List Event → ℕ
panics [] = 0
panics (cycle t ∷ events) = elim t.panic [ none ↦ panics events | some p ↦ suc (panics events) ]
panics (shutdown ∷ events) = panics events

cycle-length :
    (t : Turn) (events : List Event) (d : Disk) (c : Cycle)
    → After true d t c
    → length c.disk.temps + panics events ≤ length d.temps + panics (cycle t ∷ events)
cycle-length t events d c (ends, inl same) = rw same (by_panic t.panic)
  where
    by_panic :
        (o : Option Point)
        → length d.temps + panics events
          ≤ length d.temps + (elim o [ none ↦ panics events | some p ↦ suc (panics events) ])
    by_panic none = omega arith
    by_panic (some p) = omega arith
cycle-length t events d c (ends, inr (n, p, e, named, v, more)) = rw (more, e) (omega arith)

run-temps :
    (p : Process) (events : List Event)
    → Named p.disk events
    → length (run p events).disk.temps ≤ length p.disk.temps + panics events
unfolding run
run-temps p [] n = omega arith
run-temps p (cycle t ∷ events) (n, ns) =
    let c = tick_safe true p.disk t in
    omega (
      arith,
      run-temps (cycled p c) events ns,
      cycle-length t events p.disk c (tick_safe-After true p.disk t n),
    )
run-temps p (shutdown ∷ events) n = run-temps (record p { slot = close_geoip p.slot }) events n

ops-append :
    (d : Disk) (before after : List Event)
    → (d' : Disk) × (ops d (before ++ shutdown ∷ after) ≡ ops d before ++ close_op ∷ ops d' after)
unfolding ops
ops-append d [] after = (d, refl)
ops-append d (cycle t ∷ before) after =
    let c = tick_safe true d t in
    let (d', e) = ops-append c.disk before after in
    (
      d',
      ap (swap_op c.swapped) e
          ∙ swap_op-append c.swapped (ops c.disk before) (close_op ∷ ops d' after),
    )
  where
    swap_op-append : (o : Option ℕ) (xs ys : List Op) → swap_op o (xs ++ ys) ≡ swap_op o xs ++ ys
    swap_op-append none xs ys = refl
    swap_op-append (some h) xs ys = refl
ops-append d (shutdown ∷ before) after =
    let (d', e) = ops-append d before after in (d', ap (λ t. close_op ∷ t) e)

counts-Distinct : (xs : List ℕ) → ((h : ℕ) → count h xs ≤ 1) → Distinct xs
counts-Distinct [] f = tt
counts-Distinct (x ∷ xs) f =
    ((let own = f x in ground arith), counts-Distinct xs (λ h. let all = f h in ground arith))

launched-handed :
    (x : ℕ) (o : Option ℕ) (rest : List Op)
    → count x (handed (set_op o ∷ rest)) ≡ count x (handle_list o) + count x (handed rest)
launched-handed x none rest = omega arith
launched-handed x (some y) rest = omega arith

handed-Distinct :
    (d : Disk) (geo : Option ℕ) (events : List Event)
    → Named d events
    → Distinct (run (launched d geo) events).opened
    → Distinct (handed (set_op geo ∷ ops d events))
unfolding launched
handed-Distinct d geo events named distinct =
    counts-Distinct (handed (set_op geo ∷ ops d events)) (λ x. omega (
      arith,
      run-opened x (launched d geo) events named,
      launched-handed x geo (ops d events),
      Distinct-count (run (launched d geo) events).opened distinct x,
    ))

launched-slot :
    (d : Disk) (geo : Option ℕ) (events : List Event)
    → (run (launched d geo) events).slot ≡ G.run empty_slot (set_op geo ∷ ops d events)
unfolding launched G.run set_geoip empty_slot
launched-slot d geo events = run-slot (launched d geo) events

-- From the start of the process over any whole cycles of the updater and a shutdown, also with cycles
-- that panic and with cycles that end after it: the handler has no lookup at the end, and every handle that
-- was ever opened has been closed as often as it was opened, which is once, by the handler or by the
-- updater. There are at most as many temporary files more as cycles panicked. Every `Open` is taken to
-- give a handle of its own, and every temporary file a name of its own, and the removals to succeed.
pub run-closed :
    (d : Disk) (geo : Option ℕ) (before after : List Event) (h : ℕ)
    → Named d (before ++ shutdown ∷ after)
    → Distinct (run (launched d geo) (before ++ shutdown ∷ after)).opened
    → let p = run (launched d geo) (before ++ shutdown ∷ after) in
      (count h p.slot.closes + count h p.closed ≡ count h p.opened)
      × (p.slot.current ≡ none)
      × (length p.disk.temps ≤ length d.temps + panics (before ++ shutdown ∷ after))
unfolding launched
run-closed d geo before after h named distinct =
    let events = before ++ shutdown ∷ after in
    let start = launched d geo in
    let (d', split) = ops-append d before after in
    let once =
      subst (λ l. Distinct (handed (set_op geo ∷ l))) split
        (handed-Distinct d geo events named distinct) in
    let (closes, current) = run-closes (set_op geo ∷ ops d before) (ops d' after) h once in
    let slot = launched-slot d geo events ∙ ap (λ l. G.run empty_slot (set_op geo ∷ l)) split in
    (
      omega (
        arith,
        run-opened h start events named,
        launched-handed h geo (ops d events),
        ap (λ t. count h t.closes) slot
            ∙ closes
            ∙ ap (λ l. count h (handed (set_op geo ∷ l))) (sym split),
      ),
      ap (λ t. t.current) slot ∙ current,
      run-temps start events named,
    )

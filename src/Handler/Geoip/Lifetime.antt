-- ===== src/Handler/Geoip/Lifetime.antt =====
-- The life of a lookup's handle: it is not read after it was closed, and it is closed once.
use speedtest_go.Base.{
  ℕ, ◌+◌, ◌≤◌, ◌≡◌, refl, sym, ◌∙◌, ap, Bool, true, false, Option, none, some, List, [], ◌∷◌, ◌++◌,
  if◌then◌else◌, ◌==◌, arith, Bool-cases, ==_iff, inl, inr,
}
use speedtest_go.Handler.Geoip.{Slot, empty_slot, set_geoip, close_geoip, Op, set_op, close_op, run}

abbrev pub count : ℕ → List ℕ → ℕ
count h [] = 0
count h (x ∷ xs) = (if x == h then 1 else 0) + count h xs

-- The handles that were handed to `SetGeoIP`.
abbrev pub handed : List Op → List ℕ
handed [] = []
handed (set_op none ∷ ops) = handed ops
handed (set_op (some h) ∷ ops) = h ∷ handed ops
handed (close_op ∷ ops) = handed ops

-- Every handle is handed over once: each comes from an `Open` of its own.
abbrev pub Distinct : List ℕ → Type 0
Distinct [] = Unit {0}
Distinct (x ∷ xs) = (count x xs ≡ 0) × Distinct xs

abbrev pub holds : ℕ → Option ℕ → ℕ
holds h none = 0
holds h (some c) = if c == h then 1 else 0

pub Distinct-count : (xs : List ℕ) → Distinct xs → (h : ℕ) → count h xs ≤ 1
Distinct-count [] d h = omega arith
Distinct-count (x ∷ xs) d h = elim (Bool-cases (x == h)) [
  | inl hit ↦
      let same : count h xs ≡ 0 = ap (λ t. count t xs) (sym ((==_iff x h).0 hit)) ∙ d.0 in
      rw hit (omega arith)
  | inr miss ↦ rw miss (omega (arith, Distinct-count xs d.1 h))
]

-- The current handle is not handed over again.
abbrev Kept : Option ℕ → List ℕ → Type 0
Kept none later = Unit {0}
Kept (some c) later = count c later ≡ 0

run_counts :
    (h : ℕ) (ops : List Op) (cur : Option ℕ) (shut : Bool) (closes : List ℕ)
    → Distinct (handed ops)
    → Kept cur (handed ops)
    → let t = run (record { current = cur; closed = shut; closes = closes }) ops in
      count h t.closes + holds h t.current ≡ count h closes + holds h cur + count h (handed ops)
unfolding run
run_counts h [] cur shut closes d k = omega arith
run_counts h (set_op none ∷ ops) none true closes d k = run_counts h ops none true closes d k
run_counts h (set_op none ∷ ops) none false closes d k = run_counts h ops none false closes d k
run_counts h (set_op none ∷ ops) (some c) true closes d k =
    run_counts h ops (some c) true closes d k
run_counts h (set_op none ∷ ops) (some c) false closes d k =
    omega (arith, run_counts h ops none false (c ∷ closes) d tt)
run_counts h (set_op (some l) ∷ ops) none true closes d k =
    omega (arith, run_counts h ops none true (l ∷ closes) d.1 tt)
run_counts h (set_op (some l) ∷ ops) none false closes d k =
    omega (arith, run_counts h ops (some l) false closes d.1 d.0)
run_counts h (set_op (some l) ∷ ops) (some c) true closes d k =
    omega (arith, run_counts h ops (some c) true (l ∷ closes) d.1 (omega (arith, k)))
run_counts h (set_op (some l) ∷ ops) (some c) false closes d k =
    let other : (c == l) ≡ false = ground arith in
    let closed_now : count h (if c == l then closes else c ∷ closes) ≡ count h (c ∷ closes) =
      rw other in
    omega (
      arith,
      run_counts h ops (some l) false (if c == l then closes else c ∷ closes) d.1 d.0,
      closed_now,
    )
run_counts h (close_op ∷ ops) none shut closes d k = run_counts h ops none true closes d k
run_counts h (close_op ∷ ops) (some c) shut closes d k =
    omega (arith, run_counts h ops none true (c ∷ closes) d tt)

run_closed :
    (ops : List Op) (closes : List ℕ)
    → (run (record { current = none; closed = true; closes = closes }) ops).current ≡ none
unfolding run
run_closed [] closes = refl
run_closed (set_op none ∷ ops) closes = run_closed ops closes
run_closed (set_op (some l) ∷ ops) closes = run_closed ops (l ∷ closes)
run_closed (close_op ∷ ops) closes = run_closed ops closes

run-append :
    (before after : List Op) (s : Slot) → run s (before ++ after) ≡ run (run s before) after
unfolding run
run-append [] after s = refl
run-append (set_op l ∷ before) after s = run-append before after (set_geoip l s)
run-append (close_op ∷ before) after s = run-append before after (close_geoip s)

run_shutdown :
    (s : Slot) (before after : List Op) → (run s (before ++ close_op ∷ after)).current ≡ none
unfolding run
run_shutdown s before after =
    ap (λ t. t.current) (run-append before (close_op ∷ after) s) ∙ run_closed after _

-- However lookups are swapped and shut down, if every handle is handed over once, then the current
-- handle was never closed, so that no `LocateIP` reads a closed database.
pub run-current :
    (ops : List Op) (c : ℕ)
    → Distinct (handed ops)
    → (run empty_slot ops).current ≡ some c
    → count c (run empty_slot ops).closes ≡ 0
unfolding empty_slot
run-current ops c d e =
    let held : holds c (run empty_slot ops).current ≡ 1 = ap (holds c) e ∙ ground arith in
    omega (arith, run_counts c ops none false [] d tt, Distinct-count (handed ops) d c, held)

-- After a shutdown, also where swaps come late, every handle that was ever handed over is closed
-- exactly as often as it was handed over, which is once, and none is current.
pub run-closes :
    (before after : List Op) (h : ℕ)
    → Distinct (handed (before ++ close_op ∷ after))
    → (count h (run empty_slot (before ++ close_op ∷ after)).closes
        ≡ count h (handed (before ++ close_op ∷ after)))
      × ((run empty_slot (before ++ close_op ∷ after)).current ≡ none)
unfolding empty_slot
run-closes before after h d =
    let gone = run_shutdown empty_slot before after in
    let nothing : holds h (run empty_slot (before ++ close_op ∷ after)).current ≡ 0 =
      ap (holds h) gone in
    (omega (arith, run_counts h (before ++ close_op ∷ after) none false [] d tt, nothing), gone)

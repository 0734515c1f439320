-- ===== src/Geoip/Updater/Run/Follows.antt =====
-- What the loop of the updater leaves, cycle by cycle.
use speedtest_go.Base.{
  ℕ, ◌≡◌, ◌⊎◌, inl, inr, refl, sym, subst, Bool, Option, none, some, List, [], ◌∷◌,
}
use speedtest_go.Geoip.Updater.{Disk, Cycle}
use speedtest_go.Geoip.Updater.Safety.{NewNames, Ends, idle, tick_lem}
use speedtest_go.Geoip.Updater.Run.Panics.{written, Leftover, panicked-Leftover}
use speedtest_go.Geoip.Updater.Run.{
  Point, Turn, Wake, done, ticked, panicked, recovered, tick_safe, loop, run,
}

-- How a cycle may end in the loop.
abbrev pub After : Bool → Disk → Turn → Cycle → Type 0
After on_swap d t c =
    Ends d.target on_swap c
    × ((c.disk.temps ≡ d.temps)
        ⊎ ((n : ℕ) × (p : Point) × (t.panic ≡ some p)
            × (written t.answers p ≡ some n)
            × (c.verified ≡ none)
            × (c.disk.temps ≡ n ∷ d.temps)))

recovered-After :
    (on_swap : Bool) (d : Disk) (t : Turn) (p : Point) (x : Option Disk)
    → NewNames t.answers d
    → t.panic ≡ some p
    → Leftover (written t.answers p) d x
    → After on_swap d t (recovered t.answers on_swap d x)
unfolding recovered Leftover
recovered-After on_swap d t p none h e s =
    let (temps, ends) = tick_lem t.answers on_swap d h in (ends, inl temps)
recovered-After on_swap d t p (some d') h e (same, inl temps) =
    (idle d.target on_swap d' same, inl temps)
recovered-After on_swap d t p (some d') h e (same, inr (n, named, temps)) =
    (idle d.target on_swap d' same, inr (n, p, e, named, refl, temps))

pub tick_safe-After :
    (on_swap : Bool) (d : Disk) (t : Turn)
    → NewNames t.answers d
    → After on_swap d t (tick_safe on_swap d t)
unfolding tick_safe
tick_safe-After on_swap d t h = by_panic t.panic refl
  where
    by_panic : (o : Option Point) → t.panic ≡ o → After on_swap d t (tick_safe on_swap d t)
    by_panic none e =
        let (temps, ends) = tick_lem t.answers on_swap d h in rw (tick_safe, e) (ends, inl temps)
    by_panic (some p) e =
        let left = panicked t.answers p d in
        let same : tick_safe on_swap d t ≡ recovered t.answers on_swap d left =
          rw (tick_safe, e) refl in
        subst (After on_swap d t) (sym same)
          (recovered-After on_swap d t p left h e (panicked-Leftover t.answers p d h))

-- The turns that come before the context is done.
unfoldable pub turns : List Wake → List Turn
turns [] = []
turns (done ∷ wakes) = []
turns (ticked t ∷ wakes) = t ∷ turns wakes

-- `os.CreateTemp` gives each cycle names that are not there yet, and no removal fails.
abbrev pub AllNew : Bool → Disk → List Turn → Type 0
AllNew on_swap d [] = Unit {0}
AllNew on_swap d (t ∷ ts) = NewNames t.answers d × AllNew on_swap (tick_safe on_swap d t).disk ts

-- One cycle for each turn, each on the files that the one before left.
abbrev pub Follows : Bool → Disk → List Turn → List Cycle → Type 0
Follows on_swap d [] [] = Unit {0}
Follows on_swap d [] (c ∷ cs) = ⊥
Follows on_swap d (t ∷ ts) [] = ⊥
Follows on_swap d (t ∷ ts) (c ∷ cs) = After on_swap d t c × Follows on_swap c.disk ts cs

loop-Follows :
    (on_swap : Bool) (d : Disk) (wakes : List Wake)
    → AllNew on_swap d (turns wakes)
    → Follows on_swap d (turns wakes) (loop on_swap d wakes)
unfolding loop turns
loop-Follows on_swap d [] h = tt
loop-Follows on_swap d (done ∷ wakes) h = tt
loop-Follows on_swap d (ticked t ∷ wakes) (new, h) =
    (tick_safe-After on_swap d t new, loop-Follows on_swap (tick_safe on_swap d t).disk wakes h)

-- Where new files get new names and no removal fails, `Run` makes a first cycle and then one for each
-- tick before the context is done, whatever panics. Each leaves the target as it was, or puts a file
-- there that opened as a database and hands its handle over, and it closes every other handle that it
-- opened. It leaves no temporary file behind but for the one that a copy was writing when it panicked.
pub run-Follows :
    (on_swap : Bool) (d : Disk) (first : Turn) (wakes : List Wake)
    → AllNew on_swap d (first ∷ turns wakes)
    → Follows on_swap d (first ∷ turns wakes) (run on_swap d first wakes)
unfolding run
run-Follows on_swap d first wakes (new, h) = (
  tick_safe-After on_swap d first new,
  loop-Follows on_swap (tick_safe on_swap d first).disk wakes h,
)

-- ===== src/Geoip/Updater/Run/Unchanged.antt =====
-- A cycle that is answered 304.
use speedtest_go.Base.{◌≡◌, refl, sym, ap, subst, Bool, not, Option, none, some, if_both, arith}
use speedtest_go.Geoip.Updater.{
  Disk, Answers, Response, Cycle, responded, download, downloaded_cycle, tick,
}
use speedtest_go.Geoip.Updater.Run.{
  Point, in_body, in_archive, in_entry, in_opener, Turn, body_panic, archive_panic, panicked,
  recovered, tick_safe,
}

-- The server has nothing newer than the file that the target had.
abbrev pub IsUnchanged : Answers → Type 0
IsUnchanged a = (r : Response) × (a.response ≡ some r) × (r.status ≡ 304)

pub tick-IsUnchanged :
    (a : Answers) (on_swap : Bool) (d : Disk)
    → IsUnchanged a
    → ((tick a on_swap d).swapped ≡ none) × ((tick a on_swap d).disk ≡ d)
unfolding tick downloaded_cycle download responded
tick-IsUnchanged a on_swap d (r, answered, same) =
    let P = λ (c : Cycle). (c.swapped ≡ none) × (c.disk ≡ d) in
    if_both P (not a.mkdir_ok) _ _ (refl, refl) (downloaded_unchanged a on_swap d r answered same)
  where
    downloaded_unchanged :
        (a : Answers) (on_swap : Bool) (d : Disk) (r : Response)
        → a.response ≡ some r
        → r.status ≡ 304
        → ((downloaded_cycle a on_swap (download a d)).swapped ≡ none)
          × ((downloaded_cycle a on_swap (download a d)).disk ≡ d)
    downloaded_unchanged a on_swap d r answered same = ground arith

-- The cycle comes to none of the points at which one can panic.
panicked-IsUnchanged :
    (a : Answers) (p : Point) (d : Disk) (r : Response)
    → a.response ≡ some r
    → r.status ≡ 304
    → panicked a p d ≡ none
unfolding panicked body_panic archive_panic download responded
panicked-IsUnchanged a in_body d r answered same = ground arith
panicked-IsUnchanged a in_archive d r answered same = ground arith
panicked-IsUnchanged a in_entry d r answered same = ground arith
panicked-IsUnchanged a in_opener d r answered same = ground arith

pub tick_safe-IsUnchanged :
    (t : Turn) (on_swap : Bool) (d : Disk)
    → IsUnchanged t.answers
    → ((tick_safe on_swap d t).swapped ≡ none) × ((tick_safe on_swap d t).disk ≡ d)
unfolding tick_safe recovered
tick_safe-IsUnchanged t on_swap d u = by_panic t.panic refl
  where
    by_panic :
        (o : Option Point)
        → t.panic ≡ o
        → ((tick_safe on_swap d t).swapped ≡ none) × ((tick_safe on_swap d t).disk ≡ d)
    by_panic none e = rw (tick_safe, e) (tick-IsUnchanged t.answers on_swap d u)
    by_panic (some p) e =
        let same : tick_safe on_swap d t ≡ tick t.answers on_swap d =
          rw (tick_safe, e)
            (ap (recovered t.answers on_swap d) (panicked-IsUnchanged t.answers p d u.0 u.1 u.2)) in
        subst (λ c. (c.swapped ≡ none) × (c.disk ≡ d)) (sym same)
          (tick-IsUnchanged t.answers on_swap d u)

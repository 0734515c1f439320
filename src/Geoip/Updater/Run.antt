-- ===== src/Geoip/Updater/Run.antt =====
-- internal/geoip/updater.go: Run and tickSafe, the loop over the cycles. The callback of OnSwap is
-- taken not to panic.
pub mod Panics
pub mod Follows
pub mod Unchanged
use speedtest_go.Base.{
  ℕ, ◌≡◌, Bool, true, false, ◌&&◌, Option, none, some, List, [], ◌∷◌, if◌then◌else◌, ◌==◌,
}
use speedtest_go.Geoip.Updater.{
  File, Disk, Answers, Response, Entry, Download, failed, unchanged, downloaded, Cycle, nothing,
  create, remove, download, first_entry, extract, tick,
}

-- Where a cycle can panic: while it copies the body of the response, while it reads the archive,
-- while it copies the entry, and in the `Opener`.
pub data Point : Type 0 where
  in_body in_archive in_entry in_opener : Point

-- What the answers to a cycle are, and where it panics, if it comes there.
pub record Turn : Type 0 where
  pub answers : Answers
  pub panic : Option Point

created : Disk → Option ℕ → Option Disk
unfolding create
created d none = none
created d (some n) = some (create n d)

body_panic : Answers → Disk → Option Response → Option Disk
unfolding created
body_panic a d none = none
body_panic a d (some r) = if r.status == 200 then created d a.tar_temp else none

removed : Answers → ℕ → Option Disk → Option Disk
unfolding remove
removed a tmp none = none
removed a tmp (some d) = some (remove a tmp d)

entry_panic : Answers → Disk → Option Entry → Option Disk
unfolding created
entry_panic a d none = none
entry_panic a d (some e) = created d a.mmdb_temp

opener_panic : Answers → Option (ℕ × File) × Disk → Option Disk
unfolding remove
opener_panic a (none, d) = none
opener_panic a (some (n, f), d) = some (remove a n d)

-- After the download: the deferred removals are made, but a copy that panics has none for its file.
later_panic : Answers → Point → Disk → Option Disk
unfolding entry_panic opener_panic first_entry extract
later_panic a in_body d = none
later_panic a in_archive d = if a.tar_open_ok then some d else none
later_panic a in_entry d =
    if a.tar_open_ok && a.gzip_ok then entry_panic a d (first_entry a.entries) else none
later_panic a in_opener d = opener_panic a (extract a d)

archive_panic : Answers → Point → Download × Disk → Option Disk
unfolding later_panic removed
archive_panic a p (failed, d) = none
archive_panic a p (unchanged, d) = none
archive_panic a p (downloaded tmp, d) = removed a tmp (later_panic a p d)

-- The files after the panic, none where the cycle does not come to that point.
unfoldable pub panicked : Answers → Point → Disk → Option Disk
unfolding body_panic archive_panic download
panicked a in_body d = if a.mkdir_ok && a.request_ok then body_panic a d a.response else none
panicked a in_archive d = if a.mkdir_ok then archive_panic a in_archive (download a d) else none
panicked a in_entry d = if a.mkdir_ok then archive_panic a in_entry (download a d) else none
panicked a in_opener d = if a.mkdir_ok then archive_panic a in_opener (download a d) else none

recovered : Answers → Bool → Disk → Option Disk → Cycle
unfolding tick
recovered a on_swap d none = tick a on_swap d
recovered a on_swap d (some left) = nothing left

unfoldable pub tick_safe : Bool → Disk → Turn → Cycle
unfolding panicked recovered tick
tick_safe on_swap d t = elim t.panic [
  | none ↦ tick t.answers on_swap d
  | some p ↦ recovered t.answers on_swap d (panicked t.answers p d)
]

-- What the `select` takes up.
pub data Wake : Type 0 where
  done : Wake
  ticked : Turn → Wake

unfoldable pub loop : Bool → Disk → List Wake → List Cycle
unfolding tick_safe
loop on_swap d [] = []
loop on_swap d (done ∷ wakes) = []
loop on_swap d (ticked t ∷ wakes) =
    tick_safe on_swap d t ∷ loop on_swap (tick_safe on_swap d t).disk wakes

-- The cycles of `Run`, the first of which waits for nothing.
unfoldable pub run : Bool → Disk → Turn → List Wake → List Cycle
unfolding loop tick_safe
run on_swap d first wakes =
    tick_safe on_swap d first ∷ loop on_swap (tick_safe on_swap d first).disk wakes

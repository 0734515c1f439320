-- ===== src/Geoip/Updater/Run/Panics.antt =====
-- What a panic of a cycle leaves beside the target.
use speedtest_go.Base.{
  ℕ, ◌≡◌, ◌≢◌, ◌⊎◌, inl, inr, refl, ap, ◌∙◌, subst, false, ◌&&◌, Option, none, some, List, ◌∷◌,
  if◌then◌else◌, if_both, ◌==◌, arith,
}
use speedtest_go.Geoip.Updater.{
  File, Disk, Answers, Response, Entry, Download, failed, unchanged, downloaded, without, create,
  download, first_entry, extract,
}
use speedtest_go.Geoip.Updater.Safety.{
  Fresh, FreshName, Apart, NewNames, Downloaded, Extracted, Removes, remove-target, remove-temps,
  without_created, download_lem, extract_lem, Apart-Fresh,
}
use speedtest_go.Geoip.Updater.Run.{
  Point, in_body, in_archive, in_entry, in_opener, created, body_panic, removed, entry_panic,
  opener_panic, later_panic, archive_panic, panicked,
}

-- The temporary files are what they were, or the one of that name is left.
abbrev pub Left : Option ℕ → List ℕ → List ℕ → Type 0
Left o temps left = (left ≡ temps) ⊎ ((n : ℕ) × (o ≡ some n) × (left ≡ n ∷ temps))

unfoldable pub Leftover : Option ℕ → Disk → Option Disk → Type 0
Leftover o d none = Unit {0}
Leftover o d (some d') = (d'.target ≡ d.target) × Left o d.temps d'.temps

created_lem : (d : Disk) (o : Option ℕ) → Leftover o d (created d o)
unfolding Leftover created create
created_lem d none = tt
created_lem d (some n) = (refl, inr (n, refl, refl))

body_panic_lem :
    (a : Answers) (d : Disk) (o : Option Response) → Leftover a.tar_temp d (body_panic a d o)
unfolding Leftover body_panic
body_panic_lem a d none = tt
body_panic_lem a d (some r) =
    if_both (Leftover a.tar_temp d) (r.status == 200) _ _ (created_lem d a.tar_temp) tt

entry_panic_lem :
    (a : Answers) (d : Disk) (o : Option Entry) → Leftover a.mmdb_temp d (entry_panic a d o)
unfolding Leftover entry_panic
entry_panic_lem a d none = tt
entry_panic_lem a d (some e) = created_lem d a.mmdb_temp

-- The file that a copy is writing at the point.
abbrev pub written : Answers → Point → Option ℕ
written a in_body = a.tar_temp
written a in_entry = a.mmdb_temp
written a in_archive = none
written a in_opener = none

opener_panic_lem :
    (a : Answers) (d : Disk) (x : Option (ℕ × File) × Disk)
    → Removes a
    → FreshName a.mmdb_temp d.temps
    → Extracted a d x
    → Leftover none d (opener_panic a x)
unfolding Leftover opener_panic Extracted
opener_panic_lem a d (none, d') ok h k = tt
opener_panic_lem a d (some (n, f), d') ok h (e, (t, k)) =
    let new : Fresh n d.temps = subst (λ o. FreshName o d.temps) e h in
    (
      remove-target a n d' ∙ t,
      inl (remove-temps a n d' ok ∙ ap (without n) k ∙ without_created n d.temps new),
    )

later_panic_lem :
    (a : Answers) (p : Point) (d : Disk)
    → Removes a
    → FreshName a.mmdb_temp d.temps
    → Leftover (written a p) d (later_panic a p d)
unfolding Leftover later_panic
later_panic_lem a in_body d ok h = tt
later_panic_lem a in_archive d ok h =
    if_both (Leftover none d) a.tar_open_ok _ _ (refl, inl refl) tt
later_panic_lem a in_entry d ok h =
    if_both (Leftover a.mmdb_temp d) (a.tar_open_ok && a.gzip_ok) _ _
      (entry_panic_lem a d (first_entry a.entries)) tt
later_panic_lem a in_opener d ok h = opener_panic_lem a d (extract a d) ok h (extract_lem a d ok h)

-- The removal of the archive, whose name is not that of the file that is left.
without_under :
    (tmp n : ℕ) (temps : List ℕ)
    → Apart (some tmp) (some n)
    → Fresh tmp temps
    → without tmp (n ∷ tmp ∷ temps) ≡ n ∷ temps
unfolding without
without_under tmp n temps other new =
    let flipped : (n == tmp) ≡ false = ground arith in
    rw flipped (ap (λ t. n ∷ t) (without_created tmp temps new))

removed_lem :
    (a : Answers) (o : Option ℕ) (tmp : ℕ) (d d' : Disk) (x : Option Disk)
    → Removes a
    → d'.target ≡ d.target
    → d'.temps ≡ tmp ∷ d.temps
    → Fresh tmp d.temps
    → Apart (some tmp) o
    → Leftover o d' x
    → Leftover o d (removed a tmp x)
unfolding Leftover removed
removed_lem a o tmp d d' none ok t k new other h = tt
removed_lem a o tmp d d' (some e) ok t k new other (t', inl same) = (
  remove-target a tmp e ∙ t' ∙ t,
  inl (remove-temps a tmp e ok ∙ ap (without tmp) (same ∙ k) ∙ without_created tmp d.temps new),
)
removed_lem a o tmp d d' (some e) ok t k new other (t', inr (n, named, more)) = (
  remove-target a tmp e ∙ t' ∙ t,
  inr (
    n,
    named,
    remove-temps a tmp e ok
        ∙ ap (without tmp) (more ∙ ap (λ l. n ∷ l) k)
        ∙ without_under tmp n d.temps (subst (Apart (some tmp)) named other) new,
  ),
)

-- The points after the download.
written-Apart :
    (a : Answers) (p : Point) (tmp : ℕ)
    → p ≢ in_body
    → Apart (some tmp) a.mmdb_temp
    → Apart (some tmp) (written a p)
written-Apart a in_body tmp later h = absurd (later refl)
written-Apart a in_archive tmp later h = tt
written-Apart a in_entry tmp later h = h
written-Apart a in_opener tmp later h = tt

archive_panic_lem :
    (a : Answers) (p : Point) (d : Disk) (x : Download × Disk)
    → p ≢ in_body
    → NewNames a d
    → Downloaded a d x
    → Leftover (written a p) d (archive_panic a p x)
unfolding Leftover archive_panic Downloaded
archive_panic_lem a p d (failed, d') later h k = tt
archive_panic_lem a p d (unchanged, d') later h k = tt
archive_panic_lem a p d (downloaded tmp, d') later h (e, (t, k)) =
    removed_lem a (written a p) tmp d d' (later_panic a p d') h.removes t k
      (subst (λ o. FreshName o d.temps) e h.tar)
      (written-Apart a p tmp later (subst (λ o. Apart o a.mmdb_temp) e h.apart))
      (later_panic_lem a p d' h.removes (Apart-Fresh a d d' tmp h e k))

archive_panic-Leftover :
    (a : Answers) (p : Point) (d : Disk)
    → p ≢ in_body
    → NewNames a d
    → Leftover (written a p) d (if a.mkdir_ok then archive_panic a p (download a d) else none)
unfolding Leftover
archive_panic-Leftover a p d later h =
    if_both (Leftover (written a p) d) a.mkdir_ok _ _
      (archive_panic_lem a p d (download a d) later h (download_lem a d h)) tt

pub panicked-Leftover :
    (a : Answers) (p : Point) (d : Disk) → NewNames a d → Leftover (written a p) d (panicked a p d)
unfolding panicked Leftover
panicked-Leftover a in_body d h =
    if_both (Leftover a.tar_temp d) (a.mkdir_ok && a.request_ok) _ _ (body_panic_lem a d a.response)
      tt
panicked-Leftover a in_archive d h = archive_panic-Leftover a in_archive d (λ e. cc) h
panicked-Leftover a in_entry d h = archive_panic-Leftover a in_entry d (λ e. cc) h
panicked-Leftover a in_opener d h = archive_panic-Leftover a in_opener d (λ e. cc) h

-- ===== src/Geoip/Updater.antt =====
-- internal/geoip/updater.go: one cycle of the updater, on the directory of the target file.
pub mod Safety
pub mod Request
pub mod Run
use speedtest_go.Base.{
  ℕ, zero, suc, ◌+◌, Bool, true, false, not, ◌&&◌, Option, none, some, List, [], ◌∷◌, ◌++◌, map,
  Str, str, str_eq, is_empty, if◌then◌else◌, ◌==◌, leb, min, length, drop,
}
use speedtest_go.Base.Int.{ℤ, pos, leb_ℤ}

-- 200 MB
abbrev pub max_bytes : ℕ
max_bytes = 209_715_200

-- `UpdaterConfig`, whose client, log and opener are those of the package by default.
pub record UpdaterConfig : Type 0 where
  pub license_key : Str
  pub edition : Str
  pub target_path : Str
  -- nanoseconds
  pub refresh_interval : ℤ

-- `NewUpdater`; none where a value is missing. The interval is a week by default.
unfoldable pub new_updater : UpdaterConfig → Option UpdaterConfig
new_updater cfg =
    if is_empty cfg.license_key
    then none
    else if is_empty cfg.edition
    then none
    else if is_empty cfg.target_path
    then none
    else some (record cfg {
      refresh_interval =
          if leb_ℤ cfg.refresh_interval (pos 0)
          then pos 604_800_000_000_000
          else cfg.refresh_interval;
    })

-- A file's contents, as a serial number, and how many bytes of them there are.
pub record File : Type 0 where
  pub data_id : ℕ
  pub size : ℕ

-- The target file and the temporary files beside it, by their names.
pub record Disk : Type 0 where
  pub target : Option File
  pub temps : List ℕ

pub record Response : Type 0 where
  pub status : ℕ
  pub size : ℕ
  -- the body ends in an error
  pub broken : Bool

pub record Entry : Type 0 where
  pub regular : Bool
  pub name : Str
  pub content : File
  -- its data ends in an error
  pub broken : Bool

-- What the operating system, the network and the archive answer in one cycle. A temporary file gets
-- a name, none where it cannot be created; `opened` is the handle of the `Opener`, none for an error.
pub record Answers : Type 0 where
  pub mkdir_ok : Bool
  pub request_ok : Bool
  pub response : Option Response
  pub tar_temp : Option ℕ
  pub tar_close_ok : Bool
  pub tar_open_ok : Bool
  pub gzip_ok : Bool
  pub entries : List Entry
  pub mmdb_temp : Option ℕ
  pub mmdb_close_ok : Bool
  pub opened : Option ℕ
  pub rename_ok : Bool
  -- whether the removal of the file of that name succeeds
  pub remove_ok : ℕ → Bool

unfoldable pub without : ℕ → List ℕ → List ℕ
without n [] = []
without n (m ∷ temps) = let rest = without n temps in if m == n then rest else m ∷ rest

unfoldable pub create : ℕ → Disk → Disk
create n d = record d { temps = n ∷ d.temps }

-- `os.Remove` of a temporary file, whose error is ignored: the file may stay.
unfoldable pub remove : Answers → ℕ → Disk → Disk
unfolding without
remove a n d = if a.remove_ok n then record d { temps = without n d.temps } else d

-- `io.Copy(w, io.LimitReader(r, maxBytes))`: the bytes copied, none for an error before the limit.
unfoldable pub copy_limited : ℕ → Bool → Option ℕ
copy_limited size broken =
    if leb max_bytes size then some max_bytes else if broken then none else some size

pub data Download : Type 0 where
  failed unchanged : Download
  downloaded : ℕ → Download

stored : Answers → Response → ℕ → Disk → Option ℕ → Download × Disk
unfolding remove
stored a r n d none = (failed, remove a n d)
stored a r n d (some written) =
    if not a.tar_close_ok
    then (failed, remove a n d)
    else if leb max_bytes written
    then (failed, remove a n d)
    else (downloaded n, d)

temp_stored : Answers → Response → Disk → Option ℕ → Download × Disk
unfolding stored create copy_limited
temp_stored a r d none = (failed, d)
temp_stored a r d (some n) = stored a r n (create n d) (copy_limited r.size r.broken)

responded : Answers → Disk → Option Response → Download × Disk
unfolding temp_stored
responded a d none = (failed, d)
responded a d (some r) =
    if r.status == 304
    then (unchanged, d)
    else if not (r.status == 200)
    then (failed, d)
    else temp_stored a r d a.tar_temp

unfoldable pub download : Answers → Disk → Download × Disk
unfolding responded
download a d = if not a.request_ok then (failed, d) else responded a d a.response

-- `strings.HasSuffix(strings.ToLower(path.Base(name)), ".mmdb")`: a suffix without a slash is one of
-- the name up to trailing slashes.
lower : ℕ → ℕ
lower c = if leb b'A' c && leb c b'Z' then c + 32 else c

trim_slashes : Str → Str
trim_slashes [] = []
trim_slashes (c ∷ s) = let rest = trim_slashes s in if c == b'/' then rest else c ∷ s

reversed : Str → Str → Str
reversed [] out = out
reversed (c ∷ s) out = reversed s (c ∷ out)

unfoldable pub is_mmdb : Str → Bool
unfolding trim_slashes reversed lower str_eq
is_mmdb name = starts (str "bdmm.") (map lower (trim_slashes (reversed name [])))
  where
    starts : Str → Str → Bool
    starts [] s = true
    starts (c ∷ p) [] = false
    starts (c ∷ p) (b ∷ s) = let rest = starts p s in (c == b) && rest

copied : Answers → Entry → Disk → ℕ → Option ℕ → Option (ℕ × File) × Disk
unfolding remove
copied a e d n none = (none, remove a n d)
copied a e d n (some written) =
    if not a.mmdb_close_ok
    then (none, remove a n d)
    else (some (n, record { data_id = e.content.data_id; size = written }), d)

entry_copied : Answers → Entry → Disk → Option ℕ → Option (ℕ × File) × Disk
unfolding copied create copy_limited
entry_copied a e d none = (none, d)
entry_copied a e d (some n) = copied a e (create n d) n (copy_limited e.content.size e.broken)

-- The loop over the archive; it ends without an entry, or with an error, in the same way.
unfoldable pub first_entry : List Entry → Option Entry
unfolding is_mmdb
first_entry [] = none
first_entry (e ∷ entries) =
    let rest = first_entry entries in if e.regular && is_mmdb e.name then some e else rest

entry_found : Answers → Disk → Option Entry → Option (ℕ × File) × Disk
unfolding entry_copied
entry_found a d none = (none, d)
entry_found a d (some e) = entry_copied a e d a.mmdb_temp

unfoldable pub extract : Answers → Disk → Option (ℕ × File) × Disk
unfolding entry_found first_entry
extract a d =
    if not (a.tar_open_ok && a.gzip_ok) then (none, d) else entry_found a d (first_entry a.entries)

-- A cycle's end: the disk, the file that the opener was given with the handle that it opened, the
-- handles that were closed, and the one that was handed to the callback.
pub record Cycle : Type 0 where
  pub disk : Disk
  pub verified : Option (File × ℕ)
  pub closes : List ℕ
  pub swapped : Option ℕ

abbrev nothing : Disk → Cycle
nothing d = record { disk = d; verified = none; closes = []; swapped = none }

verified_cycle : Answers → Bool → Disk → ℕ → File → Option ℕ → Cycle
unfolding remove
verified_cycle a on_swap d n f none = nothing (remove a n d)
verified_cycle a on_swap d n f (some h) =
    if not a.rename_ok
    then record { disk = remove a n d; verified = some (f, h); closes = h ∷ []; swapped = none }
    else record {
      disk = record (remove a n d) { target = some f };
      verified = some (f, h);
      closes = if on_swap then [] else h ∷ [];
      swapped = if on_swap then some h else none;
    }

extracted_cycle : Answers → Bool → Option (ℕ × File) × Disk → Cycle
unfolding verified_cycle
extracted_cycle a on_swap (none, d) = nothing d
extracted_cycle a on_swap (some (n, f), d) = verified_cycle a on_swap d n f a.opened

downloaded_cycle : Answers → Bool → Download × Disk → Cycle
unfolding extracted_cycle extract remove
downloaded_cycle a on_swap (failed, d) = nothing d
downloaded_cycle a on_swap (unchanged, d) = nothing d
downloaded_cycle a on_swap (downloaded tmp, d) =
    let c = extracted_cycle a on_swap (extract a d) in record c { disk = remove a tmp c.disk }

-- `on_swap` says whether a callback is registered.
unfoldable pub tick : Answers → (on_swap : Bool) → Disk → Cycle
unfolding downloaded_cycle download
tick a on_swap d = if not a.mkdir_ok then nothing d else downloaded_cycle a on_swap (download a d)

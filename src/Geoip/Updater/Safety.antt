-- ===== src/Geoip/Updater/Safety.antt =====
-- A cycle of the updater is safe on every path.
use speedtest_go.Base.{
  ℕ, ◌≡◌, ◌⊎◌, inl, inr, ◌∙◌, refl, ap, sym, subst, Bool, true, false, not, Option, none, some,
  List, [], ◌∷◌, if◌then◌else◌, if_both, ◌&&◌, ◌==◌, leb, arith,
}
use speedtest_go.Geoip.Updater.{
  File, Disk, Answers, Response, Entry, Download, failed, unchanged, downloaded, Cycle, nothing,
  without, create, remove, copy_limited, stored, temp_stored, responded, download, copied,
  entry_copied, entry_found, first_entry, extract, verified_cycle, extracted_cycle,
  downloaded_cycle, tick, max_bytes,
}

-- A name that no file of the list has.
abbrev pub Fresh : ℕ → List ℕ → Type 0
Fresh n [] = Unit {0}
Fresh n (m ∷ temps) = ((m == n) ≡ false) × Fresh n temps

abbrev pub FreshName : Option ℕ → List ℕ → Type 0
FreshName none temps = Unit {0}
FreshName (some n) temps = Fresh n temps

abbrev pub Apart : Option ℕ → Option ℕ → Type 0
Apart none o = Unit {0}
Apart (some n) none = Unit {0}
Apart (some n) (some m) = (n == m) ≡ false

abbrev pub Removes : Answers → Type 0
Removes a = (n : ℕ) → a.remove_ok n ≡ true

-- `os.CreateTemp` makes a new file: its name is none that is there, and two calls give two names. No
-- removal fails.
pub record NewNames (a : Answers) (d : Disk) : Type 0 where
  pub tar : FreshName a.tar_temp d.temps
  pub mmdb : FreshName a.mmdb_temp d.temps
  pub apart : Apart a.tar_temp a.mmdb_temp
  pub removes : Removes a

-- How a cycle may end, after it started with these files.
abbrev pub Ends : Option File → Bool → Cycle → Type 0
Ends target on_swap c =
    ((c.disk.target ≡ target)
      × ((c.swapped ≡ none)
          × (((c.verified ≡ none) × (c.closes ≡ []))
              ⊎ ((f : File) × (h : ℕ) × (c.verified ≡ some (f, h)) × (c.closes ≡ h ∷ [])))))
    ⊎ ((f : File) × (h : ℕ) × (c.verified ≡ some (f, h))
        × (c.disk.target ≡ some f)
        × (c.swapped ≡ (if on_swap then some h else none))
        × (c.closes ≡ (if on_swap then [] else h ∷ [])))

without-Fresh : (n : ℕ) (temps : List ℕ) → Fresh n temps → without n temps ≡ temps
unfolding without
without-Fresh n [] h = refl
without-Fresh n (m ∷ temps) h = rw (h.0) (ap (λ t. m ∷ t) (without-Fresh n temps h.1))

same_name : (n : ℕ) → (n == n) ≡ true
same_name n = ground arith

pub without_created : (n : ℕ) (temps : List ℕ) → Fresh n temps → without n (n ∷ temps) ≡ temps
unfolding without
without_created n temps h = rw (same_name n) (without-Fresh n temps h)

pub remove-target : (a : Answers) (n : ℕ) (d : Disk) → (remove a n d).target ≡ d.target
unfolding remove
remove-target a n d = if_both (λ (x : Disk). x.target ≡ d.target) (a.remove_ok n) _ _ refl refl

pub remove-temps :
    (a : Answers) (n : ℕ) (d : Disk) → Removes a → (remove a n d).temps ≡ without n d.temps
unfolding remove
remove-temps a n d ok = rw (ok n, remove) refl

-- A stage of the cycle leaves the temporary files and the target as they were.
unfoldable pub Kept : Disk → Disk → Type 0
Kept d d' = (d'.target ≡ d.target) × (d'.temps ≡ d.temps)

-- A download fails and leaves everything, or leaves its one file.
unfoldable pub Downloaded : Answers → Disk → Download × Disk → Type 0
Downloaded a d (failed, d') = Kept d d'
Downloaded a d (unchanged, d') = Kept d d'
Downloaded a d (downloaded n, d') =
    (a.tar_temp ≡ some n) × ((d'.target ≡ d.target) × (d'.temps ≡ n ∷ d.temps))

remove_created :
    (a : Answers) (n : ℕ) (d : Disk)
    → Removes a
    → Fresh n d.temps
    → Kept d (remove a n (create n d))
unfolding create Kept
remove_created a n d ok h =
    (remove-target a n (create n d), remove-temps a n (create n d) ok ∙ without_created n d.temps h)

stored_lem :
    (a : Answers) (r : Response) (n : ℕ) (d : Disk) (o : Option ℕ)
    → Removes a
    → a.tar_temp ≡ some n
    → Fresh n d.temps
    → Downloaded a d (stored a r n (create n d) o)
unfolding stored create Downloaded Kept
stored_lem a r n d none ok e h = remove_created a n d ok h
stored_lem a r n d (some written) ok e h =
    let gone = remove_created a n d ok h in
    if_both (Downloaded a d) (not a.tar_close_ok) _ _ gone
      (if_both (Downloaded a d) (leb max_bytes written) _ _ gone (e, (refl, refl)))

temp_stored_lem :
    (a : Answers) (r : Response) (d : Disk) (o : Option ℕ)
    → Removes a
    → a.tar_temp ≡ o
    → FreshName o d.temps
    → Downloaded a d (temp_stored a r d o)
unfolding temp_stored Downloaded Kept
temp_stored_lem a r d none ok e h = (refl, refl)
temp_stored_lem a r d (some n) ok e h = stored_lem a r n d (copy_limited r.size r.broken) ok e h

responded_lem :
    (a : Answers) (d : Disk) (o : Option Response) → NewNames a d → Downloaded a d (responded a d o)
unfolding responded Downloaded Kept
responded_lem a d none h = (refl, refl)
responded_lem a d (some r) h =
    if_both (Downloaded a d) (r.status == 304) _ _ (refl, refl)
      (if_both (Downloaded a d) (not (r.status == 200)) _ _ (refl, refl)
        (temp_stored_lem a r d a.tar_temp h.removes refl h.tar))

pub download_lem : (a : Answers) (d : Disk) → NewNames a d → Downloaded a d (download a d)
unfolding download Downloaded Kept
download_lem a d h =
    if_both (Downloaded a d) (not a.request_ok) _ _ (refl, refl) (responded_lem a d a.response h)

-- An extraction fails and leaves everything, or leaves its one file.
unfoldable pub Extracted : Answers → Disk → Option (ℕ × File) × Disk → Type 0
Extracted a d (none, d') = Kept d d'
Extracted a d (some (n, f), d') =
    (a.mmdb_temp ≡ some n) × ((d'.target ≡ d.target) × (d'.temps ≡ n ∷ d.temps))

copied_lem :
    (a : Answers) (x : Entry) (n : ℕ) (d : Disk) (o : Option ℕ)
    → Removes a
    → a.mmdb_temp ≡ some n
    → Fresh n d.temps
    → Extracted a d (copied a x (create n d) n o)
unfolding copied create Extracted Kept
copied_lem a x n d none ok e h = remove_created a n d ok h
copied_lem a x n d (some written) ok e h =
    if_both (Extracted a d) (not a.mmdb_close_ok) _ _ (remove_created a n d ok h) (e, (refl, refl))

entry_copied_lem :
    (a : Answers) (x : Entry) (d : Disk) (o : Option ℕ)
    → Removes a
    → a.mmdb_temp ≡ o
    → FreshName o d.temps
    → Extracted a d (entry_copied a x d o)
unfolding entry_copied Extracted Kept
entry_copied_lem a x d none ok e h = (refl, refl)
entry_copied_lem a x d (some n) ok e h =
    copied_lem a x n d (copy_limited x.content.size x.broken) ok e h

entry_found_lem :
    (a : Answers) (d : Disk) (o : Option Entry)
    → Removes a
    → FreshName a.mmdb_temp d.temps
    → Extracted a d (entry_found a d o)
unfolding entry_found Extracted Kept
entry_found_lem a d none ok h = (refl, refl)
entry_found_lem a d (some x) ok h = entry_copied_lem a x d a.mmdb_temp ok refl h

pub extract_lem :
    (a : Answers) (d : Disk)
    → Removes a
    → FreshName a.mmdb_temp d.temps
    → Extracted a d (extract a d)
unfolding extract Extracted Kept
extract_lem a d ok h =
    if_both (Extracted a d) (not (a.tar_open_ok && a.gzip_ok)) _ _ (refl, refl)
      (entry_found_lem a d (first_entry a.entries) ok h)

-- A part of the cycle ends in a known way and leaves these temporary files.
EndsWith : Option File → List ℕ → Bool → Cycle → Type 0
EndsWith target temps on_swap c = (c.disk.temps ≡ temps) × Ends target on_swap c

pub idle :
    (target : Option File) (on_swap : Bool) (d : Disk)
    → d.target ≡ target
    → Ends target on_swap (nothing d)
idle target on_swap d e = inl (e, (refl, inl (refl, refl)))

verified_lem :
    (a : Answers) (on_swap : Bool) (d : Disk) (n : ℕ) (f : File) (o : Option ℕ)
    (target : Option File) (temps : List ℕ)
    → Removes a
    → d.target ≡ target
    → without n d.temps ≡ temps
    → EndsWith target temps on_swap (verified_cycle a on_swap d n f o)
unfolding verified_cycle EndsWith
verified_lem a on_swap d n f none target temps ok e h =
    (remove-temps a n d ok ∙ h, inl (remove-target a n d ∙ e, (refl, inl (refl, refl))))
verified_lem a on_swap d n f (some k) target temps ok e h =
    let gone = remove-temps a n d ok ∙ h in
    if_both (EndsWith target temps on_swap) (not a.rename_ok) _ _
      (gone, inl (remove-target a n d ∙ e, (refl, inr (f, k, refl, refl))))
      (gone, inr (f, k, refl, refl, refl, refl))

extracted_cycle_lem :
    (a : Answers) (on_swap : Bool) (d : Disk) (x : Option (ℕ × File) × Disk)
    → Removes a
    → FreshName a.mmdb_temp d.temps
    → Extracted a d x
    → EndsWith d.target d.temps on_swap (extracted_cycle a on_swap x)
unfolding extracted_cycle Extracted EndsWith Kept
extracted_cycle_lem a on_swap d (none, d') ok h k = (k.1, idle d.target on_swap d' k.0)
extracted_cycle_lem a on_swap d (some (n, f), d') ok h (e, (t, k)) =
    let new : Fresh n d.temps = subst (λ o. FreshName o d.temps) e h in
    verified_lem a on_swap d' n f a.opened d.target d.temps ok t
      (ap (without n) k ∙ without_created n d.temps new)

Ends-remove :
    (a : Answers) (target : Option File) (on_swap : Bool) (n : ℕ) (c : Cycle)
    → Ends target on_swap c
    → Ends target on_swap (record c { disk = remove a n c.disk })
Ends-remove a target on_swap n c (inl (t, rest)) = inl (remove-target a n c.disk ∙ t, rest)
Ends-remove a target on_swap n c (inr (f, k, v, t, s, q)) =
    inr (f, k, v, remove-target a n c.disk ∙ t, s, q)

pub Apart-Fresh :
    (a : Answers) (d d' : Disk) (n : ℕ)
    → NewNames a d
    → a.tar_temp ≡ some n
    → d'.temps ≡ n ∷ d.temps
    → FreshName a.mmdb_temp d'.temps
Apart-Fresh a d d' n h e k =
    subst (FreshName a.mmdb_temp) (sym k)
      (FreshName_cons a.mmdb_temp h.mmdb (subst (λ o. Apart o a.mmdb_temp) e h.apart))
  where
    FreshName_cons :
        (o : Option ℕ) → FreshName o d.temps → Apart (some n) o → FreshName o (n ∷ d.temps)
    FreshName_cons none p q = tt
    FreshName_cons (some m) p q = (q, p)

downloaded_cycle_lem :
    (a : Answers) (on_swap : Bool) (d : Disk) (x : Download × Disk)
    → NewNames a d
    → Downloaded a d x
    → EndsWith d.target d.temps on_swap (downloaded_cycle a on_swap x)
unfolding downloaded_cycle Downloaded EndsWith Kept
downloaded_cycle_lem a on_swap d (failed, d') h k = (k.1, idle d.target on_swap d' k.0)
downloaded_cycle_lem a on_swap d (unchanged, d') h k = (k.1, idle d.target on_swap d' k.0)
downloaded_cycle_lem a on_swap d (downloaded n, d') h (e, (t, k)) =
    let fresh = Apart-Fresh a d d' n h e k in
    let (temps, ends) =
      extracted_cycle_lem a on_swap d' (extract a d') h.removes fresh
        (extract_lem a d' h.removes fresh) in
    let new : Fresh n d.temps = subst (λ o. FreshName o d.temps) e h.tar in
    (
      remove-temps a n _ h.removes ∙ ap (without n) (temps ∙ k) ∙ without_created n d.temps new,
      subst (λ old. Ends old on_swap (downloaded_cycle a on_swap (downloaded n, d'))) t
          (Ends-remove a d'.target on_swap n (extracted_cycle a on_swap (extract a d')) ends),
    )

-- Whatever error a cycle meets, if it does not panic and its removals succeed, it leaves no temporary
-- file behind. Either the target file is what it was and nothing is swapped in, or it is a file that
-- opened as a database, and its handle went to the callback. A handle that was opened and not handed
-- over is closed, once.
pub tick_lem :
    (a : Answers) (on_swap : Bool) (d : Disk)
    → NewNames a d
    → ((tick a on_swap d).disk.temps ≡ d.temps) × Ends d.target on_swap (tick a on_swap d)
unfolding tick EndsWith
tick_lem a on_swap d h =
    if_both (EndsWith d.target d.temps on_swap) (not a.mkdir_ok) _ _
      (refl, idle d.target on_swap d refl)
      (downloaded_cycle_lem a on_swap d (download a d) h (download_lem a d h))

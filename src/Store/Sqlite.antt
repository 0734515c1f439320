-- ===== src/Store/Sqlite.antt =====
-- internal/store/store_sqlite.go: the SQLite store, over the database engine that it calls.
pub mod Database
pub mod Laws
pub mod Deletes
pub mod Open
use speedtest_go.Base.{
  ℕ, zero, suc, ◌+◌, Bool, true, false, ◌&&◌, ◌||◌, not, Option, none, some, List, [], ◌∷◌, ◌++◌,
  if◌then◌else◌,
}
use speedtest_go.Base.Int.{ℤ, pos, negsuc, ltb_ℤ, leb_ℤ, ==ℤ}
use speedtest_go.Store.{Result, Store}
use Database.{Engine, Exec, failed, done, Rows}

module _ (e : Engine) where
  unfoldable pub stamp : ℤ → Result → Result
  stamp now r = if ==ℤ r.created_at (pos 0) then record r { created_at = now } else r

  saved : Result → e.Db → Exec e.Db → Option Result × e.Db
  saved r d failed = (none, d)
  saved r d (done d' none) = (none, d')
  saved r d (done d' (some id)) = (some (record r { id = id }), d')

  unfoldable pub save : e.Db → ℤ → Result → Option Result × e.Db
  unfolding saved
  save d now r = let r' = stamp now r in saved r' d (e.insert d r')

  -- `scanRows`: a row that does not scan, or an error at the end, fails the whole list.
  unfoldable pub scan_rows : List (Option Result) → Bool → Option (List Result)
  scan_rows [] err = if err then none else some []
  scan_rows (none ∷ rows) err = none
  scan_rows (some r ∷ rows) err = elim (scan_rows rows err) [
    | none ↦ none
    | some out ↦ some (r ∷ out)
  ]

  unfoldable pub list : e.Db → ℤ → ℤ → Option (List Result)
  unfolding scan_rows
  list d limit offset =
      if leb_ℤ limit (pos 0)
      then none
      else elim (e.query d limit (if ltb_ℤ offset (pos 0) then pos 0 else offset)) [
        | none ↦ none
        | some rows ↦ scan_rows rows.items rows.err
      ]

  unfoldable pub count : e.Db → Option ℤ
  count d = e.query_count d

  -- An `Exec` whose number of rows is read.
  affected : e.Db → Exec e.Db → Option ℤ × e.Db
  affected d failed = (none, d)
  affected d (done d' n) = (n, d')

  abbrev positive : Option ℤ × e.Db → Option Bool × e.Db
  positive (none, d) = (none, d)
  positive (some n, d) = (some (ltb_ℤ (pos 0) n), d)

  unfoldable pub delete : e.Db → ℤ → Option Bool × e.Db
  unfolding affected
  delete d id = positive (affected d (e.delete_id d id))

  unfoldable pub delete_all : e.Db → Option ℤ × e.Db
  unfolding affected
  delete_all d = affected d (e.delete_every d)

  unfoldable pub prune_older_than : e.Db → ℤ → Option ℤ × e.Db
  unfolding affected
  prune_older_than d cutoff =
      if leb_ℤ cutoff (pos 0) then (some (pos 0), d) else affected d (e.delete_before d cutoff)

  -- `var _ Store = (*SQLite)(nil)`
  abbrev pub sqlite : Store
  sqlite = record {
    State = e.Db;
    save = save;
    list = list;
    count = count;
    delete = delete;
    delete_all = delete_all;
    prune_older_than = prune_older_than;
  }

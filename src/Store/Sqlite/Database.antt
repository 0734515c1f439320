-- ===== src/Store/Sqlite/Database.antt =====
-- The database engine below the store (modernc.org/sqlite behind database/sql), as the statements
-- that the store prepares, and what SQL says that they do to a table of rows.
use speedtest_go.Base.{
  ◌≡◌, Bool, false, not, Option, some, List, [], ◌∷◌, map, if◌then◌else◌, length, take, drop,
}
use speedtest_go.Base.Int.{ℤ, pos, pos_part, ltb_ℤ, ==ℤ}
use speedtest_go.Store.{Result}
use speedtest_go.Store.Order.{newest_first}

-- The outcome of an `ExecContext`: an error, or the database after it, with the number that
-- `LastInsertId` or `RowsAffected` gives, none where reading it fails.
pub data Exec (Db : Type 0) : Type 0 where
  failed : Exec Db
  done : Db → Option ℤ → Exec Db

-- What a query's cursor gives: each row, none where it does not scan, and whether it ended with an
-- error.
pub record Rows : Type 0 where
  pub items : List (Option Result)
  pub err : Bool

pub record Engine : Type 1 where
  pub Db : Type 0
  -- INSERT INTO results (…) VALUES (…), with a fresh id
  pub insert : Db → Result → Exec Db
  -- SELECT … ORDER BY created_at DESC, id DESC LIMIT ? OFFSET ?
  pub query : Db → (limit : ℤ) → (offset : ℤ) → Option Rows
  -- SELECT COUNT(*) FROM results
  pub query_count : Db → Option ℤ
  -- DELETE FROM results WHERE id = ?
  pub delete_id : Db → ℤ → Exec Db
  -- DELETE FROM results
  pub delete_every : Db → Exec Db
  -- DELETE FROM results WHERE created_at < ?
  pub delete_before : Db → ℤ → Exec Db

abbrev pub keep {ℓ} : {A : Type ℓ} → (A → Bool) → List A → List A
keep p [] = []
keep p (x ∷ xs) = let rest = keep p xs in if p x then x ∷ rest else rest

-- What the SQL statements mean, over the rows of the table, the latest insertion first. A cursor that
-- ended with an error may have given fewer rows than there are.
pub record IsSql (e : Engine) : Type 0 where
  pub rows : e.Db → List Result
  pub insert_rows :
      (d : e.Db) (r : Result) (d' : e.Db) (id : ℤ)
      → e.insert d r ≡ done d' (some id)
      → rows d' ≡ record r { id = id } ∷ rows d
  pub query_items :
      (d : e.Db) (limit offset : ℤ) (found : Rows)
      → e.query d limit offset ≡ some found
      → found.err ≡ false
      → found.items
        ≡ map some (take (pos_part limit) (drop (pos_part offset) (newest_first (rows d))))
  pub count_rows : (d : e.Db) (n : ℤ) → e.query_count d ≡ some n → n ≡ pos (length (rows d))
  pub delete_id_rows :
      (d : e.Db) (id : ℤ) (d' : e.Db) (n : ℤ)
      → e.delete_id d id ≡ done d' (some n)
      → (rows d' ≡ keep (λ r. not (==ℤ r.id id)) (rows d))
        × (n ≡ pos (length (keep (λ r. ==ℤ r.id id) (rows d))))
  pub delete_every_rows :
      (d : e.Db) (d' : e.Db) (n : ℤ)
      → e.delete_every d ≡ done d' (some n)
      → (rows d' ≡ []) × (n ≡ pos (length (rows d)))
  pub delete_before_rows :
      (d : e.Db) (cutoff : ℤ) (d' : e.Db) (n : ℤ)
      → e.delete_before d cutoff ≡ done d' (some n)
      → (rows d' ≡ keep (λ r. not (ltb_ℤ r.created_at cutoff)) (rows d))
        × (n ≡ pos (length (keep (λ r. ltb_ℤ r.created_at cutoff) (rows d))))

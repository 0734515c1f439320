-- ===== src/Store/Sqlite/Open.antt =====
-- internal/store/store_sqlite.go: the opening of a database and the migration of its table.
use mathlib.Core.Bool.{false≢true}
use speedtest_go.Base.{
  ℕ, zero, suc, ◌⊎◌, ◌≡◌, refl, Bool, true, false, not, ◌||◌, Option, none, some, List, [], ◌∷◌,
  ◌++◌, Str, str, str_eq, str_eq_refl, if◌then◌else◌, Bool-cases, inl, inr, if_both, take,
}

-- What a connection answers: whether each call succeeds, and how many columns the cursor gives before
-- it fails, none if it does not.
pub record Answers : Type 0 where
  pub open_ok : Bool
  pub ping_ok : Bool
  pub schema_ok : Bool
  pub query_ok : Bool
  pub rows_before_error : Option ℕ
  pub alter_ok : Bool

-- The columns of the table `results`, none where it does not exist.
abbrev pub Table : Type 0
Table = Option (List Str)

-- The end of `Open`: the table, whether a store is returned, and whether the connection is open.
pub record Opened : Type 0 where
  pub table : Table
  pub returned : Bool
  pub connected : Bool

unfoldable pub location_column : Str
location_column = str "client_ip_location"

unfoldable pub has_column : Str → List Str → Bool
unfolding str_eq
has_column column [] = false
has_column column (name ∷ names) = let rest = has_column column names in str_eq name column || rest

-- migrations/0001_init.sql: CREATE TABLE IF NOT EXISTS, with every column.
unfoldable pub apply_schema : List Str → Table → List Str
apply_schema fresh none = fresh
apply_schema fresh (some columns) = columns

abbrev given : Option ℕ → List Str → List Str
given none columns = columns
given (some n) columns = take n columns

abbrev fails : Option ℕ → Bool
fails none = false
fails (some n) = true

-- `ensureColumn`, with ALTER TABLE … ADD COLUMN; none for an error. A column that is found before the
-- cursor fails counts.
unfoldable pub ensure_column : Answers → Str → List Str → Option (List Str)
unfolding has_column
ensure_column a column columns =
    if not a.query_ok
    then none
    else if has_column column (given a.rows_before_error columns)
    then some columns
    else if fails a.rows_before_error
    then none
    else if not a.alter_ok
    then none
    else some (columns ++ column ∷ [])

migrated : List Str → Option (List Str) → Opened
migrated columns none = record { table = some columns; returned = false; connected = false }
migrated columns (some after) = record { table = some after; returned = true; connected = true }

-- `fresh` is the list of columns in the schema.
unfoldable pub open_store : Answers → (fresh : List Str) → Table → Opened
unfolding ensure_column apply_schema migrated location_column
open_store a fresh table =
    if not a.open_ok
    then record { table = table; returned = false; connected = false }
    else if not a.ping_ok
    then record { table = table; returned = false; connected = false }
    else if not a.schema_ok
    then record { table = table; returned = false; connected = false }
    else let columns = apply_schema fresh table in
      migrated columns (ensure_column a location_column columns)

-- `Close`, safe on a store that is nil or has no connection.
unfoldable pub close_store : Option Opened → Option Opened
close_store none = none
close_store (some o) = some (record o { connected = false })

-- How an opening ends, over the columns that the schema leaves.
abbrev pub Ends : List Str → Opened → Type 0
Ends columns o =
    ((o.returned ≡ false) × (o.connected ≡ false))
    ⊎ ((o.returned ≡ true)
        × (o.connected ≡ true)
        × ((after : List Str) × (o.table ≡ some after)
            × (has_column location_column after ≡ true)
            × ((after ≡ columns)
                ⊎ ((has_column location_column columns ≡ false)
                    × (after ≡ columns ++ location_column ∷ [])))))

has_column-append : (c : Str) (columns : List Str) → has_column c (columns ++ c ∷ []) ≡ true
unfolding has_column
has_column-append c [] = rw (str_eq_refl c) refl
has_column-append c (name ∷ names) = elim (Bool-cases (str_eq name c)) [
  | inl hit ↦ rw hit refl
  | inr miss ↦ rw miss (has_column-append c names)
]

has_column-take :
    (c : Str) (n : ℕ) (columns : List Str)
    → has_column c (take n columns) ≡ true
    → has_column c columns ≡ true
unfolding has_column
has_column-take c zero columns h = absurd (false≢true h)
has_column-take c (suc n) [] h = h
has_column-take c (suc n) (name ∷ names) h = elim (Bool-cases (str_eq name c)) [
  | inl hit ↦ rw hit refl
  | inr miss ↦ rw miss (has_column-take c n names (rw miss at h))
]

has_column-given :
    (c : Str) (o : Option ℕ) (columns : List Str)
    → has_column c (given o columns) ≡ true
    → has_column c columns ≡ true
has_column-given c none columns h = h
has_column-given c (some n) columns h = has_column-take c n columns h

EndsAs : List Str → Option (List Str) → Type 0
EndsAs columns o = Ends columns (migrated columns o)

migrated_none : (columns : List Str) → EndsAs columns none
unfolding EndsAs migrated
migrated_none columns = inl (refl, refl)

migrated_kept :
    (columns : List Str) → has_column location_column columns ≡ true → EndsAs columns (some columns)
unfolding EndsAs migrated
migrated_kept columns h = inr (refl, refl, (columns, refl, h, inl refl))

migrated_added :
    (columns : List Str)
    → has_column location_column columns ≡ false
    → EndsAs columns (some (columns ++ location_column ∷ []))
unfolding EndsAs migrated
migrated_added columns h = inr (
  refl,
  refl,
  (columns ++ location_column ∷ [], refl, has_column-append location_column columns, inr (h, refl)),
)

altered_lem :
    (columns : List Str) (cursor : Option ℕ) (alter_ok : Bool)
    → has_column location_column (given cursor columns) ≡ false
    → EndsAs columns (
        if fails cursor
        then none
        else if not alter_ok
        then none
        else some (columns ++ location_column ∷ []))
altered_lem columns (some n) alter_ok h = migrated_none columns
altered_lem columns none alter_ok h =
    if_both (EndsAs columns) (not alter_ok) _ _ (migrated_none columns) (migrated_added columns h)

ensured_lem :
    (a : Answers) (columns : List Str) → EndsAs columns (ensure_column a location_column columns)
unfolding ensure_column
ensured_lem a columns =
    if_both (EndsAs columns) (not a.query_ok) _ _ (migrated_none columns)
      (elim (Bool-cases (has_column location_column (given a.rows_before_error columns))) [
        | inl hit ↦ rw hit (
            migrated_kept columns
              (has_column-given location_column a.rows_before_error columns hit))
        | inr miss ↦ rw miss (altered_lem columns a.rows_before_error a.alter_ok miss)
      ])

-- An opening that returns a store leaves the connection open and a table that has the location column:
-- the table as it was, or as the schema makes it, if the column is there, and else with that column
-- added once. An opening that fails leaves no connection open.
pub open_store_lem :
    (a : Answers) (fresh : List Str) (table : Table)
    → Ends (apply_schema fresh table) (open_store a fresh table)
unfolding open_store EndsAs
open_store_lem a fresh table =
    let P = Ends (apply_schema fresh table) in
    if_both P (not a.open_ok) _ _ (inl (refl, refl)) (
      if_both P (not a.ping_ok) _ _ (inl (refl, refl)) (
        if_both P (not a.schema_ok) _ _ (inl (refl, refl))
          (ensured_lem a (apply_schema fresh table))))

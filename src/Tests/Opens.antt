-- ===== src/Tests/Opens.antt =====
-- The theorem on the opening of the store at an older table.
use speedtest_go.Base.{true, none, some, [], ◌∷◌, str}
use speedtest_go.Store.Sqlite.Open.{Answers, Ends, apply_schema, open_store, open_store_lem}

abbrev answers : Answers
answers = record {
  open_ok = true;
  ping_ok = true;
  schema_ok = true;
  query_ok = true;
  rows_before_error = none;
  alter_ok = true;
}

open_store_lem_example :
    Ends (apply_schema [] (some (str "id" ∷ []))) (open_store answers [] (some (str "id" ∷ [])))
open_store_lem_example = open_store_lem answers [] (some (str "id" ∷ []))

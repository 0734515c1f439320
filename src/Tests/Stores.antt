-- ===== src/Tests/Stores.antt =====
-- The theorems on the store at concrete inputs, over an engine that keeps its table in memory.
use speedtest_go.Base.{
  ℕ, ◌+◌, ◌-◌, ◌*◌, ◌/◌, ◌≡◌, ◌≤◌, ◌∙◌, refl, ap, sym, false, not, Option, none, some, Str,
  if◌then◌else◌, List, [], ◌∷◌, map, str, str_eq, length, take, drop, arith,
}
use mathlib.Core.List.{Perm}
use mathlib.Core.Option.{some-injective}
use speedtest_go.Base.Int.{ℤ, pos, pos_part, ltb_ℤ, ==ℤ, ◌<ℤ◌}
use speedtest_go.Golang.Strconv.{atoi}
use speedtest_go.Store.{Result}
use speedtest_go.Store.Order.{newest_first, IsNewestFirst}
use speedtest_go.Store.Sqlite.{sqlite, stamp, save, count, list, prune_older_than}
use speedtest_go.Store.Sqlite.Database.{Engine, done, IsSql, keep}
use speedtest_go.Store.Sqlite.Laws.{list-page}
use speedtest_go.Store.Sqlite.Deletes.{is_stale}
use speedtest_go.Handler.Sanitise.{sanitise_result, truncate}
use speedtest_go.Handler.Http.{get, post, Request, success, write_json}
use speedtest_go.Handler.Sanitise.{clamp_int, parse_query_int}
use speedtest_go.Handler.Results.{
  created, stored_row, results_list_or_create, results_export, create_result, list_results,
}
use speedtest_go.Golang.Ip.{Ip}
use speedtest_go.Golang.Ip.Parse.{parse_ip}
use speedtest_go.Golang.Ip.Text.{ip_text}
use speedtest_go.Handler.ClientIp.{client_ip}
use speedtest_go.Handler.Results.Query.{Chosen}
use speedtest_go.Handler.Results.Outcome.{create_result-stored, list_results-page}
use speedtest_go.Handler.Results.Export.{Says, results_export-Says}
use speedtest_go.Config.{Config}
use speedtest_go.Handler.State.{BuildInfo}
use speedtest_go.Server.Startup.{Machine, cutoff, start}
use speedtest_go.Server.Startup.Pruning.{start-pruned}
use speedtest_go.Tests.Fixtures.{cfg_time, one_var, request_to, measured}

record Memory : Type 0 where
  rows : List Result
  next_id : ℕ

abbrev engine : Engine
engine = record {
  Db = Memory;
  insert = λ d r.
      done (record { rows = record r { id = pos d.next_id } ∷ d.rows; next_id = d.next_id + 1 })
        (some (pos d.next_id));
  query = λ d limit offset. some (record {
    items = map some (take (pos_part limit) (drop (pos_part offset) (newest_first d.rows)));
    err = false;
  });
  query_count = λ d. some (pos (length d.rows));
  delete_id = λ d id.
      done (record d { rows = keep (λ r. not (==ℤ r.id id)) d.rows })
        (some (pos (length (keep (λ r. ==ℤ r.id id) d.rows))));
  delete_every = λ d. done (record d { rows = [] }) (some (pos (length d.rows)));
  delete_before = λ d cutoff.
      done (record d { rows = keep (λ r. not (ltb_ℤ r.created_at cutoff)) d.rows })
        (some (pos (length (keep (λ r. ltb_ℤ r.created_at cutoff) d.rows))));
}

done-injective : (a b : Memory) (n m : ℤ) → done a (some n) ≡ done b (some m) → (a ≡ b) × (n ≡ m)
done-injective a b n m e = (cc, cc)

engine-IsSql : IsSql engine
engine-IsSql = record {
  rows = λ d. d.rows;
  insert_rows = λ d r d' id e.
      let (after, same) = done-injective _ d' _ id e in
      sym (ap (λ t. t.rows) after) ∙ (λ i. record r { id = same i } ∷ d.rows);
  query_items = λ d limit offset found e clean. sym (ap (λ t. t.items) (some-injective _ found e));
  count_rows = λ d n e. sym (some-injective _ n e);
  delete_id_rows = λ d id d' n e.
      let (after, same) = done-injective _ d' _ n e in (sym (ap (λ t. t.rows) after), sym same);
  delete_every_rows = λ d d' n e.
      let (after, same) = done-injective _ d' _ n e in (sym (ap (λ t. t.rows) after), sym same);
  delete_before_rows = λ d cutoff d' n e.
      let (after, same) = done-injective _ d' _ n e in (sym (ap (λ t. t.rows) after), sym same);
}

abbrev table : Memory
table = record { rows = measured (pos 2) (pos 20) ∷ measured (pos 1) (pos 10) ∷ []; next_id = 3 }

abbrev saved_row : Result
saved_row = record (measured (pos 3) (pos 0)) { created_at = pos 99 }

abbrev after_save : Memory
after_save = record { rows = saved_row ∷ table.rows; next_id = 4 }

list-page_example :
    (pos 0 <ℤ pos 1)
    × ((measured (pos 2) (pos 20) ∷ [])
        ≡ take
            (pos_part (pos 1))
            (drop (pos_part (pos 0)) (newest_first (engine-IsSql.rows table))))
    × IsNewestFirst (measured (pos 2) (pos 20) ∷ [])
    × Perm (newest_first (engine-IsSql.rows table)) (engine-IsSql.rows table)
unfolding list newest_first
list-page_example =
    list-page engine engine-IsSql table (pos 1) (pos 0) (measured (pos 2) (pos 20) ∷ []) refl

abbrev after_delete : Memory
after_delete = record { rows = measured (pos 2) (pos 20) ∷ []; next_id = 3 }

abbrev posted : Request
posted = request_to post "/api/results" (λ key. [])

-- A lookup that knows one address.
abbrev locate : Option Ip → Str
locate none = []
locate (some ip) = if str_eq (ip_text ip) (str "192.0.2.1") then str "Wien" else []

abbrev stored : Result
stored =
    record (stored_row (measured (pos 9) (pos 9)) (pos 50) (str "192.0.2.1") (str "Wien")
      (str "curl")) { id = pos 3 }

create_result-stored_example :
    (id : ℤ) × (engine-IsSql.rows (record { rows = stored ∷ table.rows; next_id = 4 })
      ≡ record (sanitise_result (measured (pos 9) (pos 9))) {
        id = id;
        created_at = pos 50;
        client_ip = client_ip posted;
        client_ip_location = locate (parse_ip (client_ip posted));
        user_agent = truncate (posted.header "User-Agent") 512;
      }
        ∷ engine-IsSql.rows table)
    × (success (created (pos 3) (pos 50)) ≡ success (created id (pos 50)))
unfolding results_list_or_create create_result save stamp stored_row str_eq client_ip parse_ip
    ip_text
create_result-stored_example =
    create_result-stored engine engine-IsSql table posted (measured (pos 9) (pos 9)) (pos 50)
      (pos 51) locate
      (record {
        status = 201;
        headers = ("Content-Type", str "application/json") ∷ [];
        body = success (created (pos 3) (pos 50));
      })
      (record { rows = stored ∷ table.rows; next_id = 4 }) refl (omega arith) refl refl

abbrev asked : Request
asked = request_to get "/api/results" (one_var "limit" (str "0"))

abbrev top_row : List Result
top_row = measured (pos 2) (pos 20) ∷ []

list_results-page_example :
    (Chosen (asked.query "limit") (pos 20) (pos 1) (pos 100) (pos 1)
      × Chosen (asked.query "offset") (pos 0) (pos 0) (pos 1_000_000) (pos 0))
    × (top_row
        ≡ take
            (pos_part (pos 1))
            (drop (pos_part (pos 0)) (newest_first (engine-IsSql.rows table))))
    × (length top_row ≤ 100)
    × (pos 2 ≡ pos (length (engine-IsSql.rows table)))
    × ((results_list_or_create (sqlite engine) (some table) asked none (pos 50) (pos 51) locate).1
        ≡ some table)
unfolding results_list_or_create list_results list newest_first clamp_int parse_query_int str_eq
    atoi count write_json
list_results-page_example =
    list_results-page engine engine-IsSql table asked none (pos 50) (pos 51) locate top_row (pos 2)
      (pos 1) (pos 0) refl refl

abbrev wanted : Request
wanted = request_to get "/api/results/export" (one_var "format" (str "CSV"))

results_export-Says_example :
    Says engine engine-IsSql table
      (wanted.query "format")
      (results_export (sqlite engine) (some table) wanted (str "20260101-000000")).body
unfolding results_export list newest_first str_eq
results_export-Says_example =
    results_export-Says engine engine-IsSql table wanted (str "20260101-000000") refl

-- 15 milliseconds after the ninety days of the retention.
abbrev booted : Machine (sqlite engine)
booted = record {
  open_store = λ path. some table;
  open_geo = λ path. none;
  now = 7_776_000_015_000_000;
}

abbrev kept_config : Config
kept_config = record cfg_time { db_path = str "./speedtest.db" }

abbrev release : BuildInfo
release = record { version = str "1.2.0"; commit = []; date = [] }

start-pruned_example :
    ((start (sqlite engine) release kept_config booted).history ≡ some after_delete)
    × (engine-IsSql.rows after_delete
        ≡ keep
            (λ r. not (is_stale (pos (7_776_000_015_000_000 / 1_000_000 - 90 * 86_400_000)) r))
            (engine-IsSql.rows table))
unfolding prune_older_than cutoff
start-pruned_example =
    start-pruned engine engine-IsSql release kept_config booted table after_delete 90 (pos 1)
      (λ e. cc) refl refl (omega arith) (omega arith) (omega arith) refl

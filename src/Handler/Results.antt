-- ===== src/Handler/Results.antt =====
-- internal/handler/results_handler.go: the list, the creation and the export of results, over any
-- store.
pub mod Query
pub mod Outcome
pub mod Export
use Prim.Native.String.{String}
use speedtest_go.Base.{
  ℕ, ◌+◌, Bool, true, false, ◌&&◌, ◌||◌, not, Option, none, some, List, [], ◌∷◌, ◌++◌, map, Str,
  str, str_eq, is_empty, if◌then◌else◌, leb,
}
use speedtest_go.Base.Int.{ℤ, pos}
use speedtest_go.Golang.Float.{Float}
use speedtest_go.Store.{Result, Store}
use speedtest_go.Handler.Http.{
  Method, get, post, other, Request, Reply, Body, success, http_error, write_err, write_json,
  method_not_allowed,
}
use speedtest_go.Golang.Ip.{Ip}
use speedtest_go.Golang.Ip.Parse.{parse_ip}
use speedtest_go.Handler.ClientIp.{client_ip}
use speedtest_go.Handler.Sanitise.{sanitise_result, truncate, csv_safe, clamp_int, parse_query_int}

abbrev pub max_list_limit : ℤ
max_list_limit = pos 100

abbrev pub max_list_offset : ℤ
max_list_offset = pos 1_000_000

-- A cell before it is written out: the CSV writer quotes a text, and prints a number.
pub data Cell : Type 0 where
  integer : ℤ → Cell
  number : Float → Cell
  text : Str → Cell

-- What the three endpoints say: a page, a receipt, or the whole table in either format.
pub data Content : Type 0 where
  listed : (results : List Result) → (total limit offset : ℤ) → Content
  created : (id created_at : ℤ) → Content
  exported : List Result → Content
  spreadsheet : (heading : List Str) → List (List Cell) → Content

unfoldable pub write_history_disabled : Reply (Body Content)
unfolding write_err
write_history_disabled = write_err 503 (str "history disabled")

unfoldable pub internal_err : Reply (Body Content)
unfolding write_err
internal_err = write_err 500 (str "internal error")

-- `strings.ToLower`, on a text whose bytes above 127 belong to no letter of the two formats.
unfoldable pub to_lower : Str → Str
to_lower s = map (λ c. if leb b'A' c && leb c b'Z' then c + 32 else c) s

unfoldable pub csv_row : Result → List Cell
unfolding csv_safe
csv_row r =
    integer r.id
    ∷ integer r.created_at
    ∷ number r.download_mbps
    ∷ number r.upload_mbps
    ∷ number r.latency_idle_ms
    ∷ number r.latency_loaded_ms
    ∷ number r.download_jitter_ms
    ∷ number r.upload_jitter_ms
    ∷ number r.packet_loss
    ∷ text (csv_safe r.bufferbloat_grade)
    ∷ text (csv_safe r.client_ip)
    ∷ text (csv_safe r.client_ip_location)
    ∷ text (csv_safe r.user_agent)
    ∷ text (csv_safe r.settings_json)
    ∷ []

abbrev pub csv_heading : List Str
csv_heading = map str (
    "id" ∷ "created_at" ∷ "download_mbps" ∷ "upload_mbps" ∷ "latency_idle_ms" ∷ "latency_loaded_ms"
    ∷ "download_jitter_ms" ∷ "upload_jitter_ms" ∷ "packet_loss" ∷ "bufferbloat_grade" ∷ "client_ip"
    ∷ "client_ip_location" ∷ "user_agent" ∷ "settings_json" ∷ [])

unfoldable pub write_results_csv : List Result → Content
write_results_csv results = spreadsheet csv_heading (map csv_row results)

-- The row that `createResult` hands to the store: the measurement of the client, sanitised, with
-- what only the server may say.
unfoldable pub stored_row : Result → (now : ℤ) → (ip location agent : Str) → Result
stored_row r now ip location agent = record (sanitise_result r) {
  created_at = now;
  client_ip = ip;
  user_agent = truncate agent 512;
  client_ip_location = location;
}

module _ (db : Store) where
  -- The optional store, and a reply with the store after it.
  abbrev pub Run : Type 0
  Run = Reply (Body Content) × Option db.State

  listed_total : List Result → ℤ → ℤ → Option ℤ → Reply (Body Content)
  listed_total results limit offset none = internal_err
  listed_total results limit offset (some total) = write_json [] (listed results total limit offset)

  listed_page : db.State → ℤ → ℤ → Option (List Result) → Reply (Body Content)
  unfolding listed_total
  listed_page d limit offset none = internal_err
  listed_page d limit offset (some results) = listed_total results limit offset (db.count d)

  unfoldable pub list_results : Option db.State → Request → Run
  unfolding listed_page
  list_results none r = (write_history_disabled, none)
  list_results (some d) r =
      let limit = clamp_int (parse_query_int (r.query "limit") (pos 20)) (pos 1) max_list_limit in
      let offset = clamp_int (parse_query_int (r.query "offset") (pos 0)) (pos 0) max_list_offset in
      (listed_page d limit offset (db.list d limit offset), some d)

  created_reply : Option Result × db.State → Run
  created_reply (none, d) = (internal_err, some d)
  created_reply (some saved, d) = (
    record {
      status = 201;
      headers = ("Content-Type", str "application/json") ∷ [];
      body = success (created saved.id saved.created_at);
    },
    some d,
  )

  -- `decoded` is what the JSON decoder makes of the first megabyte of the body, none for any error;
  -- `now` and `later` are the clock here and in the store; `locate` is `LocateIP`, whose argument is
  -- nil for a text that is no address.
  unfoldable pub create_result :
      Option db.State → Request → Option Result → (now later : ℤ) → (locate : Option Ip → Str) → Run
  unfolding created_reply client_ip parse_ip
  create_result none r decoded now later locate = (write_history_disabled, none)
  create_result (some d) r none now later locate =
      (write_err 400 (str "invalid request body"), some d)
  create_result (some d) r (some sent) now later locate =
      let ip = client_ip r in
      let location = locate (parse_ip ip) in
      created_reply (db.save d later (stored_row sent now ip location (r.header "User-Agent")))

  results_by_method :
      Method
      → Option db.State
      → Request
      → Option Result
      → (now later : ℤ) → (locate : Option Ip → Str) → Run
  unfolding list_results create_result
  results_by_method get s r decoded now later locate = list_results s r
  results_by_method post s r decoded now later locate = create_result s r decoded now later locate
  results_by_method (other m) s r decoded now later locate = (method_not_allowed, s)

  unfoldable pub results_list_or_create :
      Option db.State → Request → Option Result → (now later : ℤ) → (locate : Option Ip → Str) → Run
  unfolding results_by_method
  results_list_or_create s r decoded now later locate =
      results_by_method r.method s r decoded now later locate

  -- The heading of the attachment; `stamp` is the clock as `20060102-150405` writes it.
  attachment : Str → Str → String × Str
  attachment stamp format = (
    "Content-Disposition",
    str "attachment; filename=\"speedtest-results-" ++ stamp ++ str "." ++ format ++ str "\"",
  )

  exported_reply : Str → Str → Option (List Result) → Reply (Body Content)
  unfolding attachment write_results_csv
  exported_reply stamp format none = internal_err
  exported_reply stamp format (some results) = record {
    status = 200;
    headers =
        attachment stamp format
        ∷ (
          "Content-Type",
          if str_eq format (str "json")
              then str "application/json"
              else str "text/csv; charset=utf-8",
        )
        ∷ [];
    body =
        success
          (if str_eq format (str "json") then exported results else write_results_csv results);
  }

  export_format : db.State → Str → Str → Reply (Body Content)
  unfolding exported_reply
  export_format d stamp format =
      if not (str_eq format (str "json")) && not (str_eq format (str "csv"))
      then write_err 400 (str "format must be json or csv")
      else exported_reply stamp format (db.list d (pos 100_000) (pos 0))

  export_by_method : Method → db.State → Request → Str → Reply (Body Content)
  unfolding export_format to_lower
  export_by_method get d r stamp =
      let format = to_lower (r.query "format") in
      export_format d stamp (if is_empty format then str "json" else format)
  export_by_method post d r stamp = method_not_allowed
  export_by_method (other m) d r stamp = method_not_allowed

  unfoldable pub results_export : Option db.State → Request → (stamp : Str) → Reply (Body Content)
  unfolding export_by_method
  results_export none r stamp = write_history_disabled
  results_export (some d) r stamp = export_by_method r.method d r stamp

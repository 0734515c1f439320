-- ===== src/Handler/Results/Export.antt =====
-- What an export holds.
use speedtest_go.Base.{
  ◌≡◌, ◌⊎◌, refl, Bool, true, false, not, ◌&&◌, Option, none, some, List, [], ◌∷◌, map, Str, str,
  str_eq, str_eq_sound, is_empty, ap, ◌∙◌, subst, ◌≢◌, if◌then◌else◌, take, arith, Bool-cases, inl,
  inr,
}
use speedtest_go.Base.Int.{pos}
use speedtest_go.Store.{Result}
use speedtest_go.Store.Order.{newest_first}
use speedtest_go.Store.Sqlite.{sqlite, list}
use speedtest_go.Store.Sqlite.Database.{Engine, IsSql}
use speedtest_go.Store.Sqlite.Laws.{list-page}
use speedtest_go.Handler.Http.{Method, get, post, other, Request, Reply, Body, success, write_err}
use speedtest_go.Handler.Sanitise.Ranges.{starts_formula, csv_safe_lem}
use speedtest_go.Handler.Results.{
  Cell, integer, number, text, Content, exported, spreadsheet, internal_err, csv_row, csv_heading,
  write_results_csv, to_lower, exported_reply, export_format, export_by_method, results_export,
}

-- A text behind an apostrophe where a spreadsheet would take it for a formula.
abbrev pub guarded : Str → Str
guarded s = if starts_formula s then 39 ∷ s else s

-- The 14 values of a row, in the order of the heading.
abbrev pub cells : Result → List Cell
cells r =
    integer r.id
    ∷ integer r.created_at
    ∷ number r.download_mbps
    ∷ number r.upload_mbps
    ∷ number r.latency_idle_ms
    ∷ number r.latency_loaded_ms
    ∷ number r.download_jitter_ms
    ∷ number r.upload_jitter_ms
    ∷ number r.packet_loss
    ∷ text (guarded r.bufferbloat_grade)
    ∷ text (guarded r.client_ip)
    ∷ text (guarded r.client_ip_location)
    ∷ text (guarded r.user_agent)
    ∷ text (guarded r.settings_json)
    ∷ []

csv_row_lem : (r : Result) → csv_row r ≡ cells r
unfolding csv_row
csv_row_lem r =
    let grade = (csv_safe_lem r.bufferbloat_grade).1 in
    let ip = (csv_safe_lem r.client_ip).1 in
    let location = (csv_safe_lem r.client_ip_location).1 in
    let agent = (csv_safe_lem r.user_agent).1 in
    let settings = (csv_safe_lem r.settings_json).1 in
    λ i.
      integer r.id
      ∷ integer r.created_at
      ∷ number r.download_mbps
      ∷ number r.upload_mbps
      ∷ number r.latency_idle_ms
      ∷ number r.latency_loaded_ms
      ∷ number r.download_jitter_ms
      ∷ number r.upload_jitter_ms
      ∷ number r.packet_loss
      ∷ text (grade i)
      ∷ text (ip i)
      ∷ text (location i)
      ∷ text (agent i)
      ∷ text (settings i)
      ∷ []

csv_rows_lem : (results : List Result) → map csv_row results ≡ map cells results
csv_rows_lem [] = refl
csv_rows_lem (r ∷ results) = λ i. csv_row_lem r i ∷ csv_rows_lem results i

-- No text of the row is a formula to a spreadsheet.
abbrev pub IsSafeRow : List Cell → Type 0
IsSafeRow [] = Unit {0}
IsSafeRow (integer n ∷ row) = IsSafeRow row
IsSafeRow (number v ∷ row) = IsSafeRow row
IsSafeRow (text s ∷ row) = (starts_formula s ≡ false) × IsSafeRow row

abbrev pub IsSafeTable : List (List Cell) → Type 0
IsSafeTable [] = Unit {0}
IsSafeTable (row ∷ rows) = IsSafeRow row × IsSafeTable rows

guarded_lem : (s : Str) → starts_formula (guarded s) ≡ false
guarded_lem s = subst (λ t. starts_formula t ≡ false) (csv_safe_lem s).1 (csv_safe_lem s).0

cells-IsSafeTable : (results : List Result) → IsSafeTable (map cells results)
cells-IsSafeTable [] = tt
cells-IsSafeTable (r ∷ results) = (
  (
    guarded_lem r.bufferbloat_grade,
    (
      guarded_lem r.client_ip,
      (
        guarded_lem r.client_ip_location,
        (guarded_lem r.user_agent, (guarded_lem r.settings_json, tt)),
      ),
    ),
  ),
  cells-IsSafeTable results,
)

answered :
    (bad : Bool) (reply : Reply (Body Content))
    → (if bad then write_err 400 (str "format must be json or csv") else reply).status ≡ 200
    → bad ≡ false
unfolding write_err
answered true reply ok = absurd (omega arith)
answered false reply ok = refl

-- The formats that an export can be asked for, in any case; JSON where none is named.
abbrev pub AsksJson : Str → Type 0
AsksJson asked = (to_lower asked ≡ []) ⊎ (to_lower asked ≡ str "json")

abbrev pub AsksCsv : Str → Type 0
AsksCsv asked = to_lower asked ≡ str "csv"

module _ (e : Engine) (sql : IsSql e) where
  abbrev pub newest : e.Db → List Result
  newest d = take 100_000 (newest_first (sql.rows d))

  abbrev pub Says : e.Db → Str → Body Content → Type 0
  Says d asked body =
      (AsksJson asked × (body ≡ success (exported (newest d))))
      ⊎ (AsksCsv asked
          × (body ≡ success (spreadsheet csv_heading (map cells (newest d))))
          × IsSafeTable (map cells (newest d)))

  -- The same of the format that is looked at.
  abbrev Exports : e.Db → Str → Body Content → Type 0
  Exports d format body =
      ((format ≡ str "json") × (body ≡ success (exported (newest d))))
      ⊎ ((format ≡ str "csv")
          × (body ≡ success (spreadsheet csv_heading (map cells (newest d))))
          × IsSafeTable (map cells (newest d)))

  exported_reply-Exports :
      (d : e.Db) (clock format : Str) (x : Option (List Result))
      → list e d (pos 100_000) (pos 0) ≡ x
      → (not (str_eq format (str "json")) && not (str_eq format (str "csv"))) ≡ false
      → (exported_reply (sqlite e) clock format x).status ≡ 200
      → Exports d format (exported_reply (sqlite e) clock format x).body
  unfolding exported_reply internal_err write_err write_results_csv
  exported_reply-Exports d clock format none q known ok = absurd (omega arith)
  exported_reply-Exports d clock format (some page) q known ok =
      let whole : page ≡ newest d = (list-page e sql d (pos 100_000) (pos 0) page q).1 in
      elim (Bool-cases (str_eq format (str "json"))) [
        | inl json ↦ rw json (
            inl (str_eq_sound format (str "json") json, ap (λ rows. success (exported rows)) whole))
        | inr csv_case ↦
            let csv : str_eq format (str "csv") ≡ true = ground (arith, known, csv_case) in
            rw csv_case (
              inr (
                str_eq_sound format (str "csv") csv,
                ap (λ rows. success (spreadsheet csv_heading rows))
                    (csv_rows_lem page ∙ ap (map cells) whole),
                cells-IsSafeTable (newest d),
              ))
      ]

  export_format-Exports :
      (d : e.Db) (clock format : Str)
      → (export_format (sqlite e) d clock format).status ≡ 200
      → Exports d format (export_format (sqlite e) d clock format).body
  unfolding export_format
  export_format-Exports d clock format ok =
      let known =
        answered (not (str_eq format (str "json")) && not (str_eq format (str "csv")))
          (exported_reply (sqlite e) clock format (list e d (pos 100_000) (pos 0))) ok in
      rw known (
        exported_reply-Exports d clock format (list e d (pos 100_000) (pos 0)) refl known
          (rw known at ok))

  json-ne-csv : str "json" ≢ str "csv"
  json-ne-csv e = cc

  Exports-Says :
      (d : e.Db) (asked : Str) (body : Body Content)
      → Exports d (if is_empty (to_lower asked) then str "json" else to_lower asked) body
      → Says d asked body
  Exports-Says d asked body h = by_text (to_lower asked) refl h
    where
      by_text :
          (t : Str)
          → to_lower asked ≡ t
          → Exports d (if is_empty t then str "json" else t) body
          → Says d asked body
      by_text [] q (inl (same, said)) = inl (inl q, said)
      by_text [] q (inr (unlike, said, safe)) = absurd (json-ne-csv unlike)
      by_text (c ∷ t) q (inl (same, said)) = inl (inr (q ∙ same), said)
      by_text (c ∷ t) q (inr (same, said, safe)) = inr (q ∙ same, said, safe)

  export_by_method-Says :
      (m : Method) (d : e.Db) (r : Request) (clock : Str)
      → (export_by_method (sqlite e) m d r clock).status ≡ 200
      → Says d (r.query "format") (export_by_method (sqlite e) m d r clock).body
  unfolding export_by_method
  export_by_method-Says get d r clock ok =
      Exports-Says d (r.query "format") _ (export_format-Exports d clock _ ok)
  export_by_method-Says post d r clock ok = absurd (omega arith)
  export_by_method-Says (other m) d r clock ok = absurd (omega arith)

  -- An export that is answered 200 holds the newest results of the table, up to 100000 of them, newest
  -- first, in the format that the query names: as they are for JSON, which is also what no format
  -- means, and for CSV one row of 14 cells for each result, in the order of the heading. A text stands
  -- there as it is, or behind an apostrophe where a spreadsheet would take it for a formula, so that
  -- no cell is one.
  pub results_export-Says :
      (d : e.Db) (r : Request) (clock : Str)
      → (results_export (sqlite e) (some d) r clock).status ≡ 200
      → Says d (r.query "format") (results_export (sqlite e) (some d) r clock).body
  unfolding results_export
  results_export-Says d r clock ok = export_by_method-Says r.method d r clock ok

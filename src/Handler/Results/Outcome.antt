-- ===== src/Handler/Results/Outcome.antt =====
-- What the results endpoints store and say, over the SQLite store.
use mathlib.Core.Option.{some-injective}
use speedtest_go.Base.{
  ◌≤◌, ◌≡◌, ◌≢◌, ◌∙◌, refl, ap, sym, subst, false, Option, none, some, List, ◌∷◌, Str, length, take,
  drop, length-take, arith,
}
use speedtest_go.Base.Int.{ℤ, pos, negsuc, pos_part, ==ℤ, ◌≤ℤ◌, ◌<ℤ◌}
use speedtest_go.Store.{Result}
use speedtest_go.Store.Order.{newest_first}
use speedtest_go.Store.Sqlite.{sqlite, save, stamp, list, count}
use speedtest_go.Store.Sqlite.Database.{Engine, IsSql}
use speedtest_go.Store.Sqlite.Laws.{save-rows, list-page}
use speedtest_go.Handler.Http.{
  Method, get, post, Request, Reply, Body, success, write_err, write_json,
}
use speedtest_go.Golang.Ip.{Ip}
use speedtest_go.Golang.Ip.Parse.{parse_ip}
use speedtest_go.Handler.ClientIp.{client_ip}
use speedtest_go.Handler.Sanitise.{sanitise_result, truncate, clamp_int, parse_query_int}
use speedtest_go.Handler.Results.Query.{Chosen, clamp_int-Chosen}
use speedtest_go.Handler.Results.{
  max_list_limit, max_list_offset, Content, listed, created, internal_err, stored_row, listed_total,
  listed_page, list_results, created_reply, create_result, results_by_method,
  results_list_or_create,
}

clamp_int-between : (n lo hi : ℤ) → lo ≤ℤ hi → (lo ≤ℤ clamp_int n lo hi) × (clamp_int n lo hi ≤ℤ hi)
unfolding clamp_int
clamp_int-between n lo hi h = ground arith

stamp_set : (e : Engine) (now : ℤ) (r : Result) → pos 0 <ℤ r.created_at → stamp e now r ≡ r
unfolding stamp
stamp_set e now r h = let set : ==ℤ r.created_at (pos 0) ≡ false = ground arith in rw set refl

take_short :
    (limit : ℤ) (rows : List Result) → limit ≤ℤ pos 100 → length (take (pos_part limit) rows) ≤ 100
take_short (pos n) rows h = omega (arith, length-take n rows, h)
take_short (negsuc n) rows h = omega arith

internal_err-status : internal_err.status ≢ 201
unfolding internal_err write_err
internal_err-status h = omega (arith, h)

module _ (e : Engine) (sql : IsSql e) where
  saved_reply :
      (d : e.Db) (row : Result) (reply : Reply (Body Content)) (d' : e.Db)
      (x : Option Result × e.Db)
      → ((s : Result)
          → x ≡ (some s, d')
          → (sql.rows d' ≡ record row { id = s.id } ∷ sql.rows d) × (s.created_at ≡ row.created_at))
      → created_reply (sqlite e) x ≡ (reply, some d')
      → reply.status ≡ 201
      → (id : ℤ) × (sql.rows d' ≡ record row { id = id } ∷ sql.rows d)
        × (reply.body ≡ success (created id row.created_at))
  unfolding created_reply internal_err write_err
  saved_reply d row reply d' (none, d₁) law h ok =
      absurd (internal_err-status (ap (λ t. t.0.status) h ∙ ok))
  saved_reply d row reply d' (some s, d₁) law h ok =
      let after : d₁ ≡ d' = some-injective d₁ d' (ap (λ t. t.1) h) in
      let (rows, at) = law s (λ i. (some s, after i)) in
      (s.id, rows, sym (ap (λ t. t.0.body) h) ∙ ap (λ t. success (created s.id t)) at)

  -- A POST that is answered 201 has stored exactly one row: the measurement that was sent, sanitised,
  -- with the server's time, the address of `ClientIP`, its location and the user agent in place of
  -- what the client said of them. The reply names the id and the time of that row.
  pub create_result-stored :
      (d : e.Db) (r : Request) (sent : Result) (now later : ℤ) (locate : Option Ip → Str)
      (reply : Reply (Body Content)) (d' : e.Db)
      → r.method ≡ post
      → pos 0 <ℤ now
      → results_list_or_create (sqlite e) (some d) r (some sent) now later locate ≡ (reply, some d')
      → reply.status ≡ 201
      → (id : ℤ) × (sql.rows d'
          ≡ record (sanitise_result sent) {
            id = id;
            created_at = now;
            client_ip = client_ip r;
            client_ip_location = locate (parse_ip (client_ip r));
            user_agent = truncate (r.header "User-Agent") 512;
          }
            ∷ sql.rows d)
        × (reply.body ≡ success (created id now))
  unfolding results_list_or_create results_by_method create_result stored_row
  create_result-stored d r sent now later locate reply d' m at h ok =
      let row =
        stored_row sent now (client_ip r) (locate (parse_ip (client_ip r)))
          (r.header "User-Agent") in
      let same = stamp_set e later row at in
      saved_reply d row reply d' (save e d later row)
        (λ s saved.
          let (rows, shape) = save-rows e sql d later row s d' saved in
          let full : s ≡ record row { id = s.id } = shape ∙ (λ i. record (same i) { id = s.id }) in
          (rows ∙ ap (λ t. t ∷ sql.rows d) full, ap (λ t. t.created_at) full))
        (ap (λ method. results_by_method (sqlite e) method (some d) r (some sent) now later locate)
            (sym m)
          ∙ h)
        ok

  listed_total_lem :
      (results page : List Result) (limit offset total : ℤ) (limit' offset' : ℤ) (x : Option ℤ)
      → (listed_total (sqlite e) results limit offset x).body
        ≡ success (listed page total limit' offset')
      → ((results ≡ page) × (x ≡ some total)) × ((limit ≡ limit') × (offset ≡ offset'))
  unfolding listed_total internal_err write_err write_json
  listed_total_lem results page limit offset total limit' offset' none h = cc
  listed_total_lem results page limit offset total limit' offset' (some n) h = ((cc, cc), (cc, cc))

  listed_page_lem :
      (d : e.Db) (page : List Result) (limit offset total : ℤ) (limit' offset' : ℤ)
      (x : Option (List Result))
      → (listed_page (sqlite e) d limit offset x).body ≡ success (listed page total limit' offset')
      → ((x ≡ some page) × (e.query_count d ≡ some total)) × ((limit ≡ limit') × (offset ≡ offset'))
  unfolding listed_page internal_err write_err count
  listed_page_lem d page limit offset total limit' offset' none h = cc
  listed_page_lem d page limit offset total limit' offset' (some results) h =
      let ((same, counted), rest) =
        listed_total_lem results page limit offset total limit' offset' (e.query_count d) h in
      ((ap some same, counted), rest)

  -- The limit of a page that GET shows is the one that the query asks for, or the nearer end of 1 to
  -- 100 where that is outside, or 20 where the query names no number; and likewise the offset, with 0
  -- to a million, and 0. The page holds that many rows of the table from the offset on, newest first,
  -- or all that are left, next to the number of all rows; the table stays as it was.
  pub list_results-page :
      (d : e.Db) (r : Request) (decoded : Option Result) (now later : ℤ) (locate : Option Ip → Str)
      (page : List Result) (total limit offset : ℤ)
      → r.method ≡ get
      → (results_list_or_create (sqlite e) (some d) r decoded now later locate).0.body
        ≡ success (listed page total limit offset)
      → (Chosen (r.query "limit") (pos 20) (pos 1) (pos 100) limit
          × Chosen (r.query "offset") (pos 0) (pos 0) (pos 1_000_000) offset)
        × (page ≡ take (pos_part limit) (drop (pos_part offset) (newest_first (sql.rows d))))
        × (length page ≤ 100)
        × (total ≡ pos (length (sql.rows d)))
        × ((results_list_or_create (sqlite e) (some d) r decoded now later locate).1 ≡ some d)
  unfolding results_list_or_create results_by_method list_results
  list_results-page d r decoded now later locate page total limit offset m h =
      let asked = clamp_int (parse_query_int (r.query "limit") (pos 20)) (pos 1) max_list_limit in
      let from = clamp_int (parse_query_int (r.query "offset") (pos 0)) (pos 0) max_list_offset in
      let run = λ (method : Method).
        results_by_method (sqlite e) method (some d) r decoded now later locate in
      let ((found, counted), (same_limit, same_offset)) =
        listed_page_lem d page asked from total limit offset (list e d asked from)
          (ap (λ method. (run method).0.body) (sym m) ∙ h) in
      let limits =
        subst (λ t. (pos 1 ≤ℤ t) × (t ≤ℤ pos 100)) same_limit
          (clamp_int-between _ _ _ (omega arith)) in
      let offsets = subst (Chosen (r.query "offset") (pos 0) (pos 0) (pos 1_000_000)) same_offset (
        clamp_int-Chosen (r.query "offset") (pos 0) (pos 0) (pos 1_000_000) (omega arith)
          (omega arith) (omega arith)) in
      let chosen = subst (Chosen (r.query "limit") (pos 20) (pos 1) (pos 100)) same_limit (
        clamp_int-Chosen (r.query "limit") (pos 20) (pos 1) (pos 100) (omega arith) (omega arith)
          (omega arith)) in
      let shown : page
          ≡ take (pos_part limit) (drop (pos_part offset) (newest_first (sql.rows d))) =
        (list-page e sql d asked from page found).1 ∙ (λ i.
          take (pos_part (same_limit i))
            (drop (pos_part (same_offset i)) (newest_first (sql.rows d)))) in
      (
        (chosen, offsets),
        shown,
        subst (λ t. length t ≤ 100) (sym shown) (take_short limit _ limits.1),
        sql.count_rows d total counted,
        ap (λ method. (run method).1) m,
      )

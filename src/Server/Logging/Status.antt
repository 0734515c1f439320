-- ===== src/Server/Logging/Status.antt =====
-- The access log against what the client sees, and how long an idle connection is kept.
use speedtest_go.Base.{
  ℕ, ◌+◌, ◌≡◌, ◌∙◌, refl, ap, sym, Bool, true, some, List, [], ◌∷◌, Str, if◌then◌else◌, false,
  if_both, arith,
}
use speedtest_go.Base.Int.{ℤ, pos, negsuc, ◌≤ℤ◌, ◌<ℤ◌, ◌+ℤ◌, wrap64}
use speedtest_go.Golang.Strconv.{itoa}
use speedtest_go.Handler.Metrics.{Metrics, observe_request_on}
use speedtest_go.Handler.State.{Handler, observe_request}
use speedtest_go.Server.Logging.{
  Op, write_header, write, flush, StatusWriter, new_status_writer, run, logging_middleware, Client,
  is_head, is_final, client_run, new_client, seen_status, idle_timeout,
}

-- The first call that sends a header is no flush, and names a final status if it names any.
abbrev pub OpensPlainly : List Op → Type 0
OpensPlainly [] = Unit {0}
OpensPlainly (write_header code ∷ ops) = is_final code ≡ true
OpensPlainly (write n ∷ ops) = Unit {0}
OpensPlainly (flush ∷ ops) = ⊥

-- The writer once a header is out, and the client who has got that header.
opened : ℕ → ℕ → StatusWriter
opened code n = record { status = code; bytes_sent = n; hdr_written = true }

seen : ℕ → ℕ → Client
seen code n = record { header = some code; body = n }

got : Bool → ℕ → ℕ
got head n = if head then 0 else n

got_add : (head : Bool) (n m : ℕ) → got head n + (if head then 0 else m) ≡ got head (n + m)
unfolding got
got_add true n m = omega arith
got_add false n m = omega arith

run_opened :
    (head : Bool) (ops : List Op) (code n : ℕ)
    → (total : ℕ) × (run (opened code n) ops ≡ opened code total)
      × (client_run head (seen code (got head n)) ops ≡ seen code (got head total))
unfolding run client_run opened seen
run_opened head [] code n = (n, refl, refl)
run_opened head (write_header other ∷ ops) code n =
    let (total, left, right) = run_opened head ops code n in
    (
      total,
      left,
      ap (λ c. client_run head c ops)
            (if_both (λ c. c ≡ seen code (got head n)) (is_final other) _ _ refl refl)
          ∙ right,
    )
run_opened head (write m ∷ ops) code n =
    let (total, left, right) = run_opened head ops code (n + m) in
    (total, left, ap (λ b. client_run head (seen code b) ops) (got_add head n m) ∙ right)
run_opened head (flush ∷ ops) code n = run_opened head ops code n

got_none : (head : Bool) → got head 0 ≡ 0
unfolding got
got_none true = refl
got_none false = refl

status_lem :
    (head : Bool) (ops : List Op)
    → OpensPlainly ops
    → ((run new_status_writer ops).status ≡ seen_status (client_run head new_client ops).header)
      × (got head (run new_status_writer ops).bytes_sent ≡ (client_run head new_client ops).body)
unfolding run client_run opened seen
status_lem head [] p = (refl, got_none head)
status_lem head (write_header code ∷ ops) p =
    let (total, left, right) = run_opened head ops code 0 in
    let client = ap (λ b. client_run head (seen code b) ops) (sym (got_none head)) ∙ right in
    rw (p, client_run)
      (
        ap (λ s. s.status) left ∙ sym (ap (λ c. seen_status c.header) client),
        ap (λ s. got head s.bytes_sent) left ∙ sym (ap (λ c. c.body) client),
      )
status_lem head (write n ∷ ops) p =
    let (total, left, right) = run_opened head ops 200 (0 + n) in
    let first : 0 + (if head then 0 else n) ≡ got head (0 + n) =
      ap (λ b. b + (if head then 0 else n)) (sym (got_none head)) ∙ got_add head 0 n in
    let client = ap (λ b. client_run head (seen 200 b) ops) first ∙ right in
    (
      ap (λ s. s.status) left ∙ sym (ap (λ c. seen_status c.header) client),
      ap (λ s. got head s.bytes_sent) left ∙ sym (ap (λ c. c.body) client),
    )
status_lem head (flush ∷ ops) p = absurd p

pub observe_request_lem :
    (h : Handler) (m : Metrics) (method path status : Str)
    → h.metrics ≡ some m
    → observe_request h method path status
      ≡ record h { metrics = some (observe_request_on m method path status) }
unfolding observe_request
observe_request_lem h m method path status e = ground arith

-- The log names the status that the client gets, and the request counter that status too, if the
-- handler's first call that sends a header is not a flush and does not name an informational status.
-- It names the number of bytes that the client gets too, unless the request is a HEAD, whose client
-- gets none.
pub logging_middleware_lem :
    (h : Handler) (m : Metrics) (method path : Str) (ops : List Op) (no_body : Bool)
    (reads : List ℕ)
    → h.metrics ≡ some m
    → OpensPlainly ops
    → let (entry, h') = logging_middleware (some h) method path ops no_body reads in
      let c = client_run (is_head method) new_client ops in
      (entry.status ≡ seen_status c.header)
      × ((if is_head method then 0 else entry.bytes_sent) ≡ c.body)
      × (h'
          ≡ some (record h {
            metrics = some (observe_request_on m method path (itoa (pos (seen_status c.header))));
          }))
unfolding logging_middleware got
logging_middleware_lem h m method path ops no_body reads e p =
    let (same, bytes) = status_lem (is_head method) ops p in
    (
      same,
      bytes,
      ap (λ s. some (observe_request h method path (itoa (pos s)))) same
          ∙ ap some (observe_request_lem h m method path _ e),
    )

-- An idle connection is kept for 6 minutes at least, and for longer than the configured test, which
-- is at least a minute short of the largest int64.
pub idle_timeout_lem :
    (d : ℤ)
    → d ≤ℤ pos 9_223_371_976_854_775_807
    → (pos 360_000_000_000 ≤ℤ idle_timeout d) × (d <ℤ idle_timeout d)
unfolding idle_timeout ◌+ℤ◌ wrap64
idle_timeout_lem (pos n) h = ground arith
idle_timeout_lem (negsuc n) h = ground arith

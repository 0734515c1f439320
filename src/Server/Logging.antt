-- ===== src/Server/Logging.antt =====
-- main.go: the logging middleware with its status writer and counting reader, and the idle timeout.
pub mod Status
use speedtest_go.Base.{
  ℕ, ◌+◌, Bool, true, false, ◌&&◌, ◌||◌, not, Option, none, some, List, [], ◌∷◌, Str, str, str_eq,
  if◌then◌else◌, leb, ◌==◌,
}
use speedtest_go.Base.Int.{ℤ, pos, ltb_ℤ, ◌+ℤ◌, wrap64}
use speedtest_go.Golang.Strconv.{itoa}
use speedtest_go.Handler.State.{Handler, observe_request}

-- What a handler calls on its ResponseWriter; a write is named by the bytes that it returns.
pub data Op : Type 0 where
  write_header : ℕ → Op
  write : ℕ → Op
  flush : Op

pub record StatusWriter : Type 0 where
  pub status : ℕ
  pub bytes_sent : ℕ
  pub hdr_written : Bool

abbrev pub new_status_writer : StatusWriter
new_status_writer = record { status = 200; bytes_sent = 0; hdr_written = false }

unfoldable pub step : StatusWriter → Op → StatusWriter
step sw (write_header code) =
    if sw.hdr_written then sw else record sw { status = code; hdr_written = true }
step sw (write n) = record sw { bytes_sent = sw.bytes_sent + n; hdr_written = true }
step sw flush = sw

unfoldable pub run : StatusWriter → List Op → StatusWriter
unfolding step
run sw [] = sw
run sw (op ∷ ops) = run (step sw op) ops

-- `countingReader`: the bytes of the reads, none of which it changes. A nil body reads as empty.
unfoldable pub count_reads : Bool → List ℕ → ℕ
count_reads is_nil [] = 0
count_reads is_nil (n ∷ reads) =
    let rest = count_reads is_nil reads in if is_nil then rest else n + rest

-- The values of the access log that are measured.
pub record Entry : Type 0 where
  pub status : ℕ
  pub bytes_sent : ℕ
  pub bytes_recv : ℕ

-- The log entry, and the handler after `ObserveRequest`, if there is one. `ops` and `reads` are what
-- the next handler does with its writer and with the body.
unfoldable pub logging_middleware :
    Option Handler
    → (method path : Str) → List Op
    → (no_body : Bool) → List ℕ
    → Entry × Option Handler
unfolding run count_reads
logging_middleware h method path ops no_body reads =
    let sw = run new_status_writer ops in
    (
      record {
        status = sw.status;
        bytes_sent = sw.bytes_sent;
        bytes_recv = count_reads no_body reads;
      },
      elim h [
        | none ↦ none
        | some h' ↦ some (observe_request h' method path (itoa (pos sw.status)))
      ],
    )

-- net/http's response: the header that went out, if any, and the bytes of the body. An informational
-- header is no final one; a write or a flush sends 200 if none went out. The body of a reply to HEAD
-- is dropped, while `Write` returns its length.
pub record Client : Type 0 where
  pub header : Option ℕ
  pub body : ℕ

unfoldable pub is_final : ℕ → Bool
is_final code = not (leb 100 code && leb code 199) || (code == 101)

abbrev sent : Option ℕ → ℕ → Option ℕ
sent none code = some code
sent (some first) code = some first

abbrev pub is_head : Str → Bool
is_head method = str_eq method (str "HEAD")

unfoldable pub client_step : (head : Bool) → Client → Op → Client
unfolding is_final
client_step head c (write_header code) =
    if is_final code then record c { header = sent c.header code } else c
client_step head c (write n) = record {
  header = sent c.header 200;
  body = c.body + (if head then 0 else n);
}
client_step head c flush = record c { header = sent c.header 200 }

unfoldable pub client_run : (head : Bool) → Client → List Op → Client
unfolding client_step
client_run head c [] = c
client_run head c (op ∷ ops) = client_run head (client_step head c op) ops

abbrev pub new_client : Client
new_client = record { header = none; body = 0 }

-- A response without a header ends with 200.
abbrev pub seen_status : Option ℕ → ℕ
seen_status none = 200
seen_status (some code) = code

-- The keep-alive time, in nanoseconds of an int64.
unfoldable pub idle_timeout : ℤ → ℤ
unfolding ◌+ℤ◌ wrap64
idle_timeout test_duration =
    let longest : ℤ = pos 300_000_000_000 in
    wrap64 ((if ltb_ℤ test_duration longest then longest else test_duration) +ℤ pos 60_000_000_000)

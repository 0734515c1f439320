-- ===== src/Handler/Upload.antt =====
-- internal/handler/handler.go: `UploadHandler`, which reads a body, counts it and throws it away.
pub mod Outcome
use Prim.Native.String.{String}
use speedtest_go.Base.{
  ℕ, zero, suc, ◌+◌, ◌-◌, ◌*◌, ◌/◌, Bool, true, false, Option, none, some, List, [], ◌∷◌, ◌++◌, Str,
  str, if◌then◌else◌, leb,
}
use speedtest_go.Handler.Http.{
  Method, get, post, other, Request, Reply, Body, failure, plain, success, http_error,
  method_not_allowed, write_json,
}
use speedtest_go.Handler.Metrics.{up}
use speedtest_go.Handler.State.{Handler, acquire, release, observe_test}

abbrev pub max_upload_bytes : ℕ
max_upload_bytes = 10_737_418_240

-- How a body ends: properly, or by any error, such as a client that goes away.
pub data End : Type 0 where
  eof broken : End

-- A request body, as the sizes of the blocks that its reads give, and its end.
pub record Payload : Type 0 where
  pub blocks : List ℕ
  pub end : End

-- The error that `io.Copy` returns, if any.
pub data CopyError : Type 0 where
  no_error max_bytes_error other_error : CopyError

abbrev copy_end : End → CopyError
copy_end eof = no_error
copy_end broken = other_error

-- `io.Copy(io.Discard, http.MaxBytesReader(w, body, left))`, after `n` bytes: a read that goes past
-- what is left gives only what is left, with a MaxBytesError.
unfoldable pub copy : ℕ → List ℕ → End → ℕ → ℕ × CopyError
copy left [] end n = (n, copy_end end)
copy left (b ∷ blocks) end n =
    let rest = copy (left - b) blocks end (n + b) in
    if leb b left then rest else (n + left, max_bytes_error)

pub record UploadResponse : Type 0 where
  pub received : ℕ
  pub server_elapsed_ms : ℕ
  pub truncated : Bool

abbrev identity : List (String × Str)
identity = ("Content-Encoding", str "identity") ∷ []

-- The reply after the copy; `elapsed` is in nanoseconds.
unfoldable pub upload_reply : ℕ → ℕ → CopyError → Reply (Body UploadResponse)
unfolding write_json
upload_reply n elapsed no_error =
    write_json identity
      (record { received = n; server_elapsed_ms = elapsed / 1_000_000; truncated = false })
upload_reply n elapsed max_bytes_error =
    write_json identity
      (record { received = n; server_elapsed_ms = elapsed / 1_000_000; truncated = true })
upload_reply n elapsed other_error = record {
  status = 400;
  headers =
      identity
      ++ ("Content-Type", str "text/plain; charset=utf-8")
        ∷ ("X-Content-Type-Options", str "nosniff")
        ∷ [];
  body = failure (plain (str "upload failed"));
}

-- None where the release blocks.
abbrev pub Run : Type 0
Run = Option (Reply (Body UploadResponse) × Handler)

-- The deferred calls, the last deferred first: `ObserveTest`, then `release`.
unfoldable pub finish : Handler → ℕ → ℕ → Option Handler
finish h received elapsed = release (observe_test h up received elapsed)

unfoldable pub replied : Reply (Body UploadResponse) → Option Handler → Run
replied reply none = none
replied reply (some h) = some (reply, h)

-- `elapsed` is the time that the copy took, and `total` that of the whole test.
unfoldable pub admitted : Payload → ℕ → ℕ → Handler × Bool → Run
admitted p elapsed total (h, false) = some (http_error (str "server busy") 503, h)
admitted p elapsed total (h, true) =
    let (n, error) = copy max_upload_bytes p.blocks p.end 0 in
    replied (upload_reply n elapsed error) (finish h n total)

unfoldable pub by_method : Method → Handler → Payload → ℕ → ℕ → Run
by_method post h p elapsed total = admitted p elapsed total (acquire h)
by_method get h p elapsed total = some (method_not_allowed, h)
by_method (other m) h p elapsed total = some (method_not_allowed, h)

unfoldable pub upload_handler : Handler → Request → Payload → ℕ → ℕ → Run
upload_handler h r p elapsed total = by_method r.method h p elapsed total

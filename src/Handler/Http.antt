-- ===== src/Handler/Http.antt =====
-- Requests and replies, as the handlers read and write them.
use Prim.Native.String.{String}
use speedtest_go.Base.{ℕ, List, [], ◌∷◌, ◌++◌, Str, str}

pub data Method : Type 0 where
  get post : Method
  other : Str → Method

pub record Request : Type 0 where
  pub method : Method
  -- `r.URL.Path`, and `r.URL.EscapedPath()`, from which it was decoded
  pub path : Str
  pub escaped_path : Str
  -- `r.URL.Query().Get` and `r.Header.Get`: empty where the key is missing
  pub query : String → Str
  pub header : String → Str
  pub remote_addr : Str

-- A reply with a body of type `B`; the headers are in the order in which they are set.
pub record Reply {ℓ} (B : Type ℓ) : Type ℓ where
  pub status : ℕ
  pub headers : List (String × Str)
  pub body : B

-- The error bodies that more than one handler writes: plain text by `http.Error`, or the JSON
-- envelope of `writeErr`.
pub data Failure : Type 0 where
  plain : Str → Failure
  envelope : Str → Failure

-- A reply is an error text or what the handler meant to say.
pub data Body {ℓ} (B : Type ℓ) : Type ℓ where
  failure : Failure → Body B
  success : B → Body B

abbrev pub http_error {ℓ} : {B : Type ℓ} → Str → ℕ → Reply (Body B)
http_error msg code = record {
  status = code;
  headers =
      ("Content-Type", str "text/plain; charset=utf-8")
      ∷ ("X-Content-Type-Options", str "nosniff")
      ∷ [];
  body = failure (plain msg);
}

unfoldable pub write_err {ℓ} : {B : Type ℓ} → ℕ → Str → Reply (Body B)
write_err code msg = record {
  status = code;
  headers = ("Content-Type", str "application/json") ∷ [];
  body = failure (envelope msg);
}

-- `writeJSON`, after the headers that the handler has set.
unfoldable pub write_json {ℓ} : {B : Type ℓ} → List (String × Str) → B → Reply (Body B)
write_json headers v = record {
  status = 200;
  headers = headers ++ ("Content-Type", str "application/json") ∷ [];
  body = success v;
}

abbrev pub method_not_allowed {ℓ} : {B : Type ℓ} → Reply (Body B)
method_not_allowed = http_error (str "method not allowed") 405

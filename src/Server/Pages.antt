-- ===== src/Server/Pages.antt =====
-- main.go: the favicon, the service worker with its cache name, and the request id.
pub mod CacheName
use Prim.Native.String.{String}
use speedtest_go.Base.{
  ℕ, zero, suc, ◌+◌, ◌-◌, ◌/◌, ◌%◌, Bool, true, false, ◌&&◌, ◌||◌, Option, none, some, List, [],
  ◌∷◌, ◌++◌, Str, str, if◌then◌else◌, ◌==◌, ltb, length,
}
use speedtest_go.Handler.Http.{Reply, Body, success, http_error}

-- `bytes.HasPrefix`
unfoldable pub has_prefix : Str → Str → Bool
has_prefix [] s = true
has_prefix (a ∷ prefix) [] = false
has_prefix (a ∷ prefix) (b ∷ s) = let rest = has_prefix prefix s in a == b && rest

-- `bytes.ReplaceAll` of a text that is not empty, from the left; `skip` bytes of a text that was
-- replaced still stand in front.
unfoldable pub replace_from : (old fresh : Str) → (skip : ℕ) → Str → Str
unfolding has_prefix
replace_from old fresh skip [] = []
replace_from old fresh (suc skip) (c ∷ s) = replace_from old fresh skip s
replace_from old fresh zero (c ∷ s) =
    let found = has_prefix old (c ∷ s) in
    let rest = replace_from old fresh (if found then length old - 1 else 0) s in
    if found then fresh ++ rest else c ∷ rest

unfoldable pub replace_all : Str → (old fresh : Str) → Str
unfolding replace_from
replace_all s old fresh = replace_from old fresh 0 s

abbrev pub swjs_cache_placeholder : Str
swjs_cache_placeholder = str "__SPEEDTEST_CACHE_NAME__"

-- `swjsHandler`, on the file of the embedded sw.js, none where it cannot be read.
unfoldable pub swjs_handler : Option Str → (version : Str) → Reply (Body Str)
unfolding replace_all
swjs_handler none version = http_error (str "sw.js unavailable") 500
swjs_handler (some raw) version = record {
  status = 200;
  headers =
      ("Content-Type", str "application/javascript; charset=utf-8")
      ∷ ("Cache-Control", str "no-cache")
      ∷ [];
  body = success (replace_all raw swjs_cache_placeholder (str "speedtest-" ++ version));
}

-- `faviconHandler`, on the favicon.ico of the working directory, none where it cannot be read;
-- `embedded` is what net/http serves from the binary.
unfoldable pub favicon_handler : Option Str → (embedded : Reply (Body Str)) → Reply (Body Str)
favicon_handler none embedded = embedded
favicon_handler (some icon) embedded = record {
  status = 200;
  headers =
      ("Content-Type", str "image/x-icon") ∷ ("Cache-Control", str "public, max-age=86400") ∷ [];
  body = success icon;
}

abbrev pub hex_char : ℕ → ℕ
hex_char d = if ltb d 10 then d + b'0' else d - 10 + b'a'

-- `hex.EncodeToString`
unfoldable pub hex_encode : List ℕ → Str
hex_encode [] = []
hex_encode (b ∷ bytes) = hex_char (b / 16) ∷ hex_char (b % 16) ∷ hex_encode bytes

-- `newRequestID`, on the 16 random bytes, none where they cannot be had, and on the clock as
-- `RFC3339Nano` writes it.
unfoldable pub new_request_id : Option (List ℕ) → (stamp : Str) → Str
unfolding hex_encode
new_request_id none stamp = hex_encode stamp
new_request_id (some bytes) stamp = hex_encode bytes

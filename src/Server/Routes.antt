-- ===== src/Server/Routes.antt =====
-- main.go: the routes of the mux and the rate limiter in front of it.
pub mod Scope
use Prim.Native.String.{String}
use mathlib.Core.Bool.{false≢true}
use speedtest_go.Base.{
  ◌∙◌, if_both, ℕ, ◌≡◌, ◌↔◌, ◌⊎◌, inl, inr, refl, sym, ap, Bool, true, false, ◌||◌, ◌&&◌, not,
  Option, none, some, List, [], ◌∷◌, Str, str, str_eq, str_eq_sound, str_eq_refl, is_empty,
  if◌then◌else◌, ◌==◌, arith, Bool-cases, drop,
}
use speedtest_go.Golang.Escape.{escape_at}
use speedtest_go.Handler.Http.{Request, Reply, Failure}
use speedtest_go.Handler.ClientIp.{client_ip}
use speedtest_go.Handler.RateLimit.{Rate, RateLimiter, is_scoped, allow, rate_limit}
use speedtest_go.Handler.RateLimit.Outcome.{rate_limit-passed, rate_limit-exempt}

pub data Route : Type 0 where
  static_file favicon sw_js : Route
  api_config api_ip api_ping api_download api_upload : Route
  healthz metrics results_export results : Route
  -- the mux redirects to the clean path
  redirect : Route

-- The patterns that `buildMux` registers, besides "/".
abbrev patterns : List (Str × Route)
patterns =
    (str "/favicon.ico", favicon)
    ∷ (str "/sw.js", sw_js)
    ∷ (str "/api/config", api_config)
    ∷ (str "/api/ip", api_ip)
    ∷ (str "/api/ping", api_ping)
    ∷ (str "/api/download", api_download)
    ∷ (str "/api/upload", api_upload)
    ∷ (str "/healthz", healthz)
    ∷ (str "/metrics", metrics)
    ∷ (str "/api/results/export", results_export)
    ∷ (str "/api/results", results)
    ∷ []

-- A pattern without a slash at its end takes its own path only. The mux splits the escaped path into
-- segments and decodes each: an escaped slash belongs to its segment, and no pattern has one there.
unfoldable pub matches : (pattern escaped : Str) → Bool
unfolding escape_at
matches [] [] = true
matches [] (c ∷ s) = false
matches (p ∷ pattern) [] = false
matches (p ∷ pattern) (c ∷ s) =
    let plain = matches pattern s in
    let coded = matches pattern (drop 2 s) in
    elim (escape_at (c ∷ s)) [
      | none ↦ c == p && plain
      | some v ↦ not (v == b'/') && (v == p && coded)
    ]

-- "/" takes all that is left.
lookup : List (Str × Route) → Str → Route
unfolding matches
lookup [] escaped = static_file
lookup ((pattern, route) ∷ rest) escaped =
    let later = lookup rest escaped in if matches pattern escaped then route else later

-- Whether a segment is one that `path.Clean` removes.
abbrev is_dots : Str → Bool
is_dots [] = true
is_dots (a ∷ []) = a == b'.'
is_dots (a ∷ b ∷ []) = a == b'.' && b == b'.'
is_dots (a ∷ b ∷ c ∷ s) = false

-- The segments of what follows the first slash, the last of which may be empty; `segment` is the
-- reversed part of the current one, which is one of the removed kinds exactly when its reverse is.
segments_clean : (segment : Str) → Str → Bool
segments_clean segment [] = is_empty segment || not (is_dots segment)
segments_clean segment (c ∷ s) =
    let ended = segments_clean [] s in
    let longer = segments_clean (c ∷ segment) s in
    if c == b'/' then not (is_dots segment) && ended else longer

-- `cleanPath(p) == p`
unfoldable pub is_clean : Str → Bool
unfolding segments_clean
is_clean [] = false
is_clean (c ∷ s) = c == b'/' && segments_clean [] s

-- The handler that `http.ServeMux` finds for the escaped path of a request that is no CONNECT.
unfoldable pub route : Str → Route
unfolding lookup is_clean
route escaped = if is_clean escaped then lookup patterns escaped else redirect

pub data Answer : Type 0 where
  limited : Reply Failure → Answer
  routed : Route → Answer

abbrev answer_of : Option (Reply Failure) → Route → Answer
answer_of none r = routed r
answer_of (some reply) r = limited reply

-- `h.RateLimit(mux)`
unfoldable pub serve :
    (rate : Rate)
    → Option (RateLimiter rate)
    → Request
    → (now : ℕ) → Answer × Option (RateLimiter rate)
unfolding rate_limit route
serve rate limiter r now =
    let (refusal, limiter') = rate_limit rate limiter r now in
    (answer_of refusal (route r.escaped_path), limiter')

-- The endpoints of the speed test.
abbrev pub is_test : Route → Bool
is_test api_download = true
is_test api_upload = true
is_test api_ping = true
is_test other = false

routes :
    (route (str "/api/download") ≡ api_download)
    × (route (str "/api/download/") ≡ static_file)
    × (route (str "//api/download") ≡ redirect)
    × (route (str "/api/./ping") ≡ redirect)
    × (route (str "/api/x/../ping") ≡ redirect)
    × (route (str "/...") ≡ static_file)
    × (route (str "/") ≡ static_file)
    × (route [] ≡ redirect)
    × (route (str "/api%2Fdownload") ≡ static_file)
    × (route (str "/api/d%6Fwnload") ≡ api_download)
unfolding route
routes = (refl, refl, refl, refl, refl, refl, refl, refl, refl, refl)

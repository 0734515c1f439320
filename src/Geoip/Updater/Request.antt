-- ===== src/Geoip/Updater/Request.antt =====
-- internal/geoip/updater.go, download: the request that asks for the bundle.
pub mod Query
use speedtest_go.Base.{
  ℕ, ◌+◌, ◌-◌, ◌/◌, ◌%◌, ◌≡◌, refl, Bool, ◌||◌, ◌&&◌, Option, none, some, List, [], ◌∷◌, ◌++◌, Str,
  str, is_empty, if◌then◌else◌, ◌==◌, leb, ltb,
}
use speedtest_go.Geoip.Updater.{UpdaterConfig}

-- The bytes that `url.QueryEscape` leaves as they are.
abbrev pub is_unreserved : ℕ → Bool
is_unreserved c =
    (leb b'a' c && leb c b'z')
    || (leb b'A' c && leb c b'Z')
    || (leb b'0' c && leb c b'9')
    || c == b'-'
    || c == b'_'
    || c == b'.'
    || c == b'~'

abbrev pub upper_hex : ℕ → ℕ
upper_hex d = if ltb d 10 then d + b'0' else d - 10 + b'A'

abbrev pub escape_byte : ℕ → Str
escape_byte c =
    if is_unreserved c
    then c ∷ []
    else if c == 32
    then b'+' ∷ []
    else b'%' ∷ upper_hex (c / 16) ∷ upper_hex (c % 16) ∷ []

-- `url.QueryEscape`
unfoldable pub query_escape : Str → Str
query_escape [] = []
query_escape (c ∷ s) = escape_byte c ++ query_escape s

-- `Values.Encode`, on values whose keys are sorted and need no escape.
unfoldable pub encode : List (Str × Str) → Str
unfolding query_escape
encode [] = []
encode ((key, value) ∷ []) = key ++ b'=' ∷ query_escape value
encode ((key, value) ∷ next ∷ values) =
    key ++ b'=' ∷ (query_escape value ++ b'&' ∷ encode (next ∷ values))

abbrev pub parameters : UpdaterConfig → List (Str × Str)
parameters cfg =
    (str "edition_id", cfg.edition)
    ∷ (str "license_key", cfg.license_key)
    ∷ (str "suffix", str "tar.gz")
    ∷ []

-- `strings.TrimRight(base, "/")`
unfoldable pub trim_right_slash : Str → Str
trim_right_slash [] = []
trim_right_slash (c ∷ s) =
    let rest = trim_right_slash s in if is_empty rest && c == b'/' then [] else c ∷ rest

abbrev pub download_host_default : Str
download_host_default = str "https://download.maxmind.com"

-- The URL, and the time of the target file, which `If-Modified-Since` names where there is one.
pub record Request : Type 0 where
  pub url : Str
  pub if_modified_since : Option ℕ

unfoldable pub bundle_request : UpdaterConfig → (base : Str) → (modified : Option ℕ) → Request
unfolding encode trim_right_slash
bundle_request cfg base modified = record {
  url = trim_right_slash base ++ (str "/app/geoip_download?" ++ encode (parameters cfg));
  if_modified_since = modified;
}

-- ===== src/Geoip/Updater/Request/Query.antt =====
-- The query of the request is read back as it was meant.
use speedtest_go.Base.{
  ℕ, zero, suc, ◌+◌, ◌-◌, ◌*◌, ◌/◌, ◌%◌, ◌<◌, ◌≡◌, refl, sym, ap, ◌∙◌, false, ◌&&◌, Option, none,
  some, List, [], ◌∷◌, ◌++◌, Str, str, if◌then◌else◌, ◌==◌, leb, arith, Bool-cases, ◌⊎◌, inl, inr,
  append_assoc,
}
use speedtest_go.Golang.HostPort.{contains, split_first, split_first-append}
use speedtest_go.Golang.Ip.{AllBelow}
use speedtest_go.Geoip.Updater.{UpdaterConfig}
use speedtest_go.Geoip.Updater.Request.{
  is_unreserved, upper_hex, escape_byte, query_escape, encode, parameters, trim_right_slash,
  bundle_request,
}

unhex : ℕ → Option ℕ
unhex c =
    if leb b'0' c && leb c b'9'
    then some (c - b'0')
    else if leb b'A' c && leb c b'F'
    then some (c - b'A' + 10)
    else none

cons : ℕ → Option Str → Option Str
cons c none = none
cons c (some s) = some (c ∷ s)

hex_pair : Option ℕ → Option ℕ → Option Str → Option Str
unfolding cons
hex_pair (some a) (some b) rest = cons (a * 16 + b) rest
hex_pair (some a) none rest = none
hex_pair none b rest = none

-- What a query component stands for.
unescape : Str → Option Str
unfolding cons hex_pair unhex
unescape [] = some []
unescape (a ∷ []) = if a == b'%' then none else some ((if a == b'+' then 32 else a) ∷ [])
unescape (a ∷ b ∷ []) =
    let rest = unescape (b ∷ []) in
    if a == b'%' then none else cons (if a == b'+' then 32 else a) rest
unescape (a ∷ b ∷ c ∷ s) =
    let after = unescape s in
    let rest = unescape (b ∷ c ∷ s) in
    if a == b'%'
    then hex_pair (unhex b) (unhex c) after
    else cons (if a == b'+' then 32 else a) rest

-- A name and the text of its value.
pair_of : Option (Str × Str) → Option (Str × Str)
unfolding unescape
pair_of none = none
pair_of (some (key, text)) = elim (unescape text) [ none ↦ none | some value ↦ some (key, value) ]

and_then : Option (Str × Str) → Option (List (Str × Str)) → Option (List (Str × Str))
and_then none rest = none
and_then (some p) none = none
and_then (some p) (some ps) = some (p ∷ ps)

-- The pairs of a query: `n` of them follow the first.
pub read_query : (n : ℕ) → Str → Option (List (Str × Str))
unfolding pair_of split_first and_then
read_query zero s = and_then (pair_of (split_first b'=' s)) (some [])
read_query (suc n) s = elim (split_first b'&' s) [
  | none ↦ none
  | some (first, rest) ↦ and_then (pair_of (split_first b'=' first)) (read_query n rest)
]

unescape-plain :
    (a : ℕ) (s : Str)
    → (a == b'%') ≡ false
    → unescape (a ∷ s) ≡ cons (if a == b'+' then 32 else a) (unescape s)
unfolding unescape cons
unescape-plain a [] h = ground arith
unescape-plain a (b ∷ []) h = ground arith
unescape-plain a (b ∷ c ∷ s) h = ground arith

unhex-upper_hex : (d : ℕ) → d < 16 → unhex (upper_hex d) ≡ some d
unfolding unhex
unhex-upper_hex d h = ground arith

unescape-coded :
    (b c : ℕ) (s : Str) → unescape (b'%' ∷ b ∷ c ∷ s) ≡ hex_pair (unhex b) (unhex c) (unescape s)
unfolding unescape
unescape-coded b c s = refl

unescape-hex :
    (c : ℕ) (s : Str)
    → c < 256
    → unescape (b'%' ∷ upper_hex (c / 16) ∷ upper_hex (c % 16) ∷ s) ≡ cons c (unescape s)
unfolding hex_pair
unescape-hex c s h =
    let value : c / 16 * 16 + c % 16 ≡ c = omega arith in
    unescape-coded (upper_hex (c / 16)) (upper_hex (c % 16)) s
    ∙ ap (λ o. hex_pair o (unhex (upper_hex (c % 16))) (unescape s))
        (unhex-upper_hex (c / 16) (omega arith))
    ∙ ap (λ o. hex_pair (some (c / 16)) o (unescape s)) (unhex-upper_hex (c % 16) (omega arith))
    ∙ ap (λ v. cons v (unescape s)) value

unescape-escape_byte :
    (c : ℕ) (s : Str) → c < 256 → unescape (escape_byte c ++ s) ≡ cons c (unescape s)
unescape-escape_byte c s h = elim (Bool-cases (is_unreserved c)) [
  | inl kept ↦
      rw kept (unescape-plain c s (ground arith) ∙ ap (λ v. cons v (unescape s)) (ground arith))
  | inr other ↦ elim (Bool-cases (c == 32)) [
    | inl space ↦
        rw (other, space)
          (unescape-plain b'+' s refl ∙ ap (λ v. cons v (unescape s)) (ground arith))
    | inr coded ↦ rw (other, coded) (unescape-hex c s h)
  ]
]

unescape-query_escape : (s : Str) → AllBelow 256 s → unescape (query_escape s) ≡ some s
unfolding query_escape unescape cons
unescape-query_escape [] h = refl
unescape-query_escape (c ∷ s) (h, hs) =
    unescape-escape_byte c (query_escape s) h ∙ ap (cons c) (unescape-query_escape s hs)

-- The bytes that join a query.
abbrev IsJoint : ℕ → Type 0
IsJoint k = (k ≡ b'&') ⊎ (k ≡ b'=')

contains-escape_byte :
    (k c : ℕ) (s : Str) → IsJoint k → c < 256 → contains k (escape_byte c ++ s) ≡ contains k s
unfolding contains
contains-escape_byte k c s j h = elim (Bool-cases (is_unreserved c)) [
  | inl kept ↦ rw kept (ground arith)
  | inr other ↦ elim (Bool-cases (c == 32)) [
    | inl space ↦ rw (other, space) (ground arith)
    | inr coded ↦ rw (other, coded) (ground arith)
  ]
]

contains-query_escape :
    (k : ℕ) (s : Str) → IsJoint k → AllBelow 256 s → contains k (query_escape s) ≡ false
unfolding query_escape contains
contains-query_escape k [] j h = refl
contains-query_escape k (c ∷ s) j (h, hs) =
    contains-escape_byte k c (query_escape s) j h ∙ contains-query_escape k s j hs

pair_of_lem :
    (key value : Str)
    → contains b'=' key ≡ false
    → AllBelow 256 value
    → pair_of (split_first b'=' (key ++ b'=' ∷ query_escape value)) ≡ some (key, value)
unfolding pair_of
pair_of_lem key value k h =
    rw (split_first-append b'=' key (query_escape value) k, pair_of)
      (rw (unescape-query_escape value h, pair_of) refl)

contains-append :
    (k : ℕ) (s t : Str) → contains k s ≡ false → contains k t ≡ false → contains k (s ++ t) ≡ false
unfolding contains
contains-append k [] t hs ht = ht
contains-append k (c ∷ s) t hs ht = ground (arith, contains-append k s t)

read_query-more :
    (n : ℕ) (key value rest : Str)
    → contains b'&' key ≡ false
    → contains b'=' key ≡ false
    → AllBelow 256 value
    → read_query (suc n) (key ++ b'=' ∷ (query_escape value ++ b'&' ∷ rest))
      ≡ and_then (some (key, value)) (read_query n rest)
unfolding read_query contains
read_query-more n key value rest k j h =
    let first = key ++ b'=' ∷ query_escape value in
    let joined : key ++ b'=' ∷ (query_escape value ++ b'&' ∷ rest) ≡ first ++ b'&' ∷ rest =
      sym (append_assoc key (b'=' ∷ query_escape value) (b'&' ∷ rest)) in
    let plain : contains b'&' first ≡ false =
      contains-append b'&' key (b'=' ∷ query_escape value) k
        (contains-query_escape b'&' value (inl refl) h) in
    ap (read_query (suc n)) joined
    ∙ rw (split_first-append b'&' first rest plain, read_query)
        (ap (λ p. and_then p (read_query n rest)) (pair_of_lem key value j h))

read_query-last :
    (key value : Str)
    → contains b'=' key ≡ false
    → AllBelow 256 value
    → read_query zero (key ++ b'=' ∷ query_escape value) ≡ some ((key, value) ∷ [])
unfolding read_query and_then
read_query-last key value k h = ap (λ p. and_then p (some [])) (pair_of_lem key value k h)

read_query-encode :
    (cfg : UpdaterConfig)
    → AllBelow 256 cfg.edition
    → AllBelow 256 cfg.license_key
    → read_query 2 (encode (parameters cfg)) ≡ some (parameters cfg)
unfolding encode and_then contains
read_query-encode cfg edition key =
    read_query-more 1 (str "edition_id") cfg.edition _ refl refl edition
    ∙ ap (and_then (some (str "edition_id", cfg.edition))) (
        read_query-more 0 (str "license_key") cfg.license_key _ refl refl key
        ∙ ap (and_then (some (str "license_key", cfg.license_key)))
            (read_query-last (str "suffix") (str "tar.gz") refl (bytes_of_suffix)))
  where
    bytes_of_suffix : AllBelow 256 (str "tar.gz")
    bytes_of_suffix = ground arith

-- The URL goes to the download path below the base. Whatever bytes stand in the edition and in the
-- licence key, who reads the query after it gets the three parameters as they were meant, in their
-- order, and no other.
pub bundle_request-read :
    (cfg : UpdaterConfig) (base : Str) (modified : Option ℕ)
    → AllBelow 256 cfg.edition
    → AllBelow 256 cfg.license_key
    → (query : Str) × ((bundle_request cfg base modified).url
        ≡ trim_right_slash base ++ (str "/app/geoip_download?" ++ query))
      × (read_query 2 query ≡ some (parameters cfg))
unfolding bundle_request
bundle_request-read cfg base modified edition key =
    (encode (parameters cfg), refl, read_query-encode cfg edition key)

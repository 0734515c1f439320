-- ===== src/Server/Usage.antt =====
-- main.go, printUsage: the flags that the help text lists.
use speedtest_go.Base.{
  ◌≡◌, refl, ap, sym, Bool, true, false, ◌||◌, none, some, [], ◌∷◌, ◌++◌, Str, str, str_eq,
  str_eq_sound, if◌then◌else◌, Bool-cases, inl, inr, arith,
}
use speedtest_go.Golang.Flag.{string_flag, int_flag, bool_flag, Formal, kind_of}
use speedtest_go.Config.Cli.{flags}

abbrev main_flags : Formal
main_flags =
    (str "config", string_flag)
    ∷ (str "host", string_flag)
    ∷ (str "port", string_flag)
    ∷ (str "mode", string_flag)
    ∷ (str "duration", int_flag)
    ∷ (str "streams", int_flag)
    ∷ (str "download-mb", int_flag)
    ∷ (str "upload-mb", int_flag)
    ∷ (str "max-concurrent", int_flag)
    ∷ (str "warmup-ms", int_flag)
    ∷ (str "db-path", string_flag)
    ∷ (str "rate-per-min", int_flag)
    ∷ []

abbrev pub usage_flags : Formal
usage_flags = main_flags ++ (str "version", bool_flag) ∷ []

abbrev pub unlisted : Str → Bool
unlisted name =
    str_eq name (str "geoip-db")
    || str_eq name (str "geoip-license-key")
    || str_eq name (str "geoip-edition")

kind_of-append :
    (name : Str) (xs ys zs : Formal)
    → kind_of name ys ≡ kind_of name zs
    → kind_of name (xs ++ ys) ≡ kind_of name (xs ++ zs)
unfolding kind_of
kind_of-append name [] ys zs h = h
kind_of-append name ((n, k) ∷ xs) ys zs h =
    ap (λ t. if str_eq name n then some k else t) (kind_of-append name xs ys zs h)

abbrev geo_flags : Formal
geo_flags =
    (str "geoip-db", string_flag)
    ∷ (str "geoip-license-key", string_flag)
    ∷ (str "geoip-edition", string_flag)
    ∷ (str "version", bool_flag)
    ∷ []

past_geo :
    (name : Str)
    → unlisted name ≡ false
    → kind_of name geo_flags ≡ kind_of name ((str "version", bool_flag) ∷ [])
unfolding kind_of
past_geo name h = ground (arith, h)

unlisted_known :
    (name : Str)
    → unlisted name ≡ true
    → (kind_of name flags ≡ some string_flag) × (kind_of name usage_flags ≡ none)
unfolding kind_of str_eq
unlisted_known name h = elim (Bool-cases (str_eq name (str "geoip-db"))) [
  | inl db ↦ rw (str_eq_sound name (str "geoip-db") db) (refl, refl)
  | inr other ↦ elim (Bool-cases (str_eq name (str "geoip-license-key"))) [
    | inl key ↦ rw (str_eq_sound name (str "geoip-license-key") key) (refl, refl)
    | inr third ↦
        let edition : str_eq name (str "geoip-edition") ≡ true = rw (other, third) at h in
        rw (str_eq_sound name (str "geoip-edition") edition) (refl, refl)
  ]
]

-- The help text lists the flags that the command line accepts, each with the kind of value that it
-- has there, but for the three of the geo lookup, which the command line accepts as texts.
usage_flags_lem :
    (name : Str)
    → ((unlisted name ≡ false) → kind_of name usage_flags ≡ kind_of name flags)
      × ((unlisted name ≡ true)
          → (kind_of name flags ≡ some string_flag) × (kind_of name usage_flags ≡ none))
usage_flags_lem name = (
  λ h. sym (
      kind_of-append name main_flags geo_flags ((str "version", bool_flag) ∷ []) (past_geo name h)),
  unlisted_known name,
)

-- ===== src/Geoip/Location/Laws.antt =====
-- Which addresses get a location, and which text it is.
use speedtest_go.Base.{
  ℕ, ◌≡◌, ◌≢◌, ◌⊎◌, refl, sym, ◌∙◌, inl, inr, Bool, true, false, ◌||◌, none, some, [], ◌∷◌, ◌++◌,
  Str, str, is_empty, if◌then◌else◌, Bool-cases, Option-cases, arith,
}
use mathlib.Core.Bool.{false≢true}
use speedtest_go.Golang.Ip.{
  Ip, IsValid, is_loopback, is_private, is_link_local_unicast, is_link_local_multicast,
}
use speedtest_go.Handler.ClientIp.{is_internal}
use speedtest_go.Handler.ClientIp.Trust.{is_internal_ranges}
use speedtest_go.Geoip.Location.{
  Names, MmdbRecord, Mmdb, get_name, non_empty, pick_from, pick_name, format_location,
  is_private_or_loopback, found, locate, preferred_languages,
}

or_false : (a b c : Bool) → (a || (b || c)) ≡ false → (a ≡ false) × (b ≡ false) × (c ≡ false)
or_false a b c h = ground arith

-- The two notions of an internal address differ by the link-local ranges only: the addresses that are
-- never looked up are those that the handler trusts as a proxy and the link-local ones.
pub is_private_or_loopback_iff :
    (ip : Ip)
    → IsValid ip
    → is_private_or_loopback ip
      ≡ (is_internal ip || (is_link_local_unicast ip || is_link_local_multicast ip))
unfolding is_private_or_loopback
is_private_or_loopback_iff ip h = rw (is_internal_ranges ip h) (
    or_lem (is_loopback ip) (is_private ip) (is_link_local_unicast ip) (is_link_local_multicast ip))
  where
    or_lem : (l p u m : Bool) → (if l || u || m then true else p) ≡ (l || p || (u || m))
    or_lem true p u m = ground arith
    or_lem false p u m = ground arith

-- The language has no name, or an empty one.
abbrev pub Missing : Names → Str → Type 0
Missing names lang = (get_name names lang ≡ none) ⊎ (get_name names lang ≡ some [])

-- The name that the text is: the Chinese one, else the English one; none for the empty text.
abbrev pub Chosen : Names → Str → Type 0
Chosen names [] = Missing names (str "zh-CN") × Missing names (str "en")
Chosen names (c ∷ t) =
    (get_name names (str "zh-CN") ≡ some (c ∷ t))
    ⊎ (Missing names (str "zh-CN") × (get_name names (str "en") ≡ some (c ∷ t)))

non_empty-Missing :
    (names : Names) (lang : Str) → non_empty (get_name names lang) ≡ false → Missing names lang
non_empty-Missing names lang h = elim (Option-cases (get_name names lang)) [
  | inl absent ↦ inl absent
  | inr ([], blank) ↦ inr blank
  | inr (c ∷ v, named) ↦ absurd (false≢true (sym (rw named at h)))
]

non_empty-text :
    (names : Names) (lang : Str)
    → non_empty (get_name names lang) ≡ true
    → (c : ℕ) × (t : Str) × (get_name names lang ≡ some (c ∷ t))
non_empty-text names lang h = elim (Option-cases (get_name names lang)) [
  | inl absent ↦ absurd (false≢true (rw absent at h))
  | inr ([], blank) ↦ absurd (false≢true (rw blank at h))
  | inr (c ∷ v, named) ↦ (c, v, named)
]

pick_from-Chosen : (names : Names) → Chosen names (pick_from names preferred_languages)
unfolding pick_from
pick_from-Chosen names = elim (Bool-cases (non_empty (get_name names (str "zh-CN")))) [
  | inl chinese ↦
      let (c, t, named) = non_empty-text names (str "zh-CN") chinese in rw named (inl named)
  | inr other ↦ elim (Bool-cases (non_empty (get_name names (str "en")))) [
    | inl english ↦
        let (c, t, named) = non_empty-text names (str "en") english in
        rw (other, named) (inr (non_empty-Missing names (str "zh-CN") other, named))
    | inr neither ↦
        rw (other, neither)
          (non_empty-Missing names (str "zh-CN") other, non_empty-Missing names (str "en") neither)
  ]
]

pick_name-Chosen : (names : Names) → Chosen names (pick_name names)
unfolding pick_name
pick_name-Chosen [] = (inl refl, inl refl)
pick_name-Chosen (entry ∷ names) = pick_from-Chosen (entry ∷ names)

-- The text of a record: nothing without a country, else the country, after the city if it has one.
abbrev pub Located : MmdbRecord → Str → Type 0
Located rec t =
    (country : Str) × (city : Str) × Chosen rec.country_names country
    × Chosen rec.city_names city
    × (((country ≡ []) × (t ≡ []))
        ⊎ ((country ≢ []) × (city ≡ []) × (t ≡ country))
        ⊎ ((country ≢ []) × (city ≢ []) × (t ≡ city ++ str ", " ++ country)))

format_by : (country city : Str) → Str
format_by country city =
    if is_empty country then [] else if is_empty city then country else city ++ str ", " ++ country

format_by_lem :
    (country city t : Str)
    → format_by country city ≡ t
    → (((country ≡ []) × (t ≡ []))
        ⊎ ((country ≢ []) × (city ≡ []) × (t ≡ country))
        ⊎ ((country ≢ []) × (city ≢ []) × (t ≡ city ++ str ", " ++ country)))
unfolding format_by
format_by_lem [] city t h = inl (refl, sym h)
format_by_lem (c ∷ s) [] t h = inr (inl (λ e. cc, refl, sym h))
format_by_lem (c ∷ s) (d ∷ u) t h = inr (inr (λ e. cc, λ e. cc, sym h))

format_location-Located : (rec : MmdbRecord) → Located rec (format_location rec)
unfolding format_location format_by
format_location-Located rec = (
  pick_name rec.country_names,
  pick_name rec.city_names,
  pick_name-Chosen rec.country_names,
  pick_name-Chosen rec.city_names,
  format_by_lem (pick_name rec.country_names) (pick_name rec.city_names) (format_location rec) refl,
)

-- A location that is not empty belongs to an address outside the internal and the link-local
-- ranges, which the database has: it is the country of the record, after the city if that has a
-- name, each in Chinese or else in English.
pub locate-Located :
    (mmdb : Mmdb) (reader : mmdb.Reader) (ip : Ip)
    → IsValid ip
    → locate mmdb (some reader) (some ip) ≢ []
    → (is_internal ip ≡ false)
      × (is_link_local_unicast ip ≡ false)
      × (is_link_local_multicast ip ≡ false)
      × ((rec : MmdbRecord) × (mmdb.find reader ip ≡ some rec)
          × Located rec (locate mmdb (some reader) (some ip)))
unfolding locate found
locate-Located mmdb reader ip valid h = elim (Bool-cases (is_private_or_loopback ip)) [
  | inl inside ↦ absurd (h (rw (locate, inside) refl))
  | inr outside ↦ elim (Option-cases (mmdb.find reader ip)) [
    | inl missed ↦ absurd (h (rw (locate, outside, missed) refl))
    | inr (rec, hit) ↦
        let ranges = or_false _ _ _ (sym (is_private_or_loopback_iff ip valid) ∙ outside) in
        (
          ranges.0,
          ranges.1,
          ranges.2,
          (rec, hit, rw (locate, outside, hit) (format_location-Located rec)),
        )
  ]
]

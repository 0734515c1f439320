-- ===== src/Geoip/Location.antt =====
-- internal/geoip/geoip.go: the location text of an address, over the mmdb reader that it calls.
pub mod Laws
use speedtest_go.Base.{
  ℕ, ◌≡◌, Bool, true, false, not, ◌||◌, ◌&&◌, Option, none, some, List, [], ◌∷◌, ◌++◌, Str, str,
  str_eq, is_empty, if◌then◌else◌,
}
use speedtest_go.Golang.Ip.{
  Ip, is_loopback, is_private, is_link_local_unicast, is_link_local_multicast,
}

-- A map of names by language tag, where a key stands once.
abbrev pub Names : Type 0
Names = List (Str × Str)

unfoldable pub get_name : Names → Str → Option Str
unfolding str_eq
get_name [] lang = none
get_name ((key, v) ∷ names) lang =
    let rest = get_name names lang in if str_eq key lang then some v else rest

pub record MmdbRecord : Type 0 where
  pub country_names : Names
  pub city_names : Names

abbrev pub preferred_languages : List Str
preferred_languages = str "zh-CN" ∷ str "en" ∷ []

-- `if v, ok := names[lang]; ok && v != ""`
abbrev pub non_empty : Option Str → Bool
non_empty none = false
non_empty (some v) = not (is_empty v)

abbrev pub text_of : Option Str → Str
text_of none = []
text_of (some v) = v

pick_from : Names → List Str → Str
unfolding get_name
pick_from names [] = []
pick_from names (lang ∷ langs) =
    let rest = pick_from names langs in
    if non_empty (get_name names lang) then text_of (get_name names lang) else rest

unfoldable pub pick_name : Names → Str
unfolding pick_from
pick_name [] = []
pick_name (entry ∷ names) = pick_from (entry ∷ names) preferred_languages

unfoldable pub format_location : MmdbRecord → Str
unfolding pick_name
format_location rec =
    let country = pick_name rec.country_names in
    let city = pick_name rec.city_names in
    if is_empty country then [] else if is_empty city then country else city ++ str ", " ++ country

-- `isPrivateOrLoopback` of this package
unfoldable pub is_private_or_loopback : Ip → Bool
unfolding is_loopback is_link_local_unicast is_link_local_multicast is_private
is_private_or_loopback ip =
    if is_loopback ip || is_link_local_unicast ip || is_link_local_multicast ip
    then true
    else is_private ip

-- github.com/oschwald/maxminddb-golang, and the operating system below it.
pub record Mmdb : Type 1 where
  -- an open reader
  pub Reader : Type 0
  -- `maxminddb.Open`, none for an error
  pub open_file : Str → Option Reader
  -- `Lookup(ip, &rec)`: the record, which is empty where the address is absent; none for an error
  pub find : Reader → Ip → Option MmdbRecord
  -- `Close`: whether it reports no error
  pub close_file : Reader → Bool

module _ (mmdb : Mmdb) where
  -- `Open`
  unfoldable pub open_lookup : Str → Option mmdb.Reader
  open_lookup path = mmdb.open_file path

  -- `Close`, safe on a reader that is nil.
  unfoldable pub close_lookup : Option mmdb.Reader → Bool
  close_lookup none = true
  close_lookup (some reader) = mmdb.close_file reader

  found : Option MmdbRecord → Str
  unfolding format_location
  found none = []
  found (some rec) = format_location rec

  -- `Locate`, of a reader that may be nil and an address that may be nil.
  unfoldable pub locate : Option mmdb.Reader → Option Ip → Str
  unfolding found is_private_or_loopback
  locate none ip = []
  locate (some reader) none = []
  locate (some reader) (some ip) =
      if is_private_or_loopback ip then [] else found (mmdb.find reader ip)

-- ===== src/Tests/Clients.antt =====
-- The theorems on client addresses and the geo lookup at concrete inputs.
use speedtest_go.Base.{
  ◌≡◌, ◌↔◌, refl, Bool, true, false, ◌||◌, some, [], ◌∷◌, str, str_eq, if◌then◌else◌, arith,
}
use speedtest_go.Golang.HostPort.{contains}
use speedtest_go.Golang.Strconv.{itoa_ℕ}
use speedtest_go.Golang.Ip.{v4, is_link_local_unicast, is_link_local_multicast}
use speedtest_go.Golang.Ip.Text.{ip_text}
use speedtest_go.Handler.Http.{get, Request}
use speedtest_go.Handler.ClientIp.{is_internal, client_ip}
use speedtest_go.Handler.ClientIp.Trust.{Trusted, Chosen, is_internal-Trusted, client_ip-Chosen}
use speedtest_go.Handler.ClientIp.Proxy.{client_ip_lem}
use speedtest_go.Geoip.Location as Location
use speedtest_go.Geoip.Location.{MmdbRecord, Mmdb, locate}
use speedtest_go.Geoip.Location.Laws.{Located, is_private_or_loopback_iff, locate-Located}
use speedtest_go.Tests.Fixtures.{request_to, one_var}

-- Through a proxy on the same machine, and from outside.
abbrev forwarded : Request
forwarded = record (request_to get "/api/ip" (λ key. [])) {
  header = one_var "X-Forwarded-For" (str "198.51.100.7, 10.0.0.2");
  remote_addr = str "127.0.0.1:40000";
}

abbrev direct : Request
direct = record forwarded { remote_addr = str "203.0.113.5:40000" }

abbrev bare : Request
bare = request_to get "/api/ip" (λ key. [])

client_ip_lem_example :
    client_ip forwarded
    ≡ (if is_internal (v4 127 0 0 1) then ip_text (v4 198 51 100 7) else ip_text (v4 127 0 0 1))
unfolding ip_text itoa_ℕ contains str_eq
client_ip_lem_example =
    client_ip_lem forwarded 127 0 0 1 198 51 100 7 (str "40000") (str " 10.0.0.2")
      (omega arith, omega arith, omega arith, omega arith)
      (omega arith, omega arith, omega arith, omega arith) (refl, refl) refl refl refl

client_ip-Chosen_example : Chosen forwarded (client_ip forwarded)
client_ip-Chosen_example = client_ip-Chosen forwarded

is_internal-Trusted_example : (is_internal (v4 172 31 0 9) ≡ true) ↔ Trusted (v4 172 31 0 9)
is_internal-Trusted_example =
    is_internal-Trusted (v4 172 31 0 9) (omega arith, omega arith, omega arith, omega arith)

is_private_or_loopback_iff_example : Location.is_private_or_loopback (v4 169 254 1 1) ≡ (
    is_internal (v4 169 254 1 1)
    || (is_link_local_unicast (v4 169 254 1 1) || is_link_local_multicast (v4 169 254 1 1)))
is_private_or_loopback_iff_example =
    is_private_or_loopback_iff (v4 169 254 1 1) (omega arith, omega arith, omega arith, omega arith)

-- A database with one record for every address.
abbrev vienna : MmdbRecord
vienna = record {
  country_names = (str "en", str "Austria") ∷ [];
  city_names = (str "zh-CN", []) ∷ (str "en", str "Vienna") ∷ [];
}

abbrev everywhere : Mmdb
everywhere = record {
  Reader = Bool;
  open_file = λ path. some true;
  find = λ reader ip. some vienna;
  close_file = λ reader. true;
}

locate-Located_example :
    (is_internal (v4 198 51 100 7) ≡ false)
    × (is_link_local_unicast (v4 198 51 100 7) ≡ false)
    × (is_link_local_multicast (v4 198 51 100 7) ≡ false)
    × ((rec : MmdbRecord) × (everywhere.find true (v4 198 51 100 7) ≡ some rec)
        × Located rec (locate everywhere (some true) (some (v4 198 51 100 7))))
unfolding locate str_eq
locate-Located_example =
    locate-Located everywhere true (v4 198 51 100 7)
      (omega arith, omega arith, omega arith, omega arith) (λ e. cc)

-- ===== src/Handler/ClientIp.antt =====
-- internal/handler/handler.go: which address a request comes from, and when its proxy headers are
-- believed.
pub mod Trust
pub mod Proxy
use speedtest_go.Base.{
  ℕ, Bool, true, false, ◌||◌, Option, none, some, List, [], ◌∷◌, Str, is_empty, if◌then◌else◌,
}
use speedtest_go.Golang.HostPort.{split_host_port}
use speedtest_go.Golang.Trim.{trim_space, first_part}
use speedtest_go.Golang.Ip.{Ip, v4, v6, IpNet, net_contains, is_loopback}
use speedtest_go.Golang.Ip.Parse.{parse_ip}
use speedtest_go.Golang.Ip.Text.{ip_text}
use speedtest_go.Handler.Http.{Request}

-- "10.0.0.0/8", "172.16.0.0/12", "192.168.0.0/16" and "fc00::/7", as `init` parses them.
abbrev pub private_cidrs : List IpNet
private_cidrs =
    record { network = v4 10 0 0 0; ones = 8 }
    ∷ record { network = v4 172 16 0 0; ones = 12 }
    ∷ record { network = v4 192 168 0 0; ones = 16 }
    ∷ record { network = v6 (0xfc00 ∷ 0 ∷ 0 ∷ 0 ∷ 0 ∷ 0 ∷ 0 ∷ 0 ∷ []); ones = 7 }
    ∷ []

-- The loop over the networks.
any_contains : List IpNet → Ip → Bool
unfolding net_contains
any_contains [] ip = false
any_contains (net ∷ nets) ip = net_contains net ip || any_contains nets ip

unfoldable pub is_internal : Ip → Bool
unfolding any_contains is_loopback
is_internal ip = is_loopback ip || any_contains private_cidrs ip

unfoldable pub is_private_or_loopback : Str → Bool
unfolding is_internal parse_ip
is_private_or_loopback s = elim (parse_ip s) [ none ↦ false | some ip ↦ is_internal ip ]

-- The address text without its port, or the whole text where it has none.
unfoldable pub peer_host : Str → Str
unfolding split_host_port
peer_host remote_addr = elim (split_host_port remote_addr) [
  | none ↦ remote_addr
  | some (host, _) ↦ host
]

-- The address in its usual spelling, where a text is one.
unfoldable pub canonical : Str → Option Str
unfolding parse_ip ip_text
canonical s = elim (parse_ip s) [ none ↦ none | some ip ↦ some (ip_text ip) ]

-- What the header names, where it is present: the first entry of X-Forwarded-For, and the whole of
-- X-Real-Ip.
unfoldable pub forwarded_for : Request → Option Str
unfolding canonical trim_space first_part
forwarded_for r =
    let xff = r.header "X-Forwarded-For" in
    if is_empty xff then none else canonical (trim_space (first_part b',' xff))

unfoldable pub real_ip : Request → Option Str
unfolding canonical trim_space
real_ip r =
    let xri = r.header "X-Real-Ip" in if is_empty xri then none else canonical (trim_space xri)

unfoldable pub or_else : Option Str → Str → Str
or_else none s = s
or_else (some t) s = t

unfoldable pub client_ip : Request → Str
unfolding peer_host is_private_or_loopback forwarded_for real_ip or_else
client_ip r =
    let host = peer_host r.remote_addr in
    if is_private_or_loopback host
    then or_else (forwarded_for r) (or_else (real_ip r) host)
    else host

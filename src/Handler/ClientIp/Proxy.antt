-- ===== src/Handler/ClientIp/Proxy.antt =====
-- A request over IPv4, with and without a proxy in front.
use speedtest_go.Base.{ℕ, ◌≡◌, refl, false, some, ◌∷◌, ◌++◌, Str, if◌then◌else◌}
use speedtest_go.Golang.HostPort.{contains, split_host_port_plain, NoBracket, split_first-append}
use speedtest_go.Golang.Trim.{first_part}
use speedtest_go.Golang.Ip.{v4, IsValid}
use speedtest_go.Golang.Ip.Text.{ip_text}
use speedtest_go.Golang.Ip.Dotted.{
  IsForeign, contains-ip_text, trim_space-ip_text, is_empty-ip_text,
}
use speedtest_go.Golang.Ip.RoundTrip.{parse_ip-ip_text}
use speedtest_go.Handler.Http.{Request}
use speedtest_go.Handler.ClientIp.{
  is_internal, is_private_or_loopback, peer_host, canonical, forwarded_for, or_else, client_ip,
}

peer_host-v4 :
    (a b c d : ℕ) (port : Str)
    → IsValid (v4 a b c d)
    → NoBracket port
    → contains b':' port ≡ false
    → peer_host (ip_text (v4 a b c d) ++ b':' ∷ port) ≡ ip_text (v4 a b c d)
unfolding peer_host
peer_host-v4 a b c d port h p colon =
    let no = λ (k : ℕ) (f : IsForeign k). contains-ip_text k a b c d f h in
    rw
      (
        peer_host,
        split_host_port_plain (ip_text (v4 a b c d)) port
            (no b'[' (refl, refl), no b']' (refl, refl)) p (no b':' (refl, refl)) colon,
      )
      refl

is_private_or_loopback-v4 :
    (a b c d : ℕ)
    → IsValid (v4 a b c d)
    → is_private_or_loopback (ip_text (v4 a b c d)) ≡ is_internal (v4 a b c d)
unfolding is_private_or_loopback
is_private_or_loopback-v4 a b c d h = rw (is_private_or_loopback, parse_ip-ip_text a b c d h) refl

first_part-ip_text :
    (a b c d : ℕ) (rest : Str)
    → IsValid (v4 a b c d)
    → first_part b',' (ip_text (v4 a b c d) ++ b',' ∷ rest) ≡ ip_text (v4 a b c d)
unfolding first_part
first_part-ip_text a b c d rest h =
    rw
      (
        first_part,
        split_first-append b',' (ip_text (v4 a b c d)) rest
            (contains-ip_text b',' a b c d (refl, refl) h),
      )
      refl

canonical-ip_text :
    (a b c d : ℕ)
    → IsValid (v4 a b c d)
    → canonical (ip_text (v4 a b c d)) ≡ some (ip_text (v4 a b c d))
unfolding canonical
canonical-ip_text a b c d h = rw (canonical, parse_ip-ip_text a b c d h) refl

forwarded_for-ip_text :
    (r : Request) (a b c d : ℕ) (rest : Str)
    → IsValid (v4 a b c d)
    → r.header "X-Forwarded-For" ≡ ip_text (v4 a b c d) ++ b',' ∷ rest
    → forwarded_for r ≡ some (ip_text (v4 a b c d))
unfolding forwarded_for
forwarded_for-ip_text r a b c d rest h e =
    rw
      (
        forwarded_for,
        e,
        is_empty-ip_text a b c d (b',' ∷ rest) h,
        first_part-ip_text a b c d rest h,
        trim_space-ip_text a b c d h,
        canonical-ip_text a b c d h,
      )
      refl

-- A request comes from an IPv4 peer and carries a list of addresses in X-Forwarded-For that begins
-- with an IPv4 address. Its client address is the first of the list if the peer is internal, and
-- the peer itself otherwise; what follows in the list does not matter.
pub client_ip_lem :
    (r : Request) (a b c d w x y z : ℕ) (port rest : Str)
    → IsValid (v4 a b c d)
    → IsValid (v4 w x y z)
    → NoBracket port
    → contains b':' port ≡ false
    → r.remote_addr ≡ ip_text (v4 a b c d) ++ b':' ∷ port
    → r.header "X-Forwarded-For" ≡ ip_text (v4 w x y z) ++ b',' ∷ rest
    → client_ip r
      ≡ (if is_internal (v4 a b c d) then ip_text (v4 w x y z) else ip_text (v4 a b c d))
unfolding client_ip or_else
client_ip_lem r a b c d w x y z port rest hp hf p colon from list =
    rw
      (
        client_ip,
        from,
        peer_host-v4 a b c d port hp p colon,
        is_private_or_loopback-v4 a b c d hp,
        forwarded_for-ip_text r w x y z rest hf list,
      )
      refl

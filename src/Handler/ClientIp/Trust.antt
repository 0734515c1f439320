-- ===== src/Handler/ClientIp/Trust.antt =====
-- When the headers of a request are believed, and what then comes out.
use speedtest_go.Base.{
  ◌≤◌, ◌≡◌, refl, sym, ap, ◌⊎◌, ◌↔◌, inl, inr, Bool, true, false, ◌||◌, Option, none, some,
  if◌then◌else◌, [], ◌∷◌, Str, is_empty, arith, get_or, Option-cases, Bool-cases,
}
use mathlib.Core.Bool.{false≢true}
use mathlib.Core.Option.{some-injective, none-ne-some}
use speedtest_go.Golang.Trim.{trim_space, first_part}
use speedtest_go.Golang.Ip.{Ip, v4, v6, IsValid, is_loopback, is_private}
use speedtest_go.Golang.Ip.Ranges.{private_lem, is_loopback-v6, is_private-v6}
use speedtest_go.Golang.Ip.Parse.{parse_ip}
use speedtest_go.Golang.Ip.Text.{ip_text}
use speedtest_go.Handler.Http.{Request}
use speedtest_go.Handler.ClientIp.{
  is_internal, is_private_or_loopback, peer_host, canonical, forwarded_for, real_ip, or_else,
  client_ip,
}

-- The trusted ranges, in numbers.
abbrev pub Trusted : Ip → Type 0
Trusted (v4 a b c d) =
    (a ≡ 127) ⊎ (a ≡ 10) ⊎ ((a ≡ 172) × (16 ≤ b) × (b ≤ 31)) ⊎ ((a ≡ 192) × (b ≡ 168))
Trusted (v6 groups) =
    (groups ≡ 0 ∷ 0 ∷ 0 ∷ 0 ∷ 0 ∷ 0 ∷ 0 ∷ 1 ∷ [])
    ⊎ ((0xfc00 ≤ get_or groups 0 0) × (get_or groups 0 0 ≤ 0xfdff))

pub is_internal_ranges : (ip : Ip) → IsValid ip → is_internal ip ≡ (is_loopback ip || is_private ip)
unfolding is_internal
is_internal_ranges ip h = ap (λ b. is_loopback ip || b) (private_lem ip h)

or_iff : (a b : Bool) {P Q : Type 0} → (a ≡ true) ↔ P → (b ≡ true) ↔ Q → ((a || b) ≡ true) ↔ (P ⊎ Q)
or_iff true b p q = (λ h. inl (p.0 refl), λ h. refl)
or_iff false b p q =
    (λ h. inr (q.0 h), λ h. elim h [ inl x ↦ absurd (false≢true (p.1 x)) | inr y ↦ q.1 y ])

-- An address counts as internal exactly when it lies in 127/8, 10/8, 172.16/12, 192.168/16 or
-- fc00::/7, or is ::1.
pub is_internal-Trusted : (ip : Ip) → IsValid ip → (is_internal ip ≡ true) ↔ Trusted ip
unfolding is_loopback is_private
is_internal-Trusted (v4 a b c d) h = rw (is_internal_ranges (v4 a b c d) h) (ground arith)
is_internal-Trusted (v6 []) h = absurd (omega (arith, h.0))
is_internal-Trusted (v6 (g ∷ groups)) h =
    rw (is_internal_ranges (v6 (g ∷ groups)) h)
      (or_iff _ _ (is_loopback-v6 (g ∷ groups) h.0) (is_private-v6 g groups))

-- A peer outside those ranges is the client, whatever the headers say: requests from the same peer
-- that differ in nothing else are told apart by no header.
client_ip-untrusted :
    (r s : Request)
    → r.remote_addr ≡ s.remote_addr
    → is_private_or_loopback (peer_host r.remote_addr) ≡ false
    → (client_ip r ≡ peer_host r.remote_addr) × (client_ip s ≡ client_ip r)
unfolding client_ip
client_ip-untrusted r s same outside =
    let mine : client_ip r ≡ peer_host r.remote_addr = rw (client_ip, outside) in
    (mine, rw (client_ip, ← same, outside))

-- A text that names the address.
abbrev pub Names : Str → Str → Type 0
Names text printed = (ip : Ip) × (parse_ip text ≡ some ip) × (printed ≡ ip_text ip)

-- A text that names no address.
abbrev pub IsNameless : Str → Type 0
IsNameless text = parse_ip text ≡ none

abbrev pub first_hop : Request → Str
first_hop r = trim_space (first_part b',' (r.header "X-Forwarded-For"))

abbrev pub real : Request → Str
real r = trim_space (r.header "X-Real-Ip")

-- Where the client's address comes from: from the peer if it is not trusted, and else from the first
-- of the two headers that names an address, or from the peer if neither does.
pub data Chosen (r : Request) : Str → Type 0 where
  by_peer :
      is_private_or_loopback (peer_host r.remote_addr) ≡ false → Chosen r (peer_host r.remote_addr)
  by_hop :
      {t : Str}
      → is_private_or_loopback (peer_host r.remote_addr) ≡ true
      → Names (first_hop r) t
      → Chosen r t
  by_real :
      {t : Str}
      → is_private_or_loopback (peer_host r.remote_addr) ≡ true
      → IsNameless (first_hop r)
      → Names (real r) t
      → Chosen r t
  by_neither :
      is_private_or_loopback (peer_host r.remote_addr) ≡ true
      → IsNameless (first_hop r)
      → IsNameless (real r)
      → Chosen r (peer_host r.remote_addr)

canonical-Names : (s t : Str) → canonical s ≡ some t → Names s t
unfolding canonical
canonical-Names s t h = elim (Option-cases (parse_ip s)) [
  | inl bad ↦ absurd (none-ne-some t (rw (bad, canonical) at h))
  | inr (ip, good) ↦ (ip, good, sym (some-injective _ _ (rw (good, canonical) at h)))
]

canonical-IsNameless : (s : Str) → canonical s ≡ none → IsNameless s
unfolding canonical
canonical-IsNameless s h = elim (Option-cases (parse_ip s)) [
  | inl bad ↦ bad
  | inr (ip, good) ↦ absurd (none-ne-some _ (sym (rw (good, canonical) at h)))
]

-- A header that is read is canonical, and one that is missing names nothing.
header_lem :
    (value text : Str) (o : Option Str)
    → (is_empty value ≡ true → IsNameless text)
    → (if is_empty value then none else canonical text) ≡ o
    → (canonical text ≡ o) ⊎ ((o ≡ none) × IsNameless text)
header_lem value text o missing e = elim (Bool-cases (is_empty value)) [
  | inl absent ↦ inr (sym (rw absent at e), missing absent)
  | inr present ↦ inl (rw present at e)
]

hop_missing :
    (r : Request) → is_empty (r.header "X-Forwarded-For") ≡ true → IsNameless (first_hop r)
unfolding parse_ip trim_space first_part
hop_missing r h = by_text (r.header "X-Forwarded-For") h
  where
    by_text : (v : Str) → is_empty v ≡ true → IsNameless (trim_space (first_part b',' v))
    by_text [] e = refl
    by_text (c ∷ v) e = absurd (false≢true e)

real_missing : (r : Request) → is_empty (r.header "X-Real-Ip") ≡ true → IsNameless (real r)
unfolding parse_ip trim_space
real_missing r h = by_text (r.header "X-Real-Ip") h
  where
    by_text : (v : Str) → is_empty v ≡ true → IsNameless (trim_space v)
    by_text [] e = refl
    by_text (c ∷ v) e = absurd (false≢true e)

-- A header's outcome: the address that it names, printed, or none.
Outcome : Str → Option Str → Type 0
Outcome text none = IsNameless text
Outcome text (some t) = Names text t

read_Outcome :
    (value text : Str)
    → (is_empty value ≡ true → IsNameless text)
    → (o : Option Str) → (if is_empty value then none else canonical text) ≡ o
    → Outcome text o
unfolding Outcome
read_Outcome value text missing none e = elim (header_lem value text none missing e) [
  | inl same ↦ canonical-IsNameless text same
  | inr (gone, nameless) ↦ nameless
]
read_Outcome value text missing (some t) e = elim (header_lem value text (some t) missing e) [
  | inl same ↦ canonical-Names text t same
  | inr (gone, nameless) ↦ absurd (none-ne-some t (sym gone))
]

-- A peer that is not trusted is the client, whatever the headers say. Behind a trusted peer the client
-- is the address that the first entry of X-Forwarded-For names, or else the one that X-Real-Ip names,
-- printed as `net.IP` prints it, or else the peer.
pub client_ip-Chosen : (r : Request) → Chosen r (client_ip r)
unfolding client_ip or_else forwarded_for real_ip Outcome
client_ip-Chosen r = elim (Bool-cases (is_private_or_loopback (peer_host r.remote_addr))) [
  | inr outside ↦ rw (client_ip, outside) (by_peer outside)
  | inl inside ↦ by_hops inside (forwarded_for r) refl (real_ip r) refl
]
  where
    choose :
        is_private_or_loopback (peer_host r.remote_addr) ≡ true
        → (hop header : Option Str) → Outcome (first_hop r) hop
        → Outcome (real r) header
        → Chosen r (or_else hop (or_else header (peer_host r.remote_addr)))
    choose inside (some t) header near far = by_hop inside near
    choose inside none (some t) near far = by_real inside near far
    choose inside none none near far = by_neither inside near far

    by_hops :
        is_private_or_loopback (peer_host r.remote_addr) ≡ true
        → (hop : Option Str) → forwarded_for r ≡ hop
        → (header : Option Str) → real_ip r ≡ header
        → Chosen r (client_ip r)
    by_hops inside hop e header f =
        let near = read_Outcome (r.header "X-Forwarded-For") (first_hop r) (hop_missing r) hop e in
        let far = read_Outcome (r.header "X-Real-Ip") (real r) (real_missing r) header f in
        rw (client_ip, inside, e, f) (choose inside hop header near far)

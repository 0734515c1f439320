-- ===== src/Golang/Ip.antt =====
-- Package net: an address, its text and its reading are those of `net.IP`, `IP.String` and
-- `ParseIP`. This file has the addresses, the ranges that the package names, and networks.
pub mod Text
pub mod Parse
pub mod Ranges
pub mod Dotted
pub mod RoundTrip
use speedtest_go.Base.{
  ℕ, ◌+◌, ◌-◌, ◌*◌, ◌/◌, ◌%◌, ◌^◌, ◌<◌, ◌≡◌, Bool, true, false, ◌&&◌, ◌||◌, List, [], ◌∷◌,
  if◌then◌else◌, ◌==◌, leb, length,
}

-- The 16 bytes of an address. One that `To4` accepts, an IPv4-mapped one, is given by its four
-- bytes; any other by its eight groups of 16 bits.
pub data Ip : Type 0 where
  v4 : (a b c d : ℕ) → Ip
  v6 : List ℕ → Ip

abbrev pub AllBelow : ℕ → List ℕ → Type 0
AllBelow n [] = Unit {0}
AllBelow n (x ∷ xs) = (x < n) × AllBelow n xs

-- Which groups are those of an IPv4-mapped address.
unfoldable pub is_mapped : List ℕ → Bool
is_mapped (g0 ∷ g1 ∷ g2 ∷ g3 ∷ g4 ∷ g5 ∷ g6 ∷ g7 ∷ []) =
    g0 == 0 && g1 == 0 && g2 == 0 && g3 == 0 && g4 == 0 && g5 == 0xffff
is_mapped other = false

-- The address of eight groups.
unfoldable pub of_groups : List ℕ → Ip
unfolding is_mapped
of_groups (g0 ∷ g1 ∷ g2 ∷ g3 ∷ g4 ∷ g5 ∷ g6 ∷ g7 ∷ []) =
    if is_mapped (g0 ∷ g1 ∷ g2 ∷ g3 ∷ g4 ∷ g5 ∷ g6 ∷ g7 ∷ [])
    then v4 (g6 / 256) (g6 % 256) (g7 / 256) (g7 % 256)
    else v6 (g0 ∷ g1 ∷ g2 ∷ g3 ∷ g4 ∷ g5 ∷ g6 ∷ g7 ∷ [])
of_groups other = v6 other

-- An address that 16 bytes can hold.
abbrev pub IsValid : Ip → Type 0
IsValid (v4 a b c d) = (a < 256) × (b < 256) × (c < 256) × (d < 256)
IsValid (v6 groups) = (length groups ≡ 8) × AllBelow (2 ^ 16) groups × (is_mapped groups ≡ false)

group_bytes : List ℕ → List ℕ
group_bytes [] = []
group_bytes (g ∷ groups) = g / 256 ∷ g % 256 ∷ group_bytes groups

-- The four or sixteen bytes.
unfoldable pub bytes : Ip → List ℕ
unfolding group_bytes
bytes (v4 a b c d) = a ∷ b ∷ c ∷ d ∷ []
bytes (v6 groups) = group_bytes groups

all_zero : List ℕ → Bool
all_zero [] = true
all_zero (x ∷ xs) = x == 0 && all_zero xs

is_one : List ℕ → Bool
unfolding all_zero
is_one [] = false
is_one (x ∷ []) = x == 1
is_one (x ∷ y ∷ xs) = x == 0 && is_one (y ∷ xs)

-- `IP.IsLoopback`: 127.0.0.0/8 and ::1
unfoldable pub is_loopback : Ip → Bool
unfolding is_one
is_loopback (v4 a b c d) = a == 127
is_loopback (v6 groups) = is_one groups

-- The first two bytes of a longer address.
on_head : (ℕ → ℕ → Bool) → List ℕ → Bool
on_head test [] = false
on_head test (x ∷ []) = false
on_head test (x ∷ y ∷ s) = test x y

-- `IP.IsPrivate`: 10/8, 172.16/12, 192.168/16 and fc00::/7
unfoldable pub is_private : Ip → Bool
unfolding on_head group_bytes
is_private (v4 a b c d) = a == 10 || (a == 172 && b / 16 == 1) || (a == 192 && b == 168)
is_private (v6 groups) = on_head (λ x y. x / 2 == 0xfc / 2) (group_bytes groups)

-- `IP.IsLinkLocalUnicast`: 169.254/16 and fe80::/10
unfoldable pub is_link_local_unicast : Ip → Bool
unfolding on_head group_bytes
is_link_local_unicast (v4 a b c d) = a == 169 && b == 254
is_link_local_unicast (v6 groups) =
    on_head (λ x y. x == 0xfe && y / 64 == 0x80 / 64) (group_bytes groups)

-- `IP.IsLinkLocalMulticast`: 224.0.0/24 and ffx2::/16
unfoldable pub is_link_local_multicast : Ip → Bool
unfolding on_head group_bytes
is_link_local_multicast (v4 a b c d) = a == 224 && b == 0 && c == 0
is_link_local_multicast (v6 groups) = on_head (λ x y. x == 0xff && y % 16 == 2) (group_bytes groups)

-- `net.IPNet`, with the number of ones in its mask.
pub record IpNet : Type 0 where
  pub network : Ip
  pub ones : ℕ

-- The bytes agree on their first `ones` bits.
same_prefix : ℕ → List ℕ → List ℕ → Bool
same_prefix ones [] [] = true
same_prefix ones [] (y ∷ ys) = false
same_prefix ones (x ∷ xs) [] = false
same_prefix ones (x ∷ xs) (y ∷ ys) =
    (if leb 8 ones then x == y else x / 2 ^ (8 - ones) == y / 2 ^ (8 - ones))
    && same_prefix (ones - 8) xs ys

-- `IPNet.Contains`, where an address of the other length is outside.
unfoldable pub net_contains : IpNet → Ip → Bool
unfolding same_prefix bytes
net_contains net ip = same_prefix net.ones (bytes net.network) (bytes ip)

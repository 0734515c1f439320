-- ===== src/Golang/Ip/Ranges.antt =====
-- `IPNet.Contains` on the private ranges says the same as `IP.IsPrivate`.
use speedtest_go.Base.{
  ℕ, suc, ◌-◌, ◌*◌, ◌/◌, ◌^◌, ◌≤◌, ◌↔◌, ◌≢◌, ◌≡◌, refl, ap, true, false, ◌&&◌, ◌||◌, List, [], ◌∷◌,
  ◌==◌, length, arith,
}
use speedtest_go.Golang.Ip.{
  Ip, v4, v6, IsValid, AllBelow, IpNet, net_contains, group_bytes, same_prefix, is_private,
  is_loopback,
}

same_prefix_end :
    (xs ys : List ℕ)
    → length xs ≡ length ys
    → AllBelow 256 xs
    → AllBelow 256 ys
    → same_prefix 0 xs ys ≡ true
unfolding same_prefix
same_prefix_end [] [] e hx hy = refl
same_prefix_end [] (y ∷ ys) e hx hy = ground arith
same_prefix_end (x ∷ xs) [] e hx hy = ground arith
same_prefix_end (x ∷ xs) (y ∷ ys) e (hx, hxs) (hy, hys) =
    let zx : x / 256 ≡ 0 = omega arith in
    let zy : y / 256 ≡ 0 = omega arith in rw (zx, zy) (same_prefix_end xs ys (omega arith) hxs hys)

same_prefix-lengths :
    (ones : ℕ) (xs ys : List ℕ) → length xs ≢ length ys → same_prefix ones xs ys ≡ false
unfolding same_prefix
same_prefix-lengths ones [] [] h = absurd (h refl)
same_prefix-lengths ones [] (y ∷ ys) h = refl
same_prefix-lengths ones (x ∷ xs) [] h = refl
same_prefix-lengths ones (x ∷ xs) (y ∷ ys) h =
    rw (same_prefix-lengths (ones - 8) xs ys (λ e. h (ap suc e))) (ground arith)

length-group_bytes : (groups : List ℕ) → length (group_bytes groups) ≡ 2 * length groups
unfolding group_bytes
length-group_bytes [] = omega arith
length-group_bytes (g ∷ groups) = omega (arith, length-group_bytes groups)

group_bytes-AllBelow :
    (groups : List ℕ) → AllBelow (2 ^ 16) groups → AllBelow 256 (group_bytes groups)
unfolding group_bytes
group_bytes-AllBelow [] h = tt
group_bytes-AllBelow (g ∷ groups) (h, hs) =
    (omega arith, (omega arith, group_bytes-AllBelow groups hs))

contains_8 :
    (n a b c d : ℕ)
    → IsValid (v4 a b c d)
    → net_contains (record { network = v4 n 0 0 0; ones = 8 }) (v4 a b c d) ≡ (n == a)
unfolding net_contains
contains_8 n a b c d h = ground arith

contains_12 :
    (n a b c d : ℕ)
    → IsValid (v4 a b c d)
    → net_contains (record { network = v4 n 16 0 0; ones = 12 }) (v4 a b c d)
      ≡ (n == a && 1 == b / 16)
unfolding net_contains
contains_12 n a b c d h = ground arith

contains_16 :
    (n m a b c d : ℕ)
    → IsValid (v4 a b c d)
    → net_contains (record { network = v4 n m 0 0; ones = 16 }) (v4 a b c d) ≡ (n == a && m == b)
unfolding net_contains
contains_16 n m a b c d h = ground arith

abbrev pub unique_local : IpNet
unique_local = record { network = v6 (0xfc00 ∷ 0 ∷ 0 ∷ 0 ∷ 0 ∷ 0 ∷ 0 ∷ 0 ∷ []); ones = 7 }

contains_7-v4 : (a b c d : ℕ) → net_contains unique_local (v4 a b c d) ≡ false
unfolding net_contains group_bytes
contains_7-v4 a b c d = ground arith

contains_7 :
    (g : ℕ) (groups : List ℕ)
    → IsValid (v6 (g ∷ groups))
    → net_contains unique_local (v6 (g ∷ groups)) ≡ (126 == g / 256 / 2)
unfolding net_contains group_bytes same_prefix
contains_7 g groups (len, (hg, below), mapped) =
    let rest =
      same_prefix_end (group_bytes (0 ∷ 0 ∷ 0 ∷ 0 ∷ 0 ∷ 0 ∷ 0 ∷ [])) (group_bytes groups)
        (omega (arith, length-group_bytes groups))
        (
          omega arith,
          (
            omega arith,
            (
              omega arith,
              (
                omega arith,
                (
                  omega arith,
                  (
                    omega arith,
                    (
                      omega arith,
                      (
                        omega arith,
                        (
                          omega arith,
                          (
                            omega arith,
                            (omega arith, (omega arith, (omega arith, (omega arith, tt)))),
                          ),
                        ),
                      ),
                    ),
                  ),
                ),
              ),
            ),
          ),
        )
        (group_bytes-AllBelow groups below) in
    rw rest (ground arith)

-- An IPv4 network holds no longer address.
contains-v6 :
    (a b c d ones : ℕ) (groups : List ℕ)
    → length groups ≡ 8
    → net_contains (record { network = v4 a b c d; ones = ones }) (v6 groups) ≡ false
unfolding net_contains
contains-v6 a b c d ones groups h =
    same_prefix-lengths ones (a ∷ b ∷ c ∷ d ∷ []) (group_bytes groups)
      (λ e. absurd (omega (arith, length-group_bytes groups)))

-- The four private networks together are the addresses that the package calls private.
pub private_lem :
    (ip : Ip)
    → IsValid ip
    → (net_contains (record { network = v4 10 0 0 0; ones = 8 }) ip
        || (net_contains (record { network = v4 172 16 0 0; ones = 12 }) ip
            || (net_contains (record { network = v4 192 168 0 0; ones = 16 }) ip
                || (net_contains unique_local ip || false))))
      ≡ is_private ip
unfolding is_private group_bytes
private_lem (v4 a b c d) h =
    rw
      (
        contains_8 10 a b c d h,
        contains_12 172 a b c d h,
        contains_16 192 168 a b c d h,
        contains_7-v4 a b c d,
      )
      (ground arith)
private_lem (v6 []) h = absurd (omega (arith, h.0))
private_lem (v6 (g ∷ groups)) h =
    rw
      (
        contains-v6 10 0 0 0 8 (g ∷ groups) h.0,
        contains-v6 172 16 0 0 12 (g ∷ groups) h.0,
        contains-v6 192 168 0 0 16 (g ∷ groups) h.0,
        contains_7 g groups h,
      )
      (ground arith)

-- The one long loopback address.
pub is_loopback-v6 :
    (groups : List ℕ)
    → length groups ≡ 8
    → (is_loopback (v6 groups) ≡ true) ↔ (groups ≡ 0 ∷ 0 ∷ 0 ∷ 0 ∷ 0 ∷ 0 ∷ 0 ∷ 1 ∷ [])
unfolding is_loopback
is_loopback-v6 (a ∷ b ∷ c ∷ d ∷ e ∷ f ∷ g ∷ h ∷ []) len = ground arith
is_loopback-v6 _ len = absurd (omega arith)

pub is_private-v6 :
    (g : ℕ) (groups : List ℕ)
    → (is_private (v6 (g ∷ groups)) ≡ true) ↔ ((0xfc00 ≤ g) × (g ≤ 0xfdff))
unfolding is_private group_bytes
is_private-v6 g groups = ground arith

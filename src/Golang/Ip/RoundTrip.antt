-- ===== src/Golang/Ip/RoundTrip.antt =====
-- An IPv4 address is read back from its text.
use speedtest_go.Base.{
  ℕ, ◌+◌, ◌-◌, ◌*◌, ◌/◌, ◌%◌, ◌<◌, ◌≡◌, refl, sym, ap, ◌∙◌, Bool, true, false, ◌&&◌, ◌||◌, some, [],
  ◌∷◌, ◌++◌, Str, is_empty, ◌==◌, ltb, arith, Bool-cases, inl, inr, append-nil,
}
use speedtest_go.Golang.HostPort.{contains}
use speedtest_go.Golang.Strconv.{is_digit, itoa_ℕ, itoa_ℕ-byte}
use speedtest_go.Golang.Ip.{v4, IsValid}
use speedtest_go.Golang.Ip.Text.{ip_text}
use speedtest_go.Golang.Ip.Parse.{ipv4_fields, cons_field, four, parse_ipv4, by_separator, parse_ip}
use speedtest_go.Golang.Ip.Dotted.{
  past_byte, contains-dotted, dotted_2, dotted_3, dotted, is_empty-byte, ip_text-dotted,
}

abbrev refused : (val dig_len d : ℕ) → Bool
refused val dig_len d = (dig_len == 1 && val == 0) || ltb 255 (val * 10 + d)

ipv4_fields-digit :
    (done val dig_len d val' dig_len' : ℕ) (s : Str)
    → d < 10
    → refused val dig_len d ≡ false
    → val' ≡ val * 10 + d
    → dig_len' ≡ dig_len + 1
    → ipv4_fields done val dig_len ((d + b'0') ∷ s) ≡ ipv4_fields done val' dig_len' s
unfolding ipv4_fields
ipv4_fields-digit done val dig_len d val' dig_len' s h ok v l =
    let digit : is_digit (d + b'0') ≡ true = ground arith in
    let same : d + b'0' - b'0' ≡ d = omega arith in rw (v, l) (rw (ipv4_fields, digit, same, ok))

ipv4_fields-dot :
    (done val dig_len : ℕ) (s : Str)
    → 0 < dig_len
    → done < 3
    → is_empty s ≡ false
    → ipv4_fields done val dig_len (b'.' ∷ s) ≡ cons_field val (ipv4_fields (done + 1) 0 0 s)
unfolding ipv4_fields
ipv4_fields-dot done val dig_len s h d e = ground arith

-- What the scan has read after the text of a byte.
ipv4_fields-byte :
    (done n : ℕ) (s : Str)
    → n < 256
    → (dig : ℕ) × (0 < dig) × (ipv4_fields done 0 0 (itoa_ℕ n ++ s) ≡ ipv4_fields done n dig s)
ipv4_fields-byte done n s h = rw (itoa_ℕ-byte n h) (elim (Bool-cases (ltb n 10)) [
  | inl one ↦ rw one (
    1,
    omega arith,
    ipv4_fields-digit done 0 0 n n 1 s (ground arith) (ground arith) (omega arith) (omega arith),
  )
  | inr more ↦ elim (Bool-cases (ltb n 100)) [
    | inl two ↦
        rw (more, two)
          (
            2,
            omega arith,
            ipv4_fields-digit done 0 0 (n / 10) (n / 10) 1 _ (ground arith) (ground arith)
                  (omega arith) (omega arith)
                ∙ ipv4_fields-digit done (n / 10) 1 (n % 10) n 2 s (omega arith) (ground arith)
                    (omega arith) (omega arith),
          )
    | inr three ↦
        rw (more, three)
          (
            3,
            omega arith,
            ipv4_fields-digit done 0 0 (n / 100) (n / 100) 1 _ (omega arith) (ground arith)
                  (omega arith) (omega arith)
                ∙ ipv4_fields-digit done (n / 100) 1 (n / 10 % 10) (n / 10) 2 _ (omega arith)
                    (ground arith) (omega arith) (omega arith)
                ∙ ipv4_fields-digit done (n / 10) 2 (n % 10) n 3 s (omega arith) (ground arith)
                    (omega arith) (omega arith),
          )
  ]
])

ipv4_fields-next :
    (done n : ℕ) (s : Str)
    → n < 256
    → done < 3
    → is_empty s ≡ false
    → ipv4_fields done 0 0 (itoa_ℕ n ++ b'.' ∷ s) ≡ cons_field n (ipv4_fields (done + 1) 0 0 s)
ipv4_fields-next done n s h d e =
    let (dig, some_digit, read) = ipv4_fields-byte done n (b'.' ∷ s) h in
    read ∙ ipv4_fields-dot done n dig s some_digit d e

ipv4_fields-last : (n : ℕ) → n < 256 → ipv4_fields 3 0 0 (itoa_ℕ n) ≡ some (n ∷ [])
unfolding ipv4_fields
ipv4_fields-last n h =
    let (dig, some_digit, read) = ipv4_fields-byte 3 n [] h in rw append-nil at read

by_separator-digit :
    (whole : Str) (d : ℕ) (s : Str)
    → d < 10
    → by_separator whole ((d + b'0') ∷ s) ≡ by_separator whole s
unfolding by_separator
by_separator-digit whole d s h = ground arith

parse_ipv4-dotted :
    (a b c d : ℕ) → IsValid (v4 a b c d) → parse_ipv4 (dotted a b c d) ≡ some (v4 a b c d)
unfolding parse_ipv4 four
parse_ipv4-dotted a b c d (ha, hb, hc, hd) =
    let e3 =
      ipv4_fields-next 2 c (itoa_ℕ d) hc (omega arith)
        (ap is_empty (sym (append-nil (itoa_ℕ d))) ∙ is_empty-byte d [] hd) in
    let e2 =
      ipv4_fields-next 1 b (dotted_2 c d) hb (omega arith) (is_empty-byte c (b'.' ∷ itoa_ℕ d) hc) in
    let e1 =
      ipv4_fields-next 0 a (dotted_3 b c d) ha (omega arith)
        (is_empty-byte b (b'.' ∷ dotted_2 c d) hb) in
    rw (e1, four) (rw (e2, four) (rw (e3, four) (rw (ipv4_fields-last d hd, four) refl)))

by_separator-dotted :
    (whole : Str) (a b c d : ℕ) → a < 256 → by_separator whole (dotted a b c d) ≡ parse_ipv4 whole
unfolding by_separator
by_separator-dotted whole a b c d h =
    past_byte (by_separator whole) (by_separator-digit whole) a (b'.' ∷ dotted_3 b c d) h

parse_ip_unmarked : (s : Str) → contains b'%' s ≡ false → parse_ip s ≡ by_separator s s
unfolding parse_ip
parse_ip_unmarked s h = rw (parse_ip, h)

-- An IPv4 address is read back from the text that is printed for it.
pub parse_ip-ip_text :
    (a b c d : ℕ) → IsValid (v4 a b c d) → parse_ip (ip_text (v4 a b c d)) ≡ some (v4 a b c d)
parse_ip-ip_text a b c d h =
    ap parse_ip (ip_text-dotted a b c d)
    ∙ parse_ip_unmarked (dotted a b c d) (contains-dotted b'%' a b c d (refl, refl) h)
    ∙ by_separator-dotted (dotted a b c d) a b c d h.0
    ∙ parse_ipv4-dotted a b c d h

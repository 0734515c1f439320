-- ===== src/Golang/Ip/Parse.antt =====
-- `ParseIP`, by the loops of `netip.ParseAddr`.
use speedtest_go.Base.{
  ℕ, zero, suc, ◌+◌, ◌-◌, ◌*◌, ◌≡◌, refl, Bool, true, false, ◌&&◌, ◌||◌, Option, none, some, List,
  [], ◌∷◌, ◌++◌, Str, str, is_empty, if◌then◌else◌, ◌==◌, ltb, leb, replicate,
}
use speedtest_go.Golang.HostPort.{contains}
use speedtest_go.Golang.Strconv.{is_digit}
use speedtest_go.Golang.Ip.{Ip, v4, v6, of_groups}

abbrev pub cons_field : ℕ → Option (List ℕ) → Option (List ℕ)
cons_field val none = none
cons_field val (some fields) = some (val ∷ fields)

-- The decimal fields, each up to 255 with no zero in front: `done` of them are read, and
-- `dig_len` digits of the next, which are worth `val`.
unfoldable pub ipv4_fields : (done val dig_len : ℕ) → Str → Option (List ℕ)
ipv4_fields done val dig_len [] = if ltb done 3 then none else some (val ∷ [])
ipv4_fields done val dig_len (c ∷ s) = elim (is_digit c) [
  | true ↦
      let rest = ipv4_fields done (val * 10 + (c - b'0')) (dig_len + 1) s in
      if (dig_len == 1 && val == 0) || ltb 255 (val * 10 + (c - b'0')) then none else rest
  | false ↦
      let rest = cons_field val (ipv4_fields (done + 1) 0 0 s) in
      if c == b'.' then if dig_len == 0 || is_empty s || done == 3 then none else rest else none
]

-- Exactly four fields come out.
unfoldable pub four : Option (List ℕ) → Option Ip
four none = none
four (some []) = none
four (some (a ∷ [])) = none
four (some (a ∷ b ∷ [])) = none
four (some (a ∷ b ∷ c ∷ [])) = none
four (some (a ∷ b ∷ c ∷ d ∷ [])) = some (v4 a b c d)
four (some (a ∷ b ∷ c ∷ d ∷ e ∷ rest)) = none

unfoldable pub parse_ipv4 : Str → Option Ip
unfolding four ipv4_fields
parse_ipv4 s = four (ipv4_fields 0 0 0 s)

unfoldable pub hex_digit : ℕ → Option ℕ
hex_digit c =
    if is_digit c
    then some (c - b'0')
    else if leb b'a' c && leb c b'f'
    then some (c - b'a' + 10)
    else if leb b'A' c && leb c b'F'
    then some (c - b'A' + 10)
    else none

-- A group of hexadecimal digits: none if there are more than four, and else its value, the number
-- of digits, and what follows.
unfoldable pub hex_group : (acc off : ℕ) → Str → Option (ℕ × ℕ × Str)
unfolding hex_digit
hex_group acc off [] = some (acc, off, [])
hex_group acc off (c ∷ s) = elim (hex_digit c) [
  | none ↦ some (acc, off, c ∷ s)
  | some d ↦ let rest = hex_group (acc * 16 + d) (off + 1) s in if ltb 3 off then none else rest
]

-- The groups before the ellipsis, and those after it where there is one.
pub record Groups : Type 0 where
  pub before : List ℕ
  pub after : Option (List ℕ)

unfoldable pub push : Groups → List ℕ → Groups
push gs more = elim gs.after [
  | none ↦ record gs { before = gs.before ++ more }
  | some after ↦ record gs { after = some (after ++ more) }
]

-- The whole text is used; `room` groups are missing, for which the ellipsis stands.
unfoldable pub finish : (room : ℕ) → Groups → Option (List ℕ)
finish zero gs = elim gs.after [ none ↦ some gs.before | some after ↦ none ]
finish (suc room) gs = elim gs.after [
  | none ↦ none
  | some after ↦ some (gs.before ++ replicate (suc room) 0 ++ after)
]

-- A dotted tail stands for the last two groups, or for two groups after an ellipsis.
dotted_tail : (room : ℕ) → Groups → Option (List ℕ) → Option (List ℕ)
unfolding push finish
dotted_tail zero gs fields = none
dotted_tail (suc zero) gs fields = none
dotted_tail (suc (suc room)) gs none = none
dotted_tail (suc (suc room)) gs (some (a ∷ b ∷ c ∷ d ∷ [])) = elim gs.after [
  | none ↦ if room == 0 then finish room (push gs ((a * 256 + b) ∷ (c * 256 + d) ∷ [])) else none
  | some _ ↦ finish room (push gs ((a * 256 + b) ∷ (c * 256 + d) ∷ []))
]
dotted_tail (suc (suc room)) gs (some other) = none

-- The loop over the groups, with room for `room` of them; it ends with nothing left of the text.
unfoldable pub ipv6_loop : (room : ℕ) → Groups → Str → Option (List ℕ)
unfolding hex_group push finish dotted_tail ipv4_fields
ipv6_loop zero gs s = if is_empty s then finish zero gs else none
ipv6_loop (suc room) gs s = elim (hex_group 0 0 s) [
  | none ↦ none
  | some (acc, zero, rest) ↦ none
  | some (acc, suc off, []) ↦ finish room (push gs (acc ∷ []))
  | some (acc, suc off, c ∷ t) ↦
      if c == b'.'
      then dotted_tail (suc room) gs (ipv4_fields 0 0 0 s)
      else if c == b':'
      then elim t [
        | [] ↦ none
        | d ∷ u ↦ elim (d == b':') [
          | false ↦ ipv6_loop room (push gs (acc ∷ [])) (d ∷ u)
          | true ↦ elim gs.after [
            | some _ ↦ none
            | none ↦
                let gs' : Groups = record { before = gs.before ++ acc ∷ []; after = some [] } in
                elim u [ [] ↦ finish room gs' | e ∷ v ↦ ipv6_loop room gs' (e ∷ v) ]
          ]
        ]
      ]
      else none
]

-- An ellipsis may stand in front.
unfoldable pub ipv6_groups : Str → Option (List ℕ)
unfolding ipv6_loop
ipv6_groups s =
    if starts_ellipsis s
    then (if is_empty (after_ellipsis s)
        then some (replicate 8 0)
        else ipv6_loop 8 (record { before = []; after = some [] }) (after_ellipsis s))
    else ipv6_loop 8 (record { before = []; after = none }) s
  where
    starts_ellipsis : Str → Bool
    starts_ellipsis [] = false
    starts_ellipsis (a ∷ []) = false
    starts_ellipsis (a ∷ b ∷ s) = a == b':' && b == b':'

    after_ellipsis : Str → Str
    after_ellipsis [] = []
    after_ellipsis (a ∷ []) = []
    after_ellipsis (a ∷ b ∷ s) = s

unfoldable pub parse_ipv6 : Str → Option Ip
unfolding ipv6_groups of_groups
parse_ipv6 s = elim (ipv6_groups s) [ none ↦ none | some groups ↦ some (of_groups groups) ]

-- The first dot or colon decides.
unfoldable pub by_separator : Str → Str → Option Ip
unfolding parse_ipv4 parse_ipv6
by_separator whole [] = none
by_separator whole (c ∷ s) =
    let rest = by_separator whole s in
    if c == b'.' then parse_ipv4 whole else if c == b':' then parse_ipv6 whole else rest

-- None of the texts with a zone is accepted.
unfoldable pub parse_ip : Str → Option Ip
unfolding by_separator contains
parse_ip s = if contains b'%' s then none else by_separator s s

v4_readings :
    (parse_ip (str "203.0.113.9") ≡ some (v4 203 0 113 9))
    × (parse_ip (str "256.0.0.1") ≡ none)
    × (parse_ip (str "1.2.3") ≡ none)
    × (parse_ip (str "1.2.3.4.5") ≡ none)
    × (parse_ip (str "1.2..4") ≡ none)
    × (parse_ip (str "01.2.3.4") ≡ none)
    × (parse_ip (str "1.2.3.4.") ≡ none)
    × (parse_ip (str "localhost") ≡ none)
unfolding parse_ip
v4_readings = (refl, refl, refl, refl, refl, refl, refl, refl)

v6_readings :
    (parse_ip (str "::1") ≡ some (v6 (0 ∷ 0 ∷ 0 ∷ 0 ∷ 0 ∷ 0 ∷ 0 ∷ 1 ∷ [])))
    × (parse_ip (str "::") ≡ some (v6 (0 ∷ 0 ∷ 0 ∷ 0 ∷ 0 ∷ 0 ∷ 0 ∷ 0 ∷ [])))
    × (parse_ip (str "2001:DB8::aB") ≡ some (v6 (0x2001 ∷ 0xdb8 ∷ 0 ∷ 0 ∷ 0 ∷ 0 ∷ 0 ∷ 0xab ∷ [])))
    × (parse_ip (str "1:2:3:4:5:6:7:8") ≡ some (v6 (1 ∷ 2 ∷ 3 ∷ 4 ∷ 5 ∷ 6 ∷ 7 ∷ 8 ∷ [])))
    × (parse_ip (str "::ffff:10.0.0.7") ≡ some (v4 10 0 0 7))
    × (parse_ip (str "1:2:3:4:5:6:1.2.3.4") ≡ some (v6 (1 ∷ 2 ∷ 3 ∷ 4 ∷ 5 ∷ 6 ∷ 258 ∷ 772 ∷ [])))
    × (parse_ip (str "1:2::") ≡ some (v6 (1 ∷ 2 ∷ 0 ∷ 0 ∷ 0 ∷ 0 ∷ 0 ∷ 0 ∷ [])))
unfolding parse_ip
v6_readings = (refl, refl, refl, refl, refl, refl, refl)

v6_refusals :
    (parse_ip (str "1:2:3:4:5:6:7:8::") ≡ none)
    × (parse_ip (str "1::2::3") ≡ none)
    × (parse_ip (str "12345::") ≡ none)
    × (parse_ip (str "1:2:") ≡ none)
    × (parse_ip (str ":1:2:3:4:5:6:7") ≡ none)
    × (parse_ip (str "fe80::1%eth0") ≡ none)
    × (parse_ip (str "1:2:3:4:5:1.2.3.4") ≡ none)
unfolding parse_ip
v6_refusals = (refl, refl, refl, refl, refl, refl, refl)

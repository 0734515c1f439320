-- ===== src/Golang/Flag/Number.antt =====
-- `strconv.ParseInt(s, 0, 64)`: a sign, a base prefix, digits, and underscores between digits.
use speedtest_go.Base.{
  ℕ, ◌+◌, ◌-◌, ◌*◌, Bool, true, false, ◌&&◌, ◌||◌, Option, none, some, [], ◌∷◌, Str, str,
  if◌then◌else◌, ltb, leb, ◌==◌, ◌≡◌, refl,
}
use speedtest_go.Base.Int.{ℤ, pos, negsuc}
use speedtest_go.Golang.Strconv.{in_range_pos, in_range_neg, is_digit}

-- `c | 0x20` for the letters that are told apart here.
lower : ℕ → ℕ
lower c = if leb b'A' c && leb c b'Z' then c + 32 else c

is_letter : ℕ → Bool
unfolding lower
is_letter c = leb b'a' (lower c) && leb (lower c) b'z'

digit_value : ℕ → Option ℕ
unfolding is_letter
digit_value c =
    if is_digit c then some (c - b'0') else if is_letter c then some (lower c - b'a' + 10) else none

digit_in : ℕ → ℕ → Option ℕ
unfolding digit_value
digit_in base c = elim (digit_value c) [
  | none ↦ none
  | some d ↦ if ltb d base then some d else none
]

-- The digits in a base, underscores skipped.
digits : ℕ → ℕ → Str → Option ℕ
unfolding digit_in
digits base acc [] = some acc
digits base acc (c ∷ s) =
    let next : ℕ = elim (digit_in base c) [ none ↦ acc | some d ↦ acc * base + d ] in
    let rest = digits base next s in
    if c == b'_' then rest else elim (digit_in base c) [ none ↦ none | some _ ↦ rest ]

unsigned : Str → Option ℕ
unfolding digits
unsigned [] = none
unsigned (c ∷ []) = if c == b'0' then some 0 else digits 10 0 (c ∷ [])
unsigned (c ∷ d ∷ []) = if c == b'0' then digits 8 0 (d ∷ []) else digits 10 0 (c ∷ d ∷ [])
unsigned (c ∷ d ∷ e ∷ s) =
    if c == b'0'
    then if lower d == b'b'
      then digits 2 0 (e ∷ s)
      else if lower d == b'o'
      then digits 8 0 (e ∷ s)
      else if lower d == b'x'
      then digits 16 0 (e ∷ s)
      else digits 8 0 (d ∷ e ∷ s)
    else digits 10 0 (c ∷ d ∷ e ∷ s)

-- The last kind of byte seen by `underscoreOK`.
pub data Seen : Type 0 where
  start digit underscore other : Seen

underscores : Bool → Seen → Str → Bool
unfolding lower
underscores hex underscore [] = false
underscores hex seen [] = true
underscores hex underscore (c ∷ s) =
    if is_digit c || hex && leb b'a' (lower c) && leb (lower c) b'f'
    then underscores hex digit s
    else false
underscores hex digit (c ∷ s) =
    underscores hex
      (if is_digit c || hex && leb b'a' (lower c) && leb (lower c) b'f'
        then digit
        else if c == b'_'
        then underscore
        else other)
      s
underscores hex seen (c ∷ s) =
    let rest =
      underscores hex
        (if is_digit c || hex && leb b'a' (lower c) && leb (lower c) b'f' then digit else other)
        s in
    if c == b'_' then false else rest

underscores_ok : Str → Bool
unfolding underscores
underscores_ok [] = underscores false start []
underscores_ok (c ∷ []) = underscores false start (c ∷ [])
underscores_ok (c ∷ d ∷ s) =
    if c == b'0' && (lower d == b'b' || lower d == b'o' || lower d == b'x')
    then underscores (lower d == b'x') digit s
    else underscores false start (c ∷ d ∷ s)

checked : Str → Option ℕ
unfolding unsigned underscores_ok
checked s = if underscores_ok s then unsigned s else none

unfoldable pub parse_int_base0 : Str → Option ℤ
unfolding checked
parse_int_base0 [] = none
parse_int_base0 (c ∷ s) =
    if c == b'-'
    then in_range_neg (checked s)
    else if c == b'+'
    then in_range_pos (checked s)
    else in_range_pos (checked (c ∷ s))

readings :
    (parse_int_base0 (str "0x1F") ≡ some (pos 31))
    × (parse_int_base0 (str "-017") ≡ some (negsuc 14))
    × (parse_int_base0 (str "1_000") ≡ some (pos 1000))
    × (parse_int_base0 (str "1__0") ≡ none)
    × (parse_int_base0 (str "0") ≡ some (pos 0))
    × (parse_int_base0 (str "09") ≡ none)
unfolding parse_int_base0
readings = (refl, refl, refl, refl, refl, refl)

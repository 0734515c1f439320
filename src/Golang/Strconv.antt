-- ===== src/Golang/Strconv.antt =====
-- Package strconv: `Atoi`, `Itoa`, and `ParseInt` in base 0, which the flag package uses.
use speedtest_go.Base.{
  ℕ, zero, suc, ◌+◌, ◌-◌, ◌*◌, ◌/◌, ◌%◌, ◌^◌, ◌<◌, ◌≡◌, refl, sym, ◌∙◌, Bool, true, false, ◌&&◌,
  Option, none, some, [], ◌∷◌, ◌++◌, arith, ◌≢◌, ◌||◌, ltb, leb, ◌==◌, if◌then◌else◌, Str, str, inl,
  inr, Bool-cases,
}
use speedtest_go.Golang.HostPort.{contains}
use speedtest_go.Base.Int.{ℤ, pos, negsuc, IsInt64}

abbrev pub is_digit : ℕ → Bool
is_digit c = leb b'0' c && leb c b'9'

-- The decimal value of the digits, after those already read.
parse_digits : ℕ → Str → Option ℕ
parse_digits acc [] = some acc
parse_digits acc (c ∷ s) =
    let rest = parse_digits (acc * 10 + (c - b'0')) s in if is_digit c then rest else none

parse_decimal : Str → Option ℕ
unfolding parse_digits
parse_decimal [] = none
parse_decimal (c ∷ s) = parse_digits 0 (c ∷ s)

-- The range checks of a 64-bit `int`.
abbrev pub in_range_pos : Option ℕ → Option ℤ
in_range_pos none = none
in_range_pos (some n) = if ltb n (2 ^ 63) then some (pos n) else none

abbrev negate : ℕ → ℤ
negate zero = pos 0
negate (suc n) = negsuc n

abbrev pub in_range_neg : Option ℕ → Option ℤ
in_range_neg none = none
in_range_neg (some n) = if leb n (2 ^ 63) then some (negate n) else none

-- `strconv.Atoi`; `none` is an error.
unfoldable pub atoi : Str → Option ℤ
unfolding parse_decimal
atoi [] = none
atoi (c ∷ s) =
    if c == b'-'
    then in_range_neg (parse_decimal s)
    else if c == b'+'
    then in_range_pos (parse_decimal s)
    else in_range_pos (parse_decimal (c ∷ s))

-- Decimal digits, most significant first; the fuel bounds their number.
itoa_loop : ℕ → ℕ → Str
itoa_loop zero n = []
itoa_loop (suc f) n =
    let more = itoa_loop f (n / 10) ++ (n % 10 + b'0') ∷ [] in
    if ltb n 10 then (n + b'0') ∷ [] else more

-- `strconv.Itoa` of a number that is not negative.
unfoldable pub itoa_ℕ : ℕ → Str
unfolding itoa_loop
itoa_ℕ n = itoa_loop (suc n) n

unfoldable pub itoa : ℤ → Str
itoa (pos n) = itoa_ℕ n
itoa (negsuc n) = b'-' ∷ itoa_ℕ (suc n)

parse_digits-append :
    (s t : Str) (acc n : ℕ)
    → parse_digits acc s ≡ some n
    → parse_digits acc (s ++ t) ≡ parse_digits n t
unfolding parse_digits
parse_digits-append [] t acc n h = ground arith
parse_digits-append (c ∷ s) t acc n h =
    ground (arith, parse_digits-append s t (acc * 10 + (c - b'0')) n)

parse_digits-itoa_loop : (f n : ℕ) → n < f → parse_digits 0 (itoa_loop f n) ≡ some n
unfolding parse_digits itoa_loop
parse_digits-itoa_loop zero n h = elim h [ ]
parse_digits-itoa_loop (suc f) n h = elim (Bool-cases (ltb n 10)) [
  | inl small ↦ rw small (ground arith)
  | inr large ↦ rw large (
      parse_digits-append (itoa_loop f (n / 10)) ((n % 10 + b'0') ∷ []) 0 (n / 10)
        (parse_digits-itoa_loop f (n / 10) (ground arith))
      ∙ ground arith)
]

-- The first byte of a number's text is a digit.
itoa_loop_head :
    (f n : ℕ) → n < f → (c : ℕ) × (s : Str) × (itoa_loop f n ≡ c ∷ s) × (is_digit c ≡ true)
unfolding itoa_loop
itoa_loop_head zero n h = elim h [ ]
itoa_loop_head (suc f) n h = elim (Bool-cases (ltb n 10)) [
  | inl small ↦ rw small (n + b'0', [], refl, ground arith)
  | inr large ↦
      let ih = itoa_loop_head f (n / 10) (ground arith) in
      rw large (ih.0, ih.1 ++ (n % 10 + b'0') ∷ [], rw ih.2, ih.3)
]

parse_decimal-itoa_ℕ : (n : ℕ) → parse_decimal (itoa_ℕ n) ≡ some n
unfolding parse_decimal itoa_ℕ
parse_decimal-itoa_ℕ n =
    let (c, s, e, d) = itoa_loop_head (suc n) n (omega arith) in
    rw e (rw e at (parse_digits-itoa_loop (suc n) n (omega arith)))

atoi_of_head :
    (c : ℕ) (s : Str) → is_digit c ≡ true → atoi (c ∷ s) ≡ in_range_pos (parse_decimal (c ∷ s))
unfolding atoi
atoi_of_head c s h = ground arith

atoi-itoa_ℕ : (n : ℕ) → n < 2 ^ 63 → atoi (itoa_ℕ n) ≡ some (pos n)
unfolding itoa_ℕ
atoi-itoa_ℕ n h =
    let (c, s, e, d) = itoa_loop_head (suc n) n (omega arith) in
    let parsed : parse_decimal (itoa_loop (suc n) n) ≡ some n = parse_decimal-itoa_ℕ n in
    rw e (atoi_of_head c s d ∙ rw (← e) (rw parsed (ground arith)))

atoi_minus : (s : Str) → atoi (b'-' ∷ s) ≡ in_range_neg (parse_decimal s)
unfolding atoi
atoi_minus s = refl

-- Every 64-bit integer is read back from its text.
pub atoi-itoa : (z : ℤ) → IsInt64 z → atoi (itoa z) ≡ some z
unfolding itoa
atoi-itoa (pos n) h = atoi-itoa_ℕ n (omega arith)
atoi-itoa (negsuc n) h =
    atoi_minus (itoa_ℕ (suc n)) ∙ rw (parse_decimal-itoa_ℕ (suc n)) (ground arith)

readings :
    (atoi (str "+042") ≡ some (pos 42))
    × (atoi (str "-7") ≡ some (negsuc 6))
    × (atoi (str "4x") ≡ none)
    × (atoi (str "-") ≡ none)
    × (atoi (str "9223372036854775808") ≡ none)
unfolding atoi
readings = (refl, refl, refl, refl, refl)

-- A byte that stands in a number's text is a sign or a digit.
abbrev pub number_byte : ℕ → Bool
number_byte c = is_digit c || c == b'-' || c == b'+'

parse_digits-contains :
    (acc c : ℕ) (s : Str) → parse_digits acc s ≢ none → number_byte c ≡ false → contains c s ≡ false
unfolding parse_digits contains
parse_digits-contains acc c [] h n = refl
parse_digits-contains acc c (d ∷ s) h n =
    ground (arith, parse_digits-contains (acc * 10 + (d - b'0')) c s)

parse_decimal-contains :
    (c : ℕ) (s : Str) → parse_decimal s ≢ none → number_byte c ≡ false → contains c s ≡ false
unfolding parse_decimal contains
parse_decimal-contains c [] h n = refl
parse_decimal-contains c (d ∷ s) h n = parse_digits-contains 0 c (d ∷ s) h n

in_range_pos-none : (o : Option ℕ) → in_range_pos o ≢ none → o ≢ none
in_range_pos-none none h e = h refl
in_range_pos-none (some n) h e = cc

in_range_neg-none : (o : Option ℕ) → in_range_neg o ≢ none → o ≢ none
in_range_neg-none none h e = h refl
in_range_neg-none (some n) h e = cc

-- No other byte stands in a text that reads as a number.
pub atoi-contains : (c : ℕ) (s : Str) → atoi s ≢ none → number_byte c ≡ false → contains c s ≡ false
unfolding atoi contains
atoi-contains c [] h n = refl
atoi-contains c (d ∷ s) h n = elim (Bool-cases (d == b'-')) [
  | inl minus ↦ ground (arith, parse_decimal-contains c s (in_range_neg-none _ (rw minus at h)) n)
  | inr other ↦ elim (Bool-cases (d == b'+')) [
    | inl plus ↦
        ground (arith, parse_decimal-contains c s (in_range_pos-none _ (rw (other, plus) at h)) n)
    | inr digit ↦ parse_decimal-contains c (d ∷ s) (in_range_pos-none _ (rw (other, digit) at h)) n
  ]
]

-- A number's text is not empty.
pub itoa-ne-nil : (z : ℤ) → itoa z ≢ []
unfolding itoa itoa_ℕ
itoa-ne-nil (pos n) e = let (c, s, q, d) = itoa_loop_head (suc n) n (omega arith) in cc (sym q ∙ e)
itoa-ne-nil (negsuc n) e = cc

itoa_loop_digit : (f n : ℕ) → n < f → n < 10 → itoa_loop f n ≡ (n + b'0') ∷ []
unfolding itoa_loop
itoa_loop_digit zero n h d = elim h [ ]
itoa_loop_digit (suc f) n h d = ground arith

itoa_loop_digits :
    (f n : ℕ)
    → n < suc f
    → leb 10 n ≡ true
    → itoa_loop (suc f) n ≡ itoa_loop f (n / 10) ++ (n % 10 + b'0') ∷ []
unfolding itoa_loop
itoa_loop_digits f n h d = ground arith

-- The text of a byte: one, two or three digits.
abbrev pub byte_text : ℕ → Str
byte_text n =
    if ltb n 10
    then (n + b'0') ∷ []
    else if ltb n 100
    then (n / 10 + b'0') ∷ (n % 10 + b'0') ∷ []
    else (n / 100 + b'0') ∷ (n / 10 % 10 + b'0') ∷ (n % 10 + b'0') ∷ []

byte_text-100 : (f n : ℕ) → n < f → n < 100 → itoa_loop f n ≡ byte_text n
byte_text-100 zero n h d = elim h [ ]
byte_text-100 (suc f) n h d = elim (Bool-cases (leb 10 n)) [
  | inr small ↦ itoa_loop_digit (suc f) n h (ground arith) ∙ ground arith
  | inl large ↦
      itoa_loop_digits f n h large
      ∙ rw (itoa_loop_digit f (n / 10) (ground arith) (ground arith)) (ground arith)
]

pub itoa_ℕ-byte : (n : ℕ) → n < 256 → itoa_ℕ n ≡ byte_text n
unfolding itoa_ℕ
itoa_ℕ-byte n h = elim (Bool-cases (leb 100 n)) [
  | inr small ↦ byte_text-100 (suc n) n (omega arith) (ground arith)
  | inl large ↦
      itoa_loop_digits n n (omega arith) (ground arith)
      ∙ rw (byte_text-100 n (n / 10) (ground arith) (ground arith)) (ground arith)
]

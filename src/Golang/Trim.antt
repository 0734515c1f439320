-- ===== src/Golang/Trim.antt =====
-- `strings.TrimSpace`, and the first part of `strings.SplitN(s, sep, 2)`.
use speedtest_go.Base.{
  ℕ, zero, suc, ◌≡◌, refl, sym, ap, ◌∙◌, Bool, true, ◌&&◌, ◌||◌, none, some, [], ◌∷◌, Str, str,
  if◌then◌else◌, ◌==◌, leb, ◌++◌, append-nil, arith,
}
use speedtest_go.Golang.HostPort.{split_first}

ascii_space : ℕ → Bool
ascii_space c = (leb 9 c && leb c 13) || c == 32

-- The white space of two and of three bytes in UTF-8: U+0085, U+00A0, U+1680, U+2000 to U+200A,
-- U+2028, U+2029, U+202F, U+205F and U+3000.
space_of_2 : ℕ → ℕ → Bool
space_of_2 a b = a == 0xc2 && (b == 0x85 || b == 0xa0)

space_of_3 : ℕ → ℕ → ℕ → Bool
space_of_3 a b c =
    (a == 0xe1 && b == 0x9a && c == 0x80)
    || (a == 0xe2 && b == 0x80 && (leb 0x80 c && leb c 0x8a))
    || (a == 0xe2 && b == 0x80 && (c == 0xa8 || c == 0xa9 || c == 0xaf))
    || (a == 0xe2 && b == 0x81 && c == 0x9f)
    || (a == 0xe3 && b == 0x80 && c == 0x80)

-- The length of the white space that the text begins with, 0 where it begins with none.
leading : Str → ℕ
unfolding ascii_space space_of_2 space_of_3
leading [] = 0
leading (a ∷ []) = if ascii_space a then 1 else 0
leading (a ∷ b ∷ []) = if ascii_space a then 1 else if space_of_2 a b then 2 else 0
leading (a ∷ b ∷ c ∷ s) =
    if ascii_space a then 1 else if space_of_2 a b then 2 else if space_of_3 a b c then 3 else 0

-- The same of the reversed text, whose characters stand last byte first.
trailing : Str → ℕ
unfolding ascii_space space_of_2 space_of_3
trailing [] = 0
trailing (a ∷ []) = if ascii_space a then 1 else 0
trailing (a ∷ b ∷ []) = if ascii_space a then 1 else if space_of_2 b a then 2 else 0
trailing (a ∷ b ∷ c ∷ s) =
    if ascii_space a then 1 else if space_of_2 b a then 2 else if space_of_3 c b a then 3 else 0

-- `skip` bytes of a character that is being removed still stand before the text.
trim_by : (Str → ℕ) → (skip : ℕ) → Str → Str
trim_by spaces skip [] = []
trim_by spaces (suc skip) (c ∷ s) = trim_by spaces skip s
trim_by spaces zero (c ∷ s) = elim (spaces (c ∷ s)) [
  | zero ↦ c ∷ s
  | suc skip ↦ trim_by spaces skip s
]

reverse_onto : Str → Str → Str
reverse_onto [] done = done
reverse_onto (c ∷ s) done = reverse_onto s (c ∷ done)

unfoldable pub trim_space : Str → Str
unfolding trim_by leading trailing reverse_onto
trim_space s = reverse_onto (trim_by trailing 0 (reverse_onto (trim_by leading 0 s) [])) []

unfoldable pub first_part : ℕ → Str → Str
unfolding split_first
first_part sep s = elim (split_first sep s) [ none ↦ s | some (before, _) ↦ before ]

reverse_onto-reverse_onto :
    (s t u : Str) → reverse_onto (reverse_onto s t) u ≡ reverse_onto t (s ++ u)
unfolding reverse_onto
reverse_onto-reverse_onto [] t u = refl
reverse_onto-reverse_onto (c ∷ s) t u = reverse_onto-reverse_onto s (c ∷ t) u

reverse_onto-append : (s t u : Str) → reverse_onto (s ++ t) u ≡ reverse_onto t (reverse_onto s u)
unfolding reverse_onto
reverse_onto-append [] t u = refl
reverse_onto-append (c ∷ s) t u = reverse_onto-append s t (c ∷ u)

-- A visible ASCII byte.
abbrev pub is_visible : ℕ → Bool
is_visible c = leb 33 c && leb c 127

leading-visible : (c : ℕ) (s : Str) → is_visible c ≡ true → leading (c ∷ s) ≡ 0
unfolding leading
leading-visible c [] h = ground arith
leading-visible c (a ∷ []) h = ground arith
leading-visible c (a ∷ b ∷ s) h = ground arith

trailing-visible : (c : ℕ) (s : Str) → is_visible c ≡ true → trailing (c ∷ s) ≡ 0
unfolding trailing
trailing-visible c [] h = ground arith
trailing-visible c (a ∷ []) h = ground arith
trailing-visible c (a ∷ b ∷ s) h = ground arith

trim_by-none :
    (spaces : Str → ℕ) (c : ℕ) (s : Str) → spaces (c ∷ s) ≡ 0 → trim_by spaces 0 (c ∷ s) ≡ c ∷ s
unfolding trim_by
trim_by-none spaces c s h = rw (trim_by, h)

-- A text between visible bytes is left as it is.
pub trim_space_lem :
    (s : Str) (c : ℕ) (t u : Str) (d : ℕ)
    → s ≡ c ∷ t
    → s ≡ u ++ d ∷ []
    → is_visible c ≡ true
    → is_visible d ≡ true
    → trim_space s ≡ s
unfolding trim_space reverse_onto
trim_space_lem s c t u d first last hc hd =
    ap (λ v. reverse_onto (trim_by trailing 0 (reverse_onto v [])) []) left
    ∙ ap (λ v. reverse_onto (trim_by trailing 0 v) []) back
    ∙ ap (λ v. reverse_onto v [])
        (trim_by-none trailing d (reverse_onto u []) (trailing-visible d (reverse_onto u []) hd))
    ∙ ap (λ v. reverse_onto v []) (sym back)
    ∙ reverse_onto-reverse_onto s [] []
    ∙ append-nil s
  where
    left : trim_by leading 0 s ≡ s
    left = rw first (trim_by-none leading c t (leading-visible c t hc))

    back : reverse_onto s [] ≡ d ∷ reverse_onto u []
    back = ap (λ v. reverse_onto v []) last ∙ reverse_onto-append u (d ∷ []) []

readings :
    (trim_space (str " \t10.0.0.1 \n") ≡ str "10.0.0.1")
    × (trim_space (0xc2 ∷ 0xa0 ∷ 0xe2 ∷ 0x80 ∷ 0x83 ∷ b'a' ∷ 32 ∷ b'b' ∷ 0xe3 ∷ 0x80 ∷ 0x80 ∷ [])
        ≡ str "a b")
    × (trim_space (str "  ") ≡ [])
    × (first_part b',' (str "a, b, c") ≡ str "a")
    × (first_part b',' (str "abc") ≡ str "abc")
unfolding trim_space first_part
readings = (refl, refl, refl, refl, refl)

-- ===== src/Golang/Escape.antt =====
-- What the code uses of net/url: a path, and its escaped form as the client sent it. An escape that is
-- none is left; a request with such a path is refused before any handler.
use speedtest_go.Base.{
  ℕ, ◌+◌, ◌*◌, ◌≡◌, refl, Option, none, some, [], ◌∷◌, Str, if◌then◌else◌, ◌==◌, drop,
}
use speedtest_go.Golang.Ip.Parse.{hex_digit}

pair : Option ℕ → Option ℕ → Option ℕ
pair none low = none
pair (some high) none = none
pair (some high) (some low) = some (high * 16 + low)

-- The byte that an escape at the front stands for.
unfoldable pub escape_at : Str → Option ℕ
unfolding pair hex_digit
escape_at [] = none
escape_at (a ∷ []) = none
escape_at (a ∷ b ∷ []) = none
escape_at (a ∷ b ∷ c ∷ s) = if a == b'%' then pair (hex_digit b) (hex_digit c) else none

unfoldable pub unescape : Str → Str
unfolding escape_at
unescape [] = []
unescape (a ∷ []) = a ∷ []
unescape (a ∷ b ∷ []) = a ∷ b ∷ []
unescape (a ∷ b ∷ c ∷ s) =
    let after = unescape s in
    let rest = unescape (b ∷ c ∷ s) in
    elim (escape_at (a ∷ b ∷ c ∷ s)) [ none ↦ a ∷ rest | some v ↦ v ∷ after ]

pub unescape-cons :
    (a : ℕ) (s : Str)
    → unescape (a ∷ s)
      ≡ elim (escape_at (a ∷ s)) [ none ↦ a ∷ unescape s | some v ↦ v ∷ unescape (drop 2 s) ]
unfolding unescape escape_at
unescape-cons a [] = refl
unescape-cons a (b ∷ []) = refl
unescape-cons a (b ∷ c ∷ s) = refl

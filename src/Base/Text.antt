-- ===== src/Base/Text.antt =====
-- Go strings, which are byte sequences.
use Prim.Native.Nat.{ℕ}
use Prim.Native.Char.{code}
use Prim.Native.String.{String}
use speedtest_go.Base.Tests.{◌==◌}
use mathlib.Core.Path.{◌≡◌, refl}
use mathlib.Core.Bool.{Bool, true, false, ◌&&◌}
use mathlib.Core.List.{List, [], ◌∷◌}
use native.Mathlib.Omega.{arith}

abbrev pub Str : Type 0
Str = List ℕ

-- The bytes of an ASCII literal.
abbrev pub str : String → Str
str String.[] = []
str (String.◌∷◌ c s) = code c ∷ str s

-- `s == t`
unfoldable pub str_eq : Str → Str → Bool
str_eq [] [] = true
str_eq [] (b ∷ t) = false
str_eq (a ∷ s) [] = false
str_eq (a ∷ s) (b ∷ t) = (a == b) && str_eq s t

-- `s == ""`
abbrev pub is_empty : Str → Bool
is_empty [] = true
is_empty (a ∷ s) = false

pub str_eq_refl : (s : Str) → str_eq s s ≡ true
unfolding str_eq
str_eq_refl [] = refl
str_eq_refl (a ∷ s) = ground (arith, str_eq_refl s)

pub str_eq_sound : (s t : Str) → str_eq s t ≡ true → s ≡ t
unfolding str_eq
str_eq_sound [] [] h = refl
str_eq_sound [] (b ∷ t) h = ground arith
str_eq_sound (a ∷ s) [] h = ground arith
str_eq_sound (a ∷ s) (b ∷ t) h = ground (arith, str_eq_sound s t)

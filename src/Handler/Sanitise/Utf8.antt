-- ===== src/Handler/Sanitise/Utf8.antt =====
-- `truncate` on UTF-8 text: the cut falls between characters.
use speedtest_go.Base.{
  ℕ, zero, suc, ◌+◌, ◌-◌, ◌<◌, ◌≡◌, refl, sym, ◌∙◌, ap, ◌⊎◌, inl, inr, true, false, [], ◌∷◌, ◌++◌,
  Str, if◌then◌else◌, leb, ltb, length, take, get_or, arith, Bool-cases, ltb→lt,
}
use mathlib.Core.Bool.{false≢true}
use speedtest_go.Handler.Sanitise.{is_continuation, walk_back, truncate}

abbrev Continuations : Str → Type 0
Continuations [] = Unit {0}
Continuations (b ∷ s) = (is_continuation b ≡ true) × Continuations s

-- A text of whole characters: each is a byte that is no continuation byte, with the number of
-- continuation bytes that its first byte announces.
abbrev announced : ℕ → ℕ
announced c = if ltb c 0x80 then 0 else if ltb c 0xe0 then 1 else if ltb c 0xf0 then 2 else 3

pub data Utf8 : Str → Type 0 where
  end : Utf8 []
  char :
      (c : ℕ) (tail rest s : Str)
      → is_continuation c ≡ false
      → length tail ≡ announced c
      → Continuations tail
      → s ≡ tail ++ rest
      → Utf8 rest
      → Utf8 (c ∷ s)

-- A place where a cut splits no character.
abbrev IsBoundary : Str → ℕ → Type 0
IsBoundary s k = (k ≡ 0) ⊎ (is_continuation (get_or s k 0) ≡ false)

walk_back-IsBoundary : (s : Str) (n : ℕ) → IsBoundary s (walk_back s n)
unfolding walk_back
walk_back-IsBoundary s zero = inl refl
walk_back-IsBoundary s (suc n) = elim (Bool-cases (is_continuation (get_or s (suc n) 0))) [
  | inl c ↦ rw c (walk_back-IsBoundary s n)
  | inr c ↦ rw c (inr c)
]

-- A cut inside the continuation bytes is no boundary.
inside :
    (tail rest : Str) (k : ℕ)
    → Continuations tail
    → k < length tail
    → is_continuation (get_or (tail ++ rest) k 0) ≡ true
inside [] rest k h lt = absurd (omega arith)
inside (b ∷ tail) rest zero h lt = h.0
inside (b ∷ tail) rest (suc k) h lt = inside tail rest k h.1 (omega arith)

beyond :
    (tail rest : Str) (k j : ℕ)
    → k ≡ length tail + j
    → (take k (tail ++ rest) ≡ tail ++ take j rest) × (get_or (tail ++ rest) k 0 ≡ get_or rest j 0)
beyond [] rest k j e =
    let same : k ≡ j = omega arith in (ap (λ n. take n rest) same, ap (λ n. get_or rest n 0) same)
beyond (b ∷ tail) rest zero j e = absurd (omega arith)
beyond (b ∷ tail) rest (suc k) j e =
    let (taken, got) = beyond tail rest k j (omega arith) in (ap (◌∷◌ b) taken, got)

take-Utf8 : (k : ℕ) {s : Str} → Utf8 s → IsBoundary s k → Utf8 (take k s)
take-Utf8 zero u b = end
take-Utf8 (suc k) end b = end
take-Utf8 (suc k) (char c tail rest s lead n conts e u) (inl z) = absurd (omega arith)
take-Utf8 (suc k) (char c tail rest s lead n conts e u) (inr b) =
    elim (Bool-cases (ltb k (length tail))) [
      | inl within ↦
          absurd (
            false≢true (sym (rw e at b) ∙ inside tail rest k conts (ltb→lt k (length tail) within)))
      | inr past ↦
          let j = k - length tail in
          let split : k ≡ length tail + j = ground arith in
          let (taken, got) = beyond tail rest k j split in
          char c tail (take j rest) (take k s) lead n conts (ap (take k) e ∙ taken) (
            take-Utf8 j u (
              inr (
                ap is_continuation (sym got)
                ∙ ap (λ t. is_continuation (get_or t k 0)) (sym e)
                ∙ b)))
    ]

-- A text of whole characters stays one, and `truncate` cuts it short only by whole characters.
pub truncate-Utf8 : (s : Str) (n : ℕ) → Utf8 s → Utf8 (truncate s n)
unfolding truncate
truncate-Utf8 s n u = elim (Bool-cases (leb (length s) n)) [
  | inl short ↦ rw short u
  | inr long ↦ rw long (take-Utf8 (walk_back s n) u (walk_back-IsBoundary s n))
]

-- ===== src/Handler/Results/Query.antt =====
-- How the paging parameters of a query are read.
use speedtest_go.Base.{◌≡◌, ◌⊎◌, inl, inr, refl, none, some, [], ◌∷◌, Str, arith, Option-cases}
use speedtest_go.Base.Int.{ℤ, ◌≤ℤ◌, ◌<ℤ◌}
use speedtest_go.Golang.Strconv.{atoi}
use speedtest_go.Handler.Sanitise.{clamp_int, parse_query_int}

-- The number that a text stands for: its own, moved to the nearer end of the range if it lies
-- outside, or the default if it is no number.
abbrev pub Chosen : (text : Str) → (fallback low high chosen : ℤ) → Type 0
Chosen text fallback low high chosen =
    ((atoi text ≡ none) × (chosen ≡ fallback))
    ⊎ ((n : ℤ) × (atoi text ≡ some n)
        × (((n <ℤ low) × (chosen ≡ low))
            ⊎ ((high <ℤ n) × (chosen ≡ high))
            ⊎ ((low ≤ℤ n) × (n ≤ℤ high) × (chosen ≡ n))))

atoi-empty : atoi [] ≡ none
unfolding atoi
atoi-empty = refl

clamp_inside : (n low high : ℤ) → low ≤ℤ n → n ≤ℤ high → clamp_int n low high ≡ n
unfolding clamp_int
clamp_inside n low high h k = ground arith

clamp_cases :
    (n low high : ℤ)
    → low ≤ℤ high
    → ((n <ℤ low) × (clamp_int n low high ≡ low))
      ⊎ ((high <ℤ n) × (clamp_int n low high ≡ high))
      ⊎ ((low ≤ℤ n) × (n ≤ℤ high) × (clamp_int n low high ≡ n))
unfolding clamp_int
clamp_cases n low high h = ground arith

pub clamp_int-Chosen :
    (text : Str) (fallback low high : ℤ)
    → low ≤ℤ fallback
    → fallback ≤ℤ high
    → low ≤ℤ high
    → Chosen text fallback low high (clamp_int (parse_query_int text fallback) low high)
unfolding parse_query_int
clamp_int-Chosen [] fallback low high l h r = inl (atoi-empty, clamp_inside fallback low high l h)
clamp_int-Chosen (c ∷ s) fallback low high l h r = elim (Option-cases (atoi (c ∷ s))) [
  | inl bad ↦ inl (bad, rw (bad, parse_query_int) (clamp_inside fallback low high l h))
  | inr (n, good) ↦ inr (n, good, rw (good, parse_query_int) (clamp_cases n low high r))
]

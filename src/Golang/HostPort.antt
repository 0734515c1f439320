-- ===== src/Golang/HostPort.antt =====
-- `net.SplitHostPort`.
use speedtest_go.Base.{
  ℕ, ◌≡◌, refl, sym, ap, ◌∙◌, Bool, false, ◌||◌, Option, none, some, [], ◌∷◌, ◌++◌, Str, str,
  if◌then◌else◌, ◌==◌, arith, append_assoc,
}

-- `strings.ContainsRune` of an ASCII rune, and `IndexByte(s, c) >= 0`.
unfoldable pub contains : ℕ → Str → Bool
contains c [] = false
contains c (x ∷ s) = x == c || contains c s

-- What stands before and after the last `c`.
unfoldable pub split_last : ℕ → Str → Option (Str × Str)
split_last c [] = none
split_last c (x ∷ s) = elim (split_last c s) [
  | some (before, after) ↦ some (x ∷ before, after)
  | none ↦ if x == c then some ([], s) else none
]

-- What stands before and after the first `c`.
unfoldable pub split_first : ℕ → Str → Option (Str × Str)
split_first c [] = none
split_first c (x ∷ s) =
    let rest : Option (Str × Str) = elim (split_first c s) [
      | none ↦ none
      | some (before, after) ↦ some (x ∷ before, after)
    ] in
    if x == c then some ([], s) else rest

-- The brackets of `[host]` must close right before the colon.
bracketed : Str → Str → Option (Str × Str)
unfolding split_first contains
bracketed inside port = elim (split_first b']' inside) [
  | none ↦ none
  | some (host, rest) ↦ elim rest [
    | _ ∷ _ ↦ none
    | [] ↦
        if contains b'[' host || contains b'[' port || contains b']' port
        then none
        else some (host, port)
  ]
]

plain : Str → Str → Option (Str × Str)
unfolding contains
plain host port =
    if contains b':' host
      || contains b'[' host
      || contains b'[' port
      || contains b']' host
      || contains b']' port
    then none
    else some (host, port)

by_head : Str → Str → Option (Str × Str)
unfolding bracketed plain
by_head [] port = plain [] port
by_head (c ∷ s) port = if c == b'[' then bracketed s port else plain (c ∷ s) port

unfoldable pub split_host_port : Str → Option (Str × Str)
unfolding by_head split_last
split_host_port s = elim (split_last b':' s) [ none ↦ none | some (host, port) ↦ by_head host port ]

split_last-none : (c : ℕ) (s : Str) → contains c s ≡ false → split_last c s ≡ none
unfolding split_last contains
split_last-none c [] h = refl
split_last-none c (x ∷ s) h = ground (arith, split_last-none c s)

pub split_last-append :
    (c : ℕ) (s t : Str) → contains c t ≡ false → split_last c (s ++ c ∷ t) ≡ some (s, t)
unfolding split_last
split_last-append c [] t h = ground (arith, split_last-none c t h)
split_last-append c (x ∷ s) t h = ground (arith, split_last-append c s t h)

pub split_first-append :
    (c : ℕ) (s t : Str) → contains c s ≡ false → split_first c (s ++ c ∷ t) ≡ some (s, t)
unfolding split_first contains
split_first-append c [] t h = ground arith
split_first-append c (x ∷ s) t h = ground (arith, split_first-append c s t)

-- No bracket stands in the text.
abbrev pub NoBracket : Str → Type 0
NoBracket s = (contains b'[' s ≡ false) × (contains b']' s ≡ false)

bracketed_lem :
    (host port : Str)
    → NoBracket host
    → NoBracket port
    → bracketed (host ++ b']' ∷ []) port ≡ some (host, port)
unfolding bracketed
bracketed_lem host port (h1, h2) (p1, p2) =
    rw (split_first-append b']' host [] h2, bracketed) (rw (h1, p1, p2))

close_bracket :
    (host port : Str)
    → contains b':' port ≡ false
    → split_last b':' (host ++ b']' ∷ b':' ∷ port) ≡ some (host ++ b']' ∷ [], port)
close_bracket host port colon =
    ap (split_last b':') (sym (append_assoc host (b']' ∷ []) (b':' ∷ port)))
    ∙ split_last-append b':' (host ++ b']' ∷ []) port colon

split_host_port_of :
    (s host port : Str)
    → split_last b':' s ≡ some (host, port)
    → split_host_port s ≡ by_head host port
unfolding split_host_port
split_host_port_of s host port e = rw (e, split_host_port)

split_last-cons :
    (c x : ℕ) (s before after : Str)
    → split_last c s ≡ some (before, after)
    → split_last c (x ∷ s) ≡ some (x ∷ before, after)
unfolding split_last
split_last-cons c x s before after e = rw (e, split_last)

by_head_bracket : (s port : Str) → by_head (b'[' ∷ s) port ≡ bracketed s port
unfolding by_head
by_head_bracket s port = refl

-- A bracketed host is read back, whatever colons it holds.
pub split_host_port_bracketed :
    (host port : Str)
    → NoBracket host
    → NoBracket port
    → contains b':' port ≡ false
    → split_host_port (b'[' ∷ (host ++ b']' ∷ b':' ∷ port)) ≡ some (host, port)
split_host_port_bracketed host port h p colon =
    split_host_port_of _ _ port (split_last-cons b':' b'[' _ _ port (close_bracket host port colon))
    ∙ by_head_bracket _ port
    ∙ bracketed_lem host port h p

by_head_plain :
    (host port : Str)
    → NoBracket host
    → NoBracket port
    → contains b':' host ≡ false
    → by_head host port ≡ some (host, port)
unfolding by_head
by_head_plain [] port h p hc = rw (p.0, p.1)
by_head_plain (c ∷ s) port h p hc = ground arith

-- A host with no colon is read back.
pub split_host_port_plain :
    (host port : Str)
    → NoBracket host
    → NoBracket port
    → contains b':' host ≡ false
    → contains b':' port ≡ false
    → split_host_port (host ++ b':' ∷ port) ≡ some (host, port)
split_host_port_plain host port h p hc colon =
    split_host_port_of _ host port (split_last-append b':' host port colon)
    ∙ by_head_plain host port h p hc

readings :
    (split_host_port (str "[::1]:80") ≡ some (str "::1", str "80"))
    × (split_host_port (str "1.2.3.4:9") ≡ some (str "1.2.3.4", str "9"))
    × (split_host_port (str "::1:80") ≡ none)
    × (split_host_port (str "host") ≡ none)
unfolding split_host_port
readings = (refl, refl, refl, refl)

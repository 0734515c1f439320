-- ===== src/Golang/Ip/Dotted.antt =====
-- The text of an IPv4 address: which bytes stand in it, and at its ends.
use speedtest_go.Base.{
  ℕ, ◌+◌, ◌/◌, ◌%◌, ◌<◌, ◌≡◌, refl, sym, ap, ◌∙◌, true, false, [], ◌∷◌, ◌++◌, Str, is_empty, ◌==◌,
  ltb, arith, Bool-cases, inl, inr, append-nil, append_assoc,
}
use speedtest_go.Golang.HostPort.{contains}
use speedtest_go.Golang.Strconv.{is_digit, itoa_ℕ, itoa_ℕ-byte}
use speedtest_go.Golang.Trim.{trim_space, trim_space_lem}
use speedtest_go.Golang.Ip.{v4, IsValid}
use speedtest_go.Golang.Ip.Text.{ip_text}

-- A function of texts that passes over digits passes over the text of a byte.
pub past_byte {ℓ} :
    {A : Type ℓ} (f : Str → A)
    → ((d : ℕ) (s : Str) → d < 10 → f ((d + b'0') ∷ s) ≡ f s)
    → (n : ℕ) (s : Str) → n < 256
    → f (itoa_ℕ n ++ s) ≡ f s
past_byte f step n s h = rw (itoa_ℕ-byte n h) (elim (Bool-cases (ltb n 10)) [
  | inl one ↦ rw one (step n s (ground arith))
  | inr more ↦ elim (Bool-cases (ltb n 100)) [
    | inl two ↦ rw (more, two) (step (n / 10) _ (ground arith) ∙ step (n % 10) s (omega arith))
    | inr three ↦
        rw (more, three)
          (step (n / 100) _ (omega arith)
            ∙ step (n / 10 % 10) _ (omega arith)
            ∙ step (n % 10) s (omega arith))
  ]
])

-- A byte that stands in no dotted text.
abbrev pub IsForeign : ℕ → Type 0
IsForeign k = (is_digit k ≡ false) × ((b'.' == k) ≡ false)

contains-digit :
    (k : ℕ) → IsForeign k → (d : ℕ) (s : Str) → d < 10 → contains k ((d + b'0') ∷ s) ≡ contains k s
unfolding contains
contains-digit k (h, _) d s l = ground arith

contains-dot : (k : ℕ) (s : Str) → IsForeign k → contains k (b'.' ∷ s) ≡ contains k s
unfolding contains
contains-dot k s (_, h) = rw (contains, h)

-- The text of the last two bytes, of the last three, and of all four.
abbrev pub dotted_2 : (c d : ℕ) → Str
dotted_2 c d = itoa_ℕ c ++ b'.' ∷ itoa_ℕ d

abbrev pub dotted_3 : (b c d : ℕ) → Str
dotted_3 b c d = itoa_ℕ b ++ b'.' ∷ dotted_2 c d

abbrev pub dotted : (a b c d : ℕ) → Str
dotted a b c d = itoa_ℕ a ++ b'.' ∷ dotted_3 b c d

pub contains-dotted :
    (k a b c d : ℕ) → IsForeign k → IsValid (v4 a b c d) → contains k (dotted a b c d) ≡ false
unfolding contains
contains-dotted k a b c d f (ha, hb, hc, hd) =
    let past = past_byte (contains k) (contains-digit k f) in
    past a (b'.' ∷ dotted_3 b c d) ha
    ∙ contains-dot k (dotted_3 b c d) f
    ∙ past b (b'.' ∷ dotted_2 c d) hb
    ∙ contains-dot k (dotted_2 c d) f
    ∙ past c (b'.' ∷ itoa_ℕ d) hc
    ∙ contains-dot k (itoa_ℕ d) f
    ∙ sym (ap (contains k) (append-nil (itoa_ℕ d)))
    ∙ past d [] hd

pub is_empty-byte : (n : ℕ) (s : Str) → n < 256 → is_empty (itoa_ℕ n ++ s) ≡ false
is_empty-byte n s h = rw (itoa_ℕ-byte n h) (ground arith)

pub ip_text-dotted : (a b c d : ℕ) → ip_text (v4 a b c d) ≡ dotted a b c d
unfolding ip_text
ip_text-dotted a b c d = refl

pub contains-ip_text :
    (k a b c d : ℕ) → IsForeign k → IsValid (v4 a b c d) → contains k (ip_text (v4 a b c d)) ≡ false
contains-ip_text k a b c d f h =
    ap (contains k) (ip_text-dotted a b c d) ∙ contains-dotted k a b c d f h

byte_first :
    (n : ℕ) (s : Str)
    → n < 256
    → (x : ℕ) × (t : Str) × (is_digit x ≡ true) × (itoa_ℕ n ++ s ≡ x ∷ t)
byte_first n s h = rw (itoa_ℕ-byte n h) (elim (Bool-cases (ltb n 10)) [
  | inl one ↦ rw one (n + b'0', s, ground arith, refl)
  | inr more ↦ elim (Bool-cases (ltb n 100)) [
    | inl two ↦ rw (more, two) (n / 10 + b'0', _, ground arith, refl)
    | inr three ↦ rw (more, three) (n / 100 + b'0', _, ground arith, refl)
  ]
])

byte_last : (n : ℕ) → n < 256 → (t : Str) × (x : ℕ) × (is_digit x ≡ true) × (itoa_ℕ n ≡ t ++ x ∷ [])
byte_last n h = rw (itoa_ℕ-byte n h) (elim (Bool-cases (ltb n 10)) [
  | inl one ↦ rw one ([], n + b'0', ground arith, refl)
  | inr more ↦ elim (Bool-cases (ltb n 100)) [
    | inl two ↦ rw (more, two) ((n / 10 + b'0') ∷ [], n % 10 + b'0', ground arith, refl)
    | inr three ↦
        rw (more, three)
          ((n / 100 + b'0') ∷ (n / 10 % 10 + b'0') ∷ [], n % 10 + b'0', ground arith, refl)
  ]
])

-- No white space stands around it.
pub trim_space-ip_text :
    (a b c d : ℕ) → IsValid (v4 a b c d) → trim_space (ip_text (v4 a b c d)) ≡ ip_text (v4 a b c d)
trim_space-ip_text a b c d (ha, hb, hc, hd) =
    let (x, t, dx, first) = byte_first a (b'.' ∷ dotted_3 b c d) ha in
    let (u, y, dy, last) = byte_last d hd in
    let whole : ip_text (v4 a b c d)
        ≡ (itoa_ℕ a ++ b'.' ∷ (itoa_ℕ b ++ b'.' ∷ (itoa_ℕ c ++ b'.' ∷ u))) ++ y ∷ [] =
      ip_text-dotted a b c d ∙ simp (last, append_assoc) in
    trim_space_lem (ip_text (v4 a b c d)) x t _ y (ip_text-dotted a b c d ∙ first) whole
      (ground arith) (ground arith)

pub is_empty-ip_text :
    (a b c d : ℕ) (s : Str) → IsValid (v4 a b c d) → is_empty (ip_text (v4 a b c d) ++ s) ≡ false
is_empty-ip_text a b c d s h =
    let (x, t, dx, first) = byte_first a (b'.' ∷ dotted_3 b c d) h.0 in
    rw (ip_text-dotted a b c d) (rw first refl)

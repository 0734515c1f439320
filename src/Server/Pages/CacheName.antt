-- ===== src/Server/Pages/CacheName.antt =====
-- The service worker of two releases differs, and so do the request ids of two requests.
use mathlib.Core.Bool.{false≢true}
use speedtest_go.Base.{
  ℕ, zero, suc, ◌+◌, ◌-◌, ◌*◌, ◌/◌, ◌%◌, ◌<◌, ◌≡◌, ◌≢◌, refl, sym, ap, ◌∙◌, Bool, true, false, ◌||◌,
  Option, none, some, List, [], ◌∷◌, ◌++◌, Str, str, if◌then◌else◌, length, length-append, arith,
  Bool-cases, inl, inr,
}
use speedtest_go.Server.Pages.{
  has_prefix, replace_from, replace_all, swjs_cache_placeholder, swjs_handler, hex_char, hex_encode,
  new_request_id,
}

-- Whether a text stands in another.
abbrev pub contains_text : Str → Str → Bool
contains_text old [] = false
contains_text old (c ∷ s) = has_prefix old (c ∷ s) || contains_text old s

-- The text as its bytes and the places of what is replaced.
cut : (old : Str) → (skip : ℕ) → Str → List (Option ℕ)
cut old skip [] = []
cut old (suc skip) (c ∷ s) = cut old skip s
cut old zero (c ∷ s) =
    let found = has_prefix old (c ∷ s) in
    let rest = cut old (if found then length old - 1 else 0) s in
    if found then none ∷ rest else some c ∷ rest

render : (fresh : Str) → List (Option ℕ) → Str
render fresh [] = []
render fresh (none ∷ pieces) = fresh ++ render fresh pieces
render fresh (some c ∷ pieces) = c ∷ render fresh pieces

places : List (Option ℕ) → ℕ
places [] = 0
places (none ∷ pieces) = suc (places pieces)
places (some c ∷ pieces) = places pieces

replace_from-cut :
    (old fresh : Str) (skip : ℕ) (s : Str)
    → replace_from old fresh skip s ≡ render fresh (cut old skip s)
unfolding replace_from cut render
replace_from-cut old fresh skip [] = refl
replace_from-cut old fresh (suc skip) (c ∷ s) = replace_from-cut old fresh skip s
replace_from-cut old fresh zero (c ∷ s) = elim (Bool-cases (has_prefix old (c ∷ s))) [
  | inl hit ↦ rw hit (ap (λ t. fresh ++ t) (replace_from-cut old fresh (length old - 1) s))
  | inr miss ↦ rw miss (ap (λ t. c ∷ t) (replace_from-cut old fresh 0 s))
]

places-cut : (old s : Str) → contains_text old s ≡ true → 0 < places (cut old 0 s)
unfolding cut places
places-cut old [] h = absurd (false≢true h)
places-cut old (c ∷ s) h = elim (Bool-cases (has_prefix old (c ∷ s))) [
  | inl hit ↦ rw hit (omega arith)
  | inr miss ↦ rw miss (places-cut old s (rw miss at h))
]

rendered_bytes : List (Option ℕ) → ℕ
rendered_bytes [] = 0
rendered_bytes (none ∷ pieces) = rendered_bytes pieces
rendered_bytes (some c ∷ pieces) = suc (rendered_bytes pieces)

length-render :
    (fresh : Str) (pieces : List (Option ℕ))
    → length (render fresh pieces) ≡ places pieces * length fresh + rendered_bytes pieces
unfolding render places rendered_bytes
length-render fresh [] = omega arith
length-render fresh (none ∷ pieces) =
    let step : suc (places pieces) * length fresh ≡ length fresh + places pieces * length fresh =
      grind arith in
    omega (arith, length-append fresh (render fresh pieces), length-render fresh pieces, step)
length-render fresh (some c ∷ pieces) = omega (arith, length-render fresh pieces)

-- A prefix of known length is determined.
append_front : (v w s t : Str) → length v ≡ length w → v ++ s ≡ w ++ t → v ≡ w
append_front [] [] s t n h = refl
append_front [] (b ∷ w) s t n h = absurd (omega arith)
append_front (a ∷ v) [] s t n h = absurd (omega arith)
append_front (a ∷ v) (b ∷ w) s t n h =
    let same : a ≡ b = cc in
    let rest : v ++ s ≡ w ++ t = cc in
    let ih = append_front v w s t (omega arith) rest in λ i. same i ∷ ih i

render-front :
    (v w : Str) (pieces : List (Option ℕ))
    → 0 < places pieces
    → length v ≡ length w
    → render v pieces ≡ render w pieces
    → v ≡ w
unfolding render places
render-front v w [] p n h = absurd (omega arith)
render-front v w (none ∷ pieces) p n h = append_front v w (render v pieces) (render w pieces) n h
render-front v w (some c ∷ pieces) p n h = render-front v w pieces p n cc

mul_cancel : (k a b : ℕ) → 0 < k → k * a ≡ k * b → a ≡ b
mul_cancel k a b p h = grind arith

render-injective :
    (v w : Str) (pieces : List (Option ℕ))
    → 0 < places pieces
    → render v pieces ≡ render w pieces
    → v ≡ w
render-injective v w pieces p h =
    let lengths : places pieces * length v ≡ places pieces * length w =
      omega (arith, length-render v pieces, length-render w pieces, ap length h) in
    render-front v w pieces p (mul_cancel (places pieces) (length v) (length w) p lengths) h

append_back : (u v w : Str) → u ++ v ≡ u ++ w → v ≡ w
append_back [] v w h = h
append_back (c ∷ u) v w h = append_back u v w cc

-- Two releases of different version serve different service workers, so that a browser which compares
-- them byte for byte sees the new one, if the embedded file holds the placeholder of the cache name
-- at all.
pub swjs_handler-version :
    (raw v w : Str)
    → contains_text swjs_cache_placeholder raw ≡ true
    → v ≢ w
    → (swjs_handler (some raw) v).body ≢ (swjs_handler (some raw) w).body
unfolding swjs_handler replace_all
swjs_handler-version raw v w present differ h =
    let old = swjs_cache_placeholder in
    let name = λ (t : Str). str "speedtest-" ++ t in
    let same : replace_from old (name v) 0 raw ≡ replace_from old (name w) 0 raw = cc in
    let names : name v ≡ name w =
      render-injective (name v) (name w) (cut old 0 raw) (places-cut old raw present)
        (sym (replace_from-cut old (name v) 0 raw) ∙ same ∙ replace_from-cut old (name w) 0 raw) in
    differ (append_back (str "speedtest-") v w names)

abbrev Bytes : List ℕ → Type 0
Bytes [] = Unit {0}
Bytes (b ∷ bytes) = (b < 256) × Bytes bytes

length-hex_encode : (bytes : List ℕ) → length (hex_encode bytes) ≡ 2 * length bytes
unfolding hex_encode
length-hex_encode [] = omega arith
length-hex_encode (b ∷ bytes) = omega (arith, length-hex_encode bytes)

hex_char-injective : (a b : ℕ) → a < 16 → b < 16 → hex_char a ≡ hex_char b → a ≡ b
hex_char-injective a b ha hb h = ground arith

hex_encode-injective : (s t : List ℕ) → Bytes s → Bytes t → hex_encode s ≡ hex_encode t → s ≡ t
unfolding hex_encode
hex_encode-injective [] [] hs ht h = refl
hex_encode-injective [] (b ∷ t) hs ht h = cc
hex_encode-injective (a ∷ s) [] hs ht h = cc
hex_encode-injective (a ∷ s) (b ∷ t) (ha, hs) (hb, ht) h =
    let high : hex_char (a / 16) ≡ hex_char (b / 16) = cc in
    let low : hex_char (a % 16) ≡ hex_char (b % 16) = cc in
    let upper = hex_char-injective (a / 16) (b / 16) (omega arith) (omega arith) high in
    let lower = hex_char-injective (a % 16) (b % 16) (omega arith) (omega arith) low in
    let same : a ≡ b = omega arith in
    let ih = hex_encode-injective s t hs ht cc in λ i. same i ∷ ih i

-- The id of a request is 32 characters long, and two requests have one id only if they drew the same
-- 16 random bytes.
pub new_request_id_lem :
    (s t : List ℕ) (stamp stamp' : Str)
    → Bytes s
    → Bytes t
    → length s ≡ 16
    → (length (new_request_id (some s) stamp) ≡ 32)
      × (new_request_id (some s) stamp ≡ new_request_id (some t) stamp' → s ≡ t)
unfolding new_request_id
new_request_id_lem s t stamp stamp' hs ht n =
    (omega (arith, length-hex_encode s, n), hex_encode-injective s t hs ht)

-- ===== src/Golang/Ip/Text.antt =====
-- `IP.String`.
use speedtest_go.Base.{
  ℕ, zero, suc, ◌+◌, ◌-◌, ◌/◌, ◌%◌, ◌≡◌, refl, ◌&&◌, List, [], ◌∷◌, ◌++◌, Str, str, if◌then◌else◌,
  ◌==◌, ltb, take, drop,
}
use speedtest_go.Golang.Strconv.{itoa_ℕ}
use speedtest_go.Golang.Ip.{Ip, v4, v6}

abbrev hex_char : ℕ → ℕ
hex_char d = if ltb d 10 then d + b'0' else d - 10 + b'a'

-- A group in lower-case hexadecimal, with no zeros in front.
unfoldable pub hex_text : ℕ → Str
hex_text g =
    if ltb g 16
    then hex_char g ∷ []
    else if ltb g 256
    then hex_char (g / 16) ∷ hex_char (g % 16) ∷ []
    else if ltb g 4096
    then hex_char (g / 256) ∷ hex_char (g / 16 % 16) ∷ hex_char (g % 16) ∷ []
    else hex_char (g / 4096)
      ∷ hex_char (g / 256 % 16)
      ∷ hex_char (g / 16 % 16)
      ∷ hex_char (g % 16)
      ∷ []

unfoldable pub groups_text : List ℕ → Str
unfolding hex_text
groups_text [] = []
groups_text (g ∷ []) = hex_text g
groups_text (g ∷ h ∷ groups) = hex_text g ++ b':' ∷ groups_text (h ∷ groups)

zeros : List ℕ → ℕ
zeros [] = 0
zeros (g ∷ groups) = let more = suc (zeros groups) in if g == 0 then more else 0

-- The first of the longest runs of zeros of two groups or more: where it starts and its length,
-- which is at first 0.
longest_run : (at : ℕ) → (best : ℕ × ℕ) → List ℕ → ℕ × ℕ
unfolding zeros
longest_run at best [] = best
longest_run at (start, len) (g ∷ groups) =
    let run = zeros (g ∷ groups) in
    longest_run (suc at) (if ltb 1 run && ltb len run then (at, run) else (start, len)) groups

v6_text : List ℕ → ℕ × ℕ → Str
unfolding groups_text
v6_text groups (start, zero) = groups_text groups
v6_text groups (start, suc len) =
    groups_text (take start groups) ++ b':' ∷ b':' ∷ groups_text (drop (start + suc len) groups)

unfoldable pub ip_text : Ip → Str
unfolding itoa_ℕ v6_text longest_run
ip_text (v4 a b c d) = itoa_ℕ a ++ b'.' ∷ (itoa_ℕ b ++ b'.' ∷ (itoa_ℕ c ++ b'.' ∷ itoa_ℕ d))
ip_text (v6 groups) = v6_text groups (longest_run 0 (0, 0) groups)

printings :
    (ip_text (v4 192 168 0 1) ≡ str "192.168.0.1")
    × (ip_text (v6 (0 ∷ 0 ∷ 0 ∷ 0 ∷ 0 ∷ 0 ∷ 0 ∷ 1 ∷ [])) ≡ str "::1")
    × (ip_text (v6 (0 ∷ 0 ∷ 0 ∷ 0 ∷ 0 ∷ 0 ∷ 0 ∷ 0 ∷ [])) ≡ str "::")
    × (ip_text (v6 (0x2001 ∷ 0xdb8 ∷ 0 ∷ 0 ∷ 1 ∷ 0 ∷ 0 ∷ 0xab ∷ [])) ≡ str "2001:db8::1:0:0:ab")
    × (ip_text (v6 (0x2001 ∷ 0 ∷ 1 ∷ 0 ∷ 1 ∷ 0 ∷ 1 ∷ 0 ∷ [])) ≡ str "2001:0:1:0:1:0:1:0")
unfolding ip_text
printings = (refl, refl, refl, refl, refl)

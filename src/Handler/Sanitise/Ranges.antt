-- ===== src/Handler/Sanitise/Ranges.antt =====
-- What a sanitised row holds.
use speedtest_go.Base.{
  ℕ, zero, suc, ◌*◌, ◌≤◌, ◌≡◌, refl, sym, ◌∙◌, ap, subst, ◌↔◌, ◌⊎◌, inl, inr, Bool, true, false,
  ◌||◌, [], ◌∷◌, Str, str, str_eq_sound, if◌then◌else◌, ◌==◌, length, length-take, arith,
}
use speedtest_go.Base.Int.{pos}
use speedtest_go.Golang.Float.{Float, nan, inf, finite, of_ℕ, unit}
use speedtest_go.Store.{Result}
use speedtest_go.Handler.Sanitise.{
  clamp_float, walk_back, truncate, csv_safe, grade, sanitise_result,
}

-- A finite number from 0 to `hi`; -0 counts as 0.
abbrev pub InRange : ℕ → Float → Type 0
InRange hi nan = ⊥
InRange hi (inf s) = ⊥
InRange hi (finite false m) = m ≤ hi * unit
InRange hi (finite true m) = m ≡ 0

abbrev pub IsGrade : Str → Type 0
IsGrade g = (g ≡ []) ⊎ ((g ≡ str "A") ⊎ ((g ≡ str "B") ⊎ ((g ≡ str "C") ⊎ (g ≡ str "D"))))

pub record IsSane (r : Result) : Type 0 where
  pub id : r.id ≡ pos 0
  pub created_at : r.created_at ≡ pos 0
  pub download_mbps : InRange 1_000_000 r.download_mbps
  pub upload_mbps : InRange 1_000_000 r.upload_mbps
  pub latency_idle_ms : InRange 60_000 r.latency_idle_ms
  pub latency_loaded_ms : InRange 60_000 r.latency_loaded_ms
  pub download_jitter_ms : InRange 60_000 r.download_jitter_ms
  pub upload_jitter_ms : InRange 60_000 r.upload_jitter_ms
  pub packet_loss : InRange 100 r.packet_loss
  pub bufferbloat_grade : IsGrade r.bufferbloat_grade
  pub client_ip : r.client_ip ≡ []
  pub client_ip_location : r.client_ip_location ≡ []
  pub user_agent : r.user_agent ≡ []
  pub settings_json : length r.settings_json ≤ 1024

pub clamp_float-InRange : (v : Float) (hi : ℕ) → InRange hi (clamp_float v (of_ℕ 0) (of_ℕ hi))
unfolding clamp_float of_ℕ
clamp_float-InRange nan hi = omega arith
clamp_float-InRange (inf true) hi = omega arith
clamp_float-InRange (inf false) hi = omega arith
clamp_float-InRange (finite false m) hi = ground arith
clamp_float-InRange (finite true m) hi = ground arith

clamp_float_id : (v : Float) (hi : ℕ) → InRange hi v → clamp_float v (of_ℕ 0) (of_ℕ hi) ≡ v
unfolding clamp_float of_ℕ
clamp_float_id nan hi h = absurd h
clamp_float_id (inf s) hi h = absurd h
clamp_float_id (finite false m) hi h = ground arith
clamp_float_id (finite true m) hi h = ground arith

walk_back-le : (s : Str) (n : ℕ) → walk_back s n ≤ n
unfolding walk_back
walk_back-le s zero = omega arith
walk_back-le s (suc n) = ground (arith, walk_back-le s n)

pub length-truncate : (s : Str) (n : ℕ) → length (truncate s n) ≤ n
unfolding truncate
length-truncate s n = ground (arith, walk_back-le s n, length-take (walk_back s n) s)

truncate_id : (s : Str) (n : ℕ) → length s ≤ n → truncate s n ≡ s
unfolding truncate
truncate_id s n h = ground arith

grade-IsGrade : (g : Str) → IsGrade (grade g)
unfolding grade
grade-IsGrade g = ground (
  arith,
  str_eq_sound g [],
  str_eq_sound g (str "A"),
  str_eq_sound g (str "B"),
  str_eq_sound g (str "C"),
  str_eq_sound g (str "D"),
)

keeps : {g : Str} (known : Str) → g ≡ known → grade known ≡ known → grade g ≡ g
keeps known e h = ap grade e ∙ h ∙ sym e

grade_id : (g : Str) → IsGrade g → grade g ≡ g
unfolding grade
grade_id g (inl e) = keeps [] e refl
grade_id g (inr (inl e)) = keeps (str "A") e refl
grade_id g (inr (inr (inl e))) = keeps (str "B") e refl
grade_id g (inr (inr (inr (inl e)))) = keeps (str "C") e refl
grade_id g (inr (inr (inr (inr e)))) = keeps (str "D") e refl

sanitise_result-IsSane : (r : Result) → IsSane (sanitise_result r)
unfolding sanitise_result
sanitise_result-IsSane r = record {
  id = refl;
  created_at = refl;
  download_mbps = clamp_float-InRange r.download_mbps 1_000_000;
  upload_mbps = clamp_float-InRange r.upload_mbps 1_000_000;
  latency_idle_ms = clamp_float-InRange r.latency_idle_ms 60_000;
  latency_loaded_ms = clamp_float-InRange r.latency_loaded_ms 60_000;
  download_jitter_ms = clamp_float-InRange r.download_jitter_ms 60_000;
  upload_jitter_ms = clamp_float-InRange r.upload_jitter_ms 60_000;
  packet_loss = clamp_float-InRange r.packet_loss 100;
  bufferbloat_grade = grade-IsGrade r.bufferbloat_grade;
  client_ip = refl;
  client_ip_location = refl;
  user_agent = refl;
  settings_json = length-truncate r.settings_json 1024;
}

sanitise_result_id : (r : Result) → IsSane r → sanitise_result r ≡ r
unfolding sanitise_result
sanitise_result_id r h i = record {
  id = sym h.id i;
  created_at = sym h.created_at i;
  download_mbps = clamp_float_id r.download_mbps 1_000_000 h.download_mbps i;
  upload_mbps = clamp_float_id r.upload_mbps 1_000_000 h.upload_mbps i;
  latency_idle_ms = clamp_float_id r.latency_idle_ms 60_000 h.latency_idle_ms i;
  latency_loaded_ms = clamp_float_id r.latency_loaded_ms 60_000 h.latency_loaded_ms i;
  download_jitter_ms = clamp_float_id r.download_jitter_ms 60_000 h.download_jitter_ms i;
  upload_jitter_ms = clamp_float_id r.upload_jitter_ms 60_000 h.upload_jitter_ms i;
  packet_loss = clamp_float_id r.packet_loss 100 h.packet_loss i;
  bufferbloat_grade = grade_id r.bufferbloat_grade h.bufferbloat_grade i;
  client_ip = sym h.client_ip i;
  client_ip_location = sym h.client_ip_location i;
  user_agent = sym h.user_agent i;
  settings_json = truncate_id r.settings_json 1024 h.settings_json i;
}

-- Every row is sane after sanitising, and the sane rows are the ones that it leaves as they are.
pub sanitise_result_lem :
    (r : Result) → IsSane (sanitise_result r) × (IsSane r ↔ (sanitise_result r ≡ r))
sanitise_result_lem r = (
  sanitise_result-IsSane r,
  (sanitise_result_id r, λ e. subst IsSane e (sanitise_result-IsSane r)),
)

-- The bytes at which a spreadsheet takes a cell for a formula.
abbrev pub starts_formula : Str → Bool
starts_formula [] = false
starts_formula (c ∷ s) = c == b'=' || c == b'+' || c == b'-' || c == b'@' || c == 9 || c == 13

-- A written cell never starts a formula, and it is the value itself where that is safe, or the
-- value behind one apostrophe where it is not.
pub csv_safe_lem :
    (s : Str)
    → (starts_formula (csv_safe s) ≡ false)
      × (csv_safe s ≡ (if starts_formula s then 39 ∷ s else s))
unfolding csv_safe
csv_safe_lem [] = (refl, refl)
csv_safe_lem (c ∷ s) = ground arith

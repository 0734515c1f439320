-- ===== src/Handler/Sanitise.antt =====
-- internal/handler/results_handler.go: how the values of a client are bounded before a row is
-- stored, and how a cell is written to a spreadsheet.
pub mod Ranges
pub mod Utf8
use speedtest_go.Base.{
  ℕ, zero, suc, ◌+◌, ◌-◌, ◌≤◌, ◌<◌, ◌≡◌, refl, Bool, true, false, ◌&&◌, ◌||◌, not, Option, none,
  some, List, [], ◌∷◌, Str, str, str_eq, is_empty, if◌then◌else◌, ◌==◌, leb, ltb, length, take,
  get_or, arith,
}
use speedtest_go.Base.Int.{ℤ, pos, ltb_ℤ}
use speedtest_go.Golang.Strconv.{atoi}
use speedtest_go.Golang.Float.{Float, is_nan, is_inf, ltf, of_ℕ}
use speedtest_go.Store.{Result}

unfoldable pub clamp_float : Float → Float → Float → Float
unfolding is_nan is_inf ltf
clamp_float v lo hi =
    if is_nan v || is_inf v then lo else if ltf v lo then lo else if ltf hi v then hi else v

-- `b & 0xC0 == 0x80`
abbrev pub is_continuation : ℕ → Bool
is_continuation b = leb 0x80 b && ltb b 0xc0

-- The loop of `truncate`: back from `cut` to a byte that begins a character, or to 0.
unfoldable pub walk_back : Str → ℕ → ℕ
walk_back s zero = zero
walk_back s (suc cut) =
    let back = walk_back s cut in if is_continuation (get_or s (suc cut) 0) then back else suc cut

unfoldable pub truncate : Str → ℕ → Str
unfolding walk_back
truncate s n = if leb (length s) n then s else take (walk_back s n) s

unfoldable pub csv_safe : Str → Str
csv_safe [] = []
csv_safe (c ∷ s) =
    if c == b'=' || c == b'+' || c == b'-' || c == b'@' || c == 9 || c == 13
    then 39 ∷ c ∷ s
    else c ∷ s

-- The documented grades; any other text becomes the empty one.
unfoldable pub grade : Str → Str
unfolding str_eq
grade g =
    if str_eq g []
      || str_eq g (str "A")
      || str_eq g (str "B")
      || str_eq g (str "C")
      || str_eq g (str "D")
    then g
    else []

unfoldable pub sanitise_result : Result → Result
unfolding clamp_float grade truncate
sanitise_result r = record {
  id = pos 0;
  created_at = pos 0;
  download_mbps = clamp_float r.download_mbps (of_ℕ 0) (of_ℕ 1_000_000);
  upload_mbps = clamp_float r.upload_mbps (of_ℕ 0) (of_ℕ 1_000_000);
  latency_idle_ms = clamp_float r.latency_idle_ms (of_ℕ 0) (of_ℕ 60_000);
  latency_loaded_ms = clamp_float r.latency_loaded_ms (of_ℕ 0) (of_ℕ 60_000);
  download_jitter_ms = clamp_float r.download_jitter_ms (of_ℕ 0) (of_ℕ 60_000);
  upload_jitter_ms = clamp_float r.upload_jitter_ms (of_ℕ 0) (of_ℕ 60_000);
  packet_loss = clamp_float r.packet_loss (of_ℕ 0) (of_ℕ 100);
  bufferbloat_grade = grade r.bufferbloat_grade;
  client_ip = [];
  client_ip_location = [];
  user_agent = [];
  settings_json = truncate r.settings_json 1024;
}

unfoldable pub clamp_int : ℤ → ℤ → ℤ → ℤ
clamp_int n lo hi = if ltb_ℤ n lo then lo else if ltb_ℤ hi n then hi else n

-- `parseQueryInt`, on the value of the parameter.
unfoldable pub parse_query_int : Str → ℤ → ℤ
parse_query_int v def = if is_empty v then def else elim (atoi v) [ none ↦ def | some n ↦ n ]

-- ===== src/Store.antt =====
-- internal/store/store.go: a stored measurement, and the interface that the handlers depend on.
pub mod Order
pub mod Sqlite
use speedtest_go.Base.{ℕ, Bool, Option, List, Str}
use speedtest_go.Base.Int.{ℤ}
use speedtest_go.Golang.Float.{Float}

pub record Result : Type 0 where
  pub id : ℤ
  -- Unix milliseconds
  pub created_at : ℤ
  pub download_mbps : Float
  pub upload_mbps : Float
  pub latency_idle_ms : Float
  pub latency_loaded_ms : Float
  pub download_jitter_ms : Float
  pub upload_jitter_ms : Float
  pub packet_loss : Float
  pub bufferbloat_grade : Str
  pub client_ip : Str
  pub client_ip_location : Str
  pub user_agent : Str
  pub settings_json : Str

-- `store.Store`. A method takes the store's state and gives its result, none where the code
-- returns an error, with the state after it. `now` is the clock, in Unix milliseconds.
pub record Store : Type 1 where
  pub State : Type 0
  pub save : State → (now : ℤ) → Result → Option Result × State
  pub list : State → (limit : ℤ) → (offset : ℤ) → Option (List Result)
  pub count : State → Option ℤ
  pub delete : State → (id : ℤ) → Option Bool × State
  pub delete_all : State → Option ℤ × State
  pub prune_older_than : State → (cutoff : ℤ) → Option ℤ × State

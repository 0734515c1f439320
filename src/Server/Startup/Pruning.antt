-- ===== src/Server/Startup/Pruning.antt =====
-- The prune of the history at the start.
use speedtest_go.Base.{
  ℕ, ◌-◌, ◌*◌, ◌/◌, ◌≤◌, ◌≡◌, ◌≢◌, refl, ap, ◌∙◌, Bool, true, false, not, none, some, [], ◌∷◌, Str,
  is_empty, if◌then◌else◌, arith,
}
use speedtest_go.Base.Int.{ℤ, pos, negsuc, wrap64_id, ltb_ℤ, ◌+ℤ◌, ◌-ℤ◌, ◌*ℤ◌, wrap64}
use speedtest_go.Config.{Config}
use speedtest_go.Store.Sqlite.{sqlite, prune_older_than}
use speedtest_go.Store.Sqlite.Database.{Engine, IsSql, keep}
use speedtest_go.Store.Sqlite.Deletes.{is_stale, prune_older_than-rows}
use speedtest_go.Handler.State.{BuildInfo}
use speedtest_go.Server.Startup.{cutoff, unix_milli, Machine, opened_history, history, start}

minus_days : (n : ℕ) → 1 ≤ n → pos 0 -ℤ pos n ≡ negsuc (n - 1)
unfolding ◌-ℤ◌
minus_days n low = ground arith

in_hours : (n : ℕ) → 1 ≤ n → negsuc (n - 1) *ℤ pos 24 ≡ negsuc (n * 24 - 1)
unfolding ◌*ℤ◌
in_hours n low = ground arith

in_nanoseconds :
    (n : ℕ) → 1 ≤ n → negsuc (n - 1) *ℤ pos 3_600_000_000_000 ≡ negsuc (n * 3_600_000_000_000 - 1)
unfolding ◌*ℤ◌
in_nanoseconds n low = ground arith

back_from : (now k : ℕ) → 1 ≤ k → k ≤ now → pos now +ℤ negsuc (k - 1) ≡ pos (now - k)
unfolding ◌+ℤ◌
back_from now k low past = ground arith

-- In milliseconds, a day is 86,400,000; no step of the computation overflows.
cutoff_exact :
    (now n : ℕ)
    → 1 ≤ n
    → n ≤ 3650
    → n * 86_400_000_000_000 ≤ now
    → cutoff now (pos n) ≡ pos (now / 1_000_000 - n * 86_400_000)
unfolding cutoff
cutoff_exact now n low high past =
    let hours : wrap64 ((pos 0 -ℤ pos n) *ℤ pos 24) ≡ negsuc (n * 24 - 1) =
      ap (λ z. wrap64 (z *ℤ pos 24)) (minus_days n low)
      ∙ ap wrap64 (in_hours n low)
      ∙ wrap64_id (negsuc (n * 24 - 1)) (omega arith, omega arith) in
    let back : wrap64 (wrap64 ((pos 0 -ℤ pos n) *ℤ pos 24) *ℤ pos 3_600_000_000_000)
        ≡ negsuc (n * 24 * 3_600_000_000_000 - 1) =
      ap (λ z. wrap64 (z *ℤ pos 3_600_000_000_000)) hours
      ∙ ap wrap64 (in_nanoseconds (n * 24) (omega arith))
      ∙ wrap64_id (negsuc (n * 24 * 3_600_000_000_000 - 1)) (omega arith, omega arith) in
    ap (λ z. unix_milli (pos now +ℤ z)) back
    ∙ ap unix_milli (back_from now (n * 24 * 3_600_000_000_000) (omega arith) (omega arith))
    ∙ ap pos (omega arith)

pub has_text : (s : Str) → s ≢ [] → is_empty s ≡ false
has_text [] h = absurd (h refl)
has_text (c ∷ s) h = refl

pruned_history :
    (e : Engine) (cfg : Config) (now : ℕ) (d d' : e.Db) (n : ℕ) (k : ℤ)
    → cfg.history_retention_days ≡ pos n
    → 1 ≤ n
    → prune_older_than e d (cutoff now (pos n)) ≡ (some k, d')
    → opened_history (sqlite e) cfg now (some d) ≡ some d'
unfolding opened_history
pruned_history e cfg now d d' n k days low h =
    let kept = λ (b : Bool) (c : ℤ). if b then some (prune_older_than e d c).1 else some d in
    let positive : ltb_ℤ (pos 0) (pos n) ≡ true = ground arith in
    ap (λ z. kept (ltb_ℤ (pos 0) z) (cutoff now z)) days
    ∙ ap (λ b. kept b (cutoff now (pos n))) positive
    ∙ ap (λ t. some t.1) h

module _ (e : Engine) (sql : IsSql e) where
  -- At a start with a database and a retention of 1 to 3650 days, if the prune reports no error, then
  -- the history that the server works on holds exactly the rows of the file that are at most that many
  -- days old, to the millisecond.
  pub start-pruned :
      (build : BuildInfo) (cfg : Config) (m : Machine (sqlite e)) (d d' : e.Db) (n : ℕ) (k : ℤ)
      → cfg.db_path ≢ []
      → m.open_store cfg.db_path ≡ some d
      → cfg.history_retention_days ≡ pos n
      → 1 ≤ n
      → n ≤ 3650
      → n * 86_400_000_000_000 ≤ m.now
      → prune_older_than e d (cutoff m.now (pos n)) ≡ (some k, d')
      → ((start (sqlite e) build cfg m).history ≡ some d')
        × (sql.rows d'
            ≡ keep (λ r. not (is_stale (pos (m.now / 1_000_000 - n * 86_400_000)) r)) (sql.rows d))
  unfolding start history
  start-pruned build cfg m d d' n k path opened days low high past h = (
    ap (λ b. if b then none else opened_history (sqlite e) cfg m.now (m.open_store cfg.db_path))
          (has_text cfg.db_path path)
        ∙ ap (opened_history (sqlite e) cfg m.now) opened
        ∙ pruned_history e cfg m.now d d' n k days low h,
    (prune_older_than-rows e sql d (cutoff m.now (pos n)) k d' h).0
        ∙ ap (λ c. keep (λ r. not (is_stale c r)) (sql.rows d))
            (cutoff_exact m.now n low high past),
  )

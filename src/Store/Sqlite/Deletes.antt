-- ===== src/Store/Sqlite/Deletes.antt =====
-- What the deletions of the store remove, where the engine keeps what SQL says.
use mathlib.Core.Option.{some-injective, none-ne-some}
use speedtest_go.Base.{
  ℕ, ◌+◌, ◌≡◌, ◌∙◌, refl, Bool, true, false, not, ◌&&◌, Option, none, some, List, [], ◌∷◌,
  if◌then◌else◌, length, arith, Bool-cases, inl, inr, ap, sym, ltb,
}
use speedtest_go.Base.Int.{ℤ, pos, ltb_ℤ, leb_ℤ, ==ℤ}
use speedtest_go.Store.{Result}
use speedtest_go.Store.Sqlite.{affected, positive, delete, prune_older_than}
use speedtest_go.Store.Sqlite.Database.{Engine, Exec, failed, done, IsSql, keep}

abbrev pub has : (Result → Bool) → List Result → Bool
has p [] = false
has p (r ∷ rows) = if p r then true else has p rows

has-keep : (p : Result → Bool) (rows : List Result) → ltb 0 (length (keep p rows)) ≡ has p rows
has-keep p [] = refl
has-keep p (r ∷ rows) = elim (Bool-cases (p r)) [
  | inl hit ↦ rw hit (ground arith)
  | inr miss ↦ rw miss (has-keep p rows)
]

length-keep :
    (p : Result → Bool) (rows : List Result)
    → length (keep (λ r. not (p r)) rows) + length (keep p rows) ≡ length rows
length-keep p [] = refl
length-keep p (r ∷ rows) = elim (Bool-cases (p r)) [
  | inl hit ↦ rw hit (omega (arith, length-keep p rows))
  | inr miss ↦ rw miss (omega (arith, length-keep p rows))
]

keep_all : (rows : List Result) → keep (λ r. true) rows ≡ rows
keep_all [] = refl
keep_all (r ∷ rows) = ap (λ t. r ∷ t) (keep_all rows)

keep_none : (rows : List Result) → keep (λ r. false) rows ≡ []
keep_none [] = refl
keep_none (r ∷ rows) = keep_none rows

counted : (n : ℕ) → ltb_ℤ (pos 0) (pos n) ≡ ltb 0 n
counted n = ground arith

abbrev pub is_older : ℤ → Result → Bool
is_older cutoff r = ltb_ℤ r.created_at cutoff

-- A cutoff of 0 or less stands for no cutoff.
abbrev pub is_stale : ℤ → Result → Bool
is_stale cutoff r = not (leb_ℤ cutoff (pos 0)) && is_older cutoff r

module _ (e : Engine) where
  affected_done :
      (d : e.Db) (x : Exec e.Db) (n : ℤ) (d' : e.Db)
      → affected e d x ≡ (some n, d')
      → x ≡ done d' (some n)
  unfolding affected
  affected_done d failed n d' h = absurd (none-ne-some n (ap (λ t. t.0) h))
  affected_done d (done d₁ none) n d' h = absurd (none-ne-some n (ap (λ t. t.0) h))
  affected_done d (done d₁ (some m)) n d' h = λ i. done ((h i).1) ((h i).0)

  positive_outcome :
      (x : Option ℤ × e.Db) (b : Bool) (d' : e.Db)
      → positive e x ≡ (some b, d')
      → (n : ℤ) × (x ≡ (some n, d')) × (b ≡ ltb_ℤ (pos 0) n)
  positive_outcome (none, d) b d' h = absurd (none-ne-some b (ap (λ t. t.0) h))
  positive_outcome (some n, d) b d' h =
      (n, (λ i. (some n, (h i).1)), sym (some-injective (ltb_ℤ (pos 0) n) b (ap (λ t. t.0) h)))

module _ (e : Engine) (sql : IsSql e) where
  -- A deletion by id that reports no error removes exactly the rows with that id, and reports true
  -- exactly if there was one.
  pub delete-rows :
      (d : e.Db) (id : ℤ) (b : Bool) (d' : e.Db)
      → delete e d id ≡ (some b, d')
      → (sql.rows d' ≡ keep (λ r. not (==ℤ r.id id)) (sql.rows d))
        × (b ≡ has (λ r. ==ℤ r.id id) (sql.rows d))
  unfolding delete
  delete-rows d id b d' h =
      let (n, same, told) = positive_outcome e (affected e d (e.delete_id d id)) b d' h in
      let (rest, number) =
        sql.delete_id_rows d id d' n (affected_done e d (e.delete_id d id) n d' same) in
      (
        rest,
        told ∙ ap (ltb_ℤ (pos 0)) number ∙ counted _ ∙ has-keep (λ r. ==ℤ r.id id) (sql.rows d),
      )

  prune_outcome :
      (d : e.Db) (cutoff n : ℤ) (d' : e.Db) (b : Bool)
      → (if b then (some (pos 0), d) else affected e d (e.delete_before d cutoff)) ≡ (some n, d')
      → let stale = (λ (r : Result). not b && is_older cutoff r) in
        (sql.rows d' ≡ keep (λ r. not (stale r)) (sql.rows d))
        × (n ≡ pos (length (keep stale (sql.rows d))))
  prune_outcome d cutoff n d' true h = (
    ap (λ t. sql.rows t.1) (sym h) ∙ sym (keep_all (sql.rows d)),
    sym (some-injective (pos 0) n (ap (λ t. t.0) h))
        ∙ ap (λ k. pos (length k)) (sym (keep_none (sql.rows d))),
  )
  prune_outcome d cutoff n d' false h =
      sql.delete_before_rows d cutoff d' n (affected_done e d (e.delete_before d cutoff) n d' h)

  -- A prune that reports no error keeps exactly the rows that are not older than the cutoff, and
  -- reports how many went; a cutoff of 0 or less removes nothing.
  pub prune_older_than-rows :
      (d : e.Db) (cutoff n : ℤ) (d' : e.Db)
      → prune_older_than e d cutoff ≡ (some n, d')
      → (sql.rows d' ≡ keep (λ r. not (is_stale cutoff r)) (sql.rows d))
        × (n ≡ pos (length (keep (is_stale cutoff) (sql.rows d))))
        × (length (sql.rows d') + length (keep (is_stale cutoff) (sql.rows d))
            ≡ length (sql.rows d))
  unfolding prune_older_than
  prune_older_than-rows d cutoff n d' h =
      let (rest, number) = prune_outcome d cutoff n d' (leb_ℤ cutoff (pos 0)) h in
      (
        rest,
        number,
        ap (λ rows. length rows + length (keep (is_stale cutoff) (sql.rows d))) rest
            ∙ length-keep (is_stale cutoff) (sql.rows d),
      )

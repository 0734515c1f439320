-- ===== src/Store/Sqlite/Laws.antt =====
-- What the store's operations do to the rows of the table, where the engine keeps what SQL says.
use speedtest_go.Base.{
  ℕ, zero, suc, ◌+◌, ◌≡◌, ◌∙◌, refl, Bool, true, false, Option, none, some, List, [], ◌∷◌, ◌++◌,
  map, if◌then◌else◌, take, drop, arith, ap, sym, subst,
}
use native.Mathlib.Numerals.{unary_clauses}
use mathlib.Core.List.{Perm}
use mathlib.Core.Option.{some-injective, none-ne-some}
use speedtest_go.Base.Int.{ℤ, pos, negsuc, pos_part, ltb_ℤ, leb_ℤ, ◌<ℤ◌}
use speedtest_go.Store.{Result}
use speedtest_go.Store.Order.{
  newest_first, newest_first-Perm, newest_first-IsNewestFirst, take-IsNewestFirst,
  drop-IsNewestFirst, IsNewestFirst,
}
use speedtest_go.Store.Sqlite.{stamp, saved, save, scan_rows, list}
use speedtest_go.Store.Sqlite.Database.{Engine, Exec, failed, done, Rows, IsSql}

take_add : (n m : ℕ) (rows : List Result) → take n rows ++ take m (drop n rows) ≡ take (n + m) rows
take_add zero m rows = let plain : 0 + m ≡ m = omega arith in rw plain refl
take_add (suc n) zero [] = simp unary_clauses refl
take_add (suc n) (suc m) [] = simp unary_clauses refl
take_add (suc n) m (r ∷ rows) =
    let plain : suc n + m ≡ suc (n + m) = omega arith in
    rw plain (ap (λ rest. r ∷ rest) (take_add n m rows))

drop_add : (k n : ℕ) (rows : List Result) → drop (k + n) rows ≡ drop n (drop k rows)
drop_add zero n rows = let plain : 0 + n ≡ n = omega arith in rw plain refl
drop_add (suc k) zero [] = simp unary_clauses refl
drop_add (suc k) (suc n) [] = simp unary_clauses refl
drop_add (suc k) n (r ∷ rows) =
    let plain : suc k + n ≡ suc (k + n) = omega arith in rw plain (drop_add k n rows)

guarded :
    (b : Bool) (x : Option (List Result)) (page : List Result)
    → (if b then none else x) ≡ some page
    → (b ≡ false) × (x ≡ some page)
guarded true x page h = absurd (none-ne-some page h)
guarded false x page h = (refl, h)

-- The rows that scan.
scanned : List (Option Result) → List Result
scanned [] = []
scanned (none ∷ items) = scanned items
scanned (some r ∷ items) = r ∷ scanned items

scanned-some : (rows : List Result) → scanned (map some rows) ≡ rows
unfolding scanned
scanned-some [] = refl
scanned-some (r ∷ rows) = ap (λ t. r ∷ t) (scanned-some rows)

module _ (e : Engine) where
  scan_cons :
      (r : Result) (out : List Result) (rest : Option (List Result))
      → (elim rest [ none ↦ none | some tail ↦ some (r ∷ tail) ]) ≡ some out
      → (tail : List Result) × (rest ≡ some tail) × (r ∷ tail ≡ out)
  scan_cons r out none h = absurd (none-ne-some out h)
  scan_cons r out (some tail) h = (tail, refl, some-injective (r ∷ tail) out h)

  scan_rows_lem :
      (items : List (Option Result)) (out : List Result) (err : Bool)
      → scan_rows e items err ≡ some out
      → (err ≡ false) × (items ≡ map some out)
  unfolding scan_rows
  scan_rows_lem [] out true h = absurd (none-ne-some out h)
  scan_rows_lem [] out false h = (refl, ap (map some) (some-injective [] out h))
  scan_rows_lem (none ∷ items) out err h = absurd (none-ne-some out h)
  scan_rows_lem (some r ∷ items) out err h =
      let (tail, rest, same) = scan_cons r out (scan_rows e items err) h in
      let (clean, all) = scan_rows_lem items tail err rest in
      (clean, ap (λ t. some r ∷ t) all ∙ ap (map some) same)

module _ (e : Engine) (sql : IsSql e) where
  saved_rows :
      (d : e.Db) (r s : Result) (d' : e.Db) (x : Exec e.Db)
      → e.insert d r ≡ x
      → saved e r d x ≡ (some s, d')
      → (sql.rows d' ≡ s ∷ sql.rows d) × (s ≡ record r { id = s.id })
  unfolding saved
  saved_rows d r s d' failed q h = absurd (none-ne-some s (ap (λ t. t.0) h))
  saved_rows d r s d' (done d₁ none) q h = absurd (none-ne-some s (ap (λ t. t.0) h))
  saved_rows d r s d' (done d₁ (some id)) q h =
      let same : record r { id = id } ≡ s = some-injective _ s (ap (λ t. t.0) h) in
      let after : d₁ ≡ d' = ap (λ t. t.1) h in
      (
        ap (λ t. sql.rows t) (sym after)
            ∙ sql.insert_rows d r d₁ id q
            ∙ ap (λ t. t ∷ sql.rows d) same,
        sym same ∙ (λ i. record r { id = (same i).id }),
      )

  -- A save that reports a result has added exactly that row: the given one, with the id that the
  -- database chose, and stamped with the time if it had none.
  pub save-rows :
      (d : e.Db) (now : ℤ) (r s : Result) (d' : e.Db)
      → save e d now r ≡ (some s, d')
      → (sql.rows d' ≡ s ∷ sql.rows d) × (s ≡ record (stamp e now r) { id = s.id })
  unfolding save
  save-rows d now r s d' h = saved_rows d (stamp e now r) s d' (e.insert d (stamp e now r)) refl h

  found_page :
      (d : e.Db) (limit offset : ℤ) (page : List Result) (x : Option Rows)
      → e.query d limit offset ≡ x
      → (elim x [ none ↦ none | some found ↦ scan_rows e found.items found.err ]) ≡ some page
      → page ≡ take (pos_part limit) (drop (pos_part offset) (newest_first (sql.rows d)))
  found_page d limit offset page none q h = absurd (none-ne-some page h)
  found_page d limit offset page (some found) q h =
      let (clean, all) = scan_rows_lem e found.items page found.err h in
      let rows = take (pos_part limit) (drop (pos_part offset) (newest_first (sql.rows d))) in
      let law : found.items ≡ map some rows = sql.query_items d limit offset found q clean in
      sym (scanned-some page) ∙ ap scanned (sym all ∙ law) ∙ scanned-some rows

  clamped :
      (offset : ℤ) → pos_part (if ltb_ℤ offset (pos 0) then pos 0 else offset) ≡ pos_part offset
  clamped (pos n) = ground arith
  clamped (negsuc n) = ground arith

  -- A page that a listing gives holds the rows of the table from the offset on, newest first and at
  -- most the limit of them, where an offset below 0 counts as 0; a limit of 0 or less gives an error.
  pub list-page :
      (d : e.Db) (limit offset : ℤ) (page : List Result)
      → list e d limit offset ≡ some page
      → (pos 0 <ℤ limit)
        × (page ≡ take (pos_part limit) (drop (pos_part offset) (newest_first (sql.rows d))))
        × IsNewestFirst page
        × Perm (newest_first (sql.rows d)) (sql.rows d)
  unfolding list
  list-page d limit offset page h =
      let from = if ltb_ℤ offset (pos 0) then pos 0 else offset in
      let (high, found) = guarded (leb_ℤ limit (pos 0)) _ page h in
      let rows = newest_first (sql.rows d) in
      let same : page ≡ take (pos_part limit) (drop (pos_part offset) rows) =
        found_page d limit from page (e.query d limit from) refl found
        ∙ ap (λ k. take (pos_part limit) (drop k rows)) (clamped offset) in
      (
        ground (arith, high),
        same,
        subst IsNewestFirst (sym same) (
            take-IsNewestFirst (pos_part limit) (drop (pos_part offset) rows) (
              drop-IsNewestFirst (pos_part offset) rows (newest_first-IsNewestFirst (sql.rows d)))),
        newest_first-Perm (sql.rows d),
      )

  -- Two pages that follow each other are the page of both limits: none of their rows is shown twice
  -- and none is left out.
  pub list-adjacent :
      (d : e.Db) (n m k : ℕ) (page next : List Result)
      → list e d (pos n) (pos k) ≡ some page
      → list e d (pos m) (pos (k + n)) ≡ some next
      → page ++ next ≡ take (n + m) (drop k (newest_first (sql.rows d)))
  list-adjacent d n m k page next h g =
      rw ((list-page d (pos n) (pos k) page h).1, (list-page d (pos m) (pos (k + n)) next g).1)
        (rw (drop_add k n (newest_first (sql.rows d)))
          (take_add n m (drop k (newest_first (sql.rows d)))))

-- ===== src/Store/Order.antt =====
-- The order in which results are listed: newest first, and the higher id first at one time.
use speedtest_go.Base.{
  ℕ, zero, suc, ◌≡◌, Bool, true, false, ◌&&◌, ◌||◌, List, [], ◌∷◌, if◌then◌else◌, arith, take, drop,
  Bool-cases, inl, inr,
}
use mathlib.Core.List.{Perm}
use mathlib.Core.List.Perm
use speedtest_go.Base.Int.{ltb_ℤ, leb_ℤ, ==ℤ}
use speedtest_go.Store.{Result}

abbrev pub before : Result → Result → Bool
before r s = ltb_ℤ s.created_at r.created_at || (==ℤ r.created_at s.created_at && leb_ℤ s.id r.id)

insert_sorted : Result → List Result → List Result
insert_sorted r [] = r ∷ []
insert_sorted r (s ∷ rows) = if before r s then r ∷ s ∷ rows else s ∷ insert_sorted r rows

unfoldable pub newest_first : List Result → List Result
unfolding insert_sorted
newest_first [] = []
newest_first (r ∷ rows) = insert_sorted r (newest_first rows)

-- Each row comes before all that follow it.
abbrev pub AllBefore : Result → List Result → Type 0
AllBefore r [] = Unit {0}
AllBefore r (s ∷ rows) = (before r s ≡ true) × AllBefore r rows

abbrev pub IsNewestFirst : List Result → Type 0
IsNewestFirst [] = Unit {0}
IsNewestFirst (r ∷ rows) = AllBefore r rows × IsNewestFirst rows

before_trans : (r s t : Result) → before r s ≡ true → before s t ≡ true → before r t ≡ true
before_trans r s t h k = ground arith

before_total : (r s : Result) → before r s ≡ false → before s r ≡ true
before_total r s h = ground arith

AllBefore-trans :
    (r s : Result) (rows : List Result) → before r s ≡ true → AllBefore s rows → AllBefore r rows
AllBefore-trans r s [] h k = tt
AllBefore-trans r s (t ∷ rows) h k = (before_trans r s t h k.0, AllBefore-trans r s rows h k.1)

AllBefore-insert :
    (q r : Result) (rows : List Result)
    → before q r ≡ true
    → AllBefore q rows
    → AllBefore q (insert_sorted r rows)
unfolding insert_sorted
AllBefore-insert q r [] h k = (h, tt)
AllBefore-insert q r (s ∷ rows) h k = elim (Bool-cases (before r s)) [
  | inl first ↦ rw first (h, k)
  | inr later ↦ rw later (k.0, AllBefore-insert q r rows h k.1)
]

insert_sorted-IsNewestFirst :
    (r : Result) (rows : List Result) → IsNewestFirst rows → IsNewestFirst (insert_sorted r rows)
unfolding insert_sorted
insert_sorted-IsNewestFirst r [] h = (tt, tt)
insert_sorted-IsNewestFirst r (s ∷ rows) h = elim (Bool-cases (before r s)) [
  | inl first ↦ rw first ((first, AllBefore-trans r s rows first h.0), h)
  | inr later ↦ rw later (
    AllBefore-insert s r rows (before_total r s later) h.0,
    insert_sorted-IsNewestFirst r rows h.1,
  )
]

pub newest_first-IsNewestFirst : (rows : List Result) → IsNewestFirst (newest_first rows)
unfolding newest_first
newest_first-IsNewestFirst [] = tt
newest_first-IsNewestFirst (r ∷ rows) =
    insert_sorted-IsNewestFirst r (newest_first rows) (newest_first-IsNewestFirst rows)

AllBefore-take :
    (r : Result) (n : ℕ) (rows : List Result) → AllBefore r rows → AllBefore r (take n rows)
AllBefore-take r zero rows h = tt
AllBefore-take r (suc n) [] h = tt
AllBefore-take r (suc n) (s ∷ rows) h = (h.0, AllBefore-take r n rows h.1)

pub take-IsNewestFirst :
    (n : ℕ) (rows : List Result) → IsNewestFirst rows → IsNewestFirst (take n rows)
take-IsNewestFirst zero rows h = tt
take-IsNewestFirst (suc n) [] h = tt
take-IsNewestFirst (suc n) (s ∷ rows) h =
    (AllBefore-take s n rows h.0, take-IsNewestFirst n rows h.1)

pub drop-IsNewestFirst :
    (n : ℕ) (rows : List Result) → IsNewestFirst rows → IsNewestFirst (drop n rows)
drop-IsNewestFirst zero rows h = h
drop-IsNewestFirst (suc n) [] h = tt
drop-IsNewestFirst (suc n) (s ∷ rows) h = drop-IsNewestFirst n rows h.1

insert_sorted-Perm : (r : Result) (rows : List Result) → Perm (insert_sorted r rows) (r ∷ rows)
unfolding insert_sorted
insert_sorted-Perm r [] = Perm.refl (r ∷ [])
insert_sorted-Perm r (s ∷ rows) = elim (Bool-cases (before r s)) [
  | inl first ↦ rw first (Perm.refl (r ∷ s ∷ rows))
  | inr later ↦ rw later (Perm.trans (Perm.cons s (insert_sorted-Perm r rows)) (Perm.swap r s rows))
]

pub newest_first-Perm : (rows : List Result) → Perm (newest_first rows) rows
unfolding newest_first
newest_first-Perm [] = Perm.refl []
newest_first-Perm (r ∷ rows) =
    Perm.trans (insert_sorted-Perm r (newest_first rows)) (Perm.cons r (newest_first-Perm rows))

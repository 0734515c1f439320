-- ===== src/Handler/Download/Loops.antt =====
-- The two streaming loops end, and how much they send.
use speedtest_go.Base.{
  ℕ, zero, suc, ◌+◌, ◌-◌, ◌*◌, ◌≤◌, ◌<◌, ◌≡◌, refl, subst, ◌⊎◌, inl, inr, true, false, Option, some,
  if◌then◌else◌, ltb, arith, Bool-cases, ltb→lt,
}
use speedtest_go.Base.Int.{ℤ, pos, ◌≤ℤ◌, ◌+ℤ◌, pos_part, ltb_ℤ}
use speedtest_go.Handler.Download.{
  Conn, IsWriter, payload_size, write_chunk, size_loop, time_loop, download_by_size,
  download_by_time,
}

-- Some write failed.
abbrev pub Failed : Conn → Type 0
Failed c = (i : ℕ) × (n : ℕ) × ((c.write i n).1 ≡ true)

-- The loop ends, between what was sent before and the total, and with the total unless a write failed.
abbrev SizeLoop : Conn → ℕ → ℕ → Option ℕ → Type 0
SizeLoop c total written r =
    (k : ℕ) × (r ≡ some k) × (written ≤ k) × (k ≤ total) × ((k ≡ total) ⊎ Failed c)

-- One round writes n bytes that are still wanted, and `rest` is the loop after it.
size_round :
    (c : Conn) (i total written n : ℕ) (rest : ℕ → Option ℕ)
    → IsWriter c
    → written + n ≤ total
    → ((m : ℕ) → m ≡ n → SizeLoop c total (written + m) (rest (written + m)))
    → SizeLoop c total written (
        if (c.write i n).1
        then some (written + (c.write i n).0)
        else rest (written + (c.write i n).0))
size_round c i total written n rest w high ih = elim (Bool-cases (c.write i n).1) [
  | inl bad ↦
      rw bad
        (written + (c.write i n).0, refl, omega arith, omega (arith, (w i n).0), inr (i, n, bad))
  | inr good ↦
      let (k, e, low, high', end) = ih (c.write i n).0 ((w i n).1 good) in
      rw good (k, e, omega arith, high', end)
]

abbrev block : ℕ → ℕ → ℕ
block total written = if ltb total (written + payload_size) then total - written else payload_size

block_bounds :
    (total written : ℕ)
    → written < total
    → (1 ≤ block total written) × (written + block total written ≤ total)
block_bounds total written h = ground arith

size_loop_lem :
    (fuel : ℕ) (c : Conn) (i total written : ℕ)
    → IsWriter c
    → written ≤ total
    → total < fuel + written
    → SizeLoop c total written (size_loop fuel c i total written)
unfolding size_loop
size_loop_lem zero c i total written w h f = absurd (omega arith)
size_loop_lem (suc fuel) c i total written w h f = elim (Bool-cases (ltb written total)) [
  | inr done ↦ rw done (written, refl, omega arith, h, inl (ground arith))
  | inl more ↦
      let (low, high) = block_bounds total written (ltb→lt written total more) in
      rw more (
        size_round c i total written (block total written) (size_loop fuel c (i + 1) total) w high
          (λ m e. size_loop_lem fuel c (i + 1) total (written + m) w (omega arith) (omega arith)))
]

-- A size-mode download ends on every connection: it never sends more than the total, and it sends
-- exactly the total unless a write failed.
pub download_by_size_lem :
    (c : Conn) (total : ℤ)
    → IsWriter c
    → (k : ℕ) × (download_by_size c total ≡ some k)
      × (k ≤ pos_part total)
      × ((k ≡ pos_part total) ⊎ Failed c)
unfolding download_by_size
download_by_size_lem c total w =
    let (k, e, low, high, end) =
      size_loop_lem (suc (pos_part total)) c 0 (pos_part total) 0 w (omega arith) (omega arith) in
    (k, e, high, end)

-- After some rounds of a whole chunk the clock is past the deadline, or a write failed on the way.
abbrev TimeLoop : Conn → ℕ → ℤ → ℕ → ℕ → Option ℕ → Type 0
TimeLoop c i deadline written most r =
    (k : ℕ) × (rounds : ℕ) × (r ≡ some k)
    × (rounds ≤ most)
    × (k ≤ written + write_chunk * rounds)
    × (((k ≡ written + write_chunk * rounds) × (deadline ≤ℤ pos (c.clock (i + 1 + rounds))))
        ⊎ Failed c)

abbrev TimeEnd : Conn → ℕ → ℤ → ℕ → ℕ → ℕ → Type 0
TimeEnd c i deadline written rounds k =
    ((k ≡ written + write_chunk * rounds) × (deadline ≤ℤ pos (c.clock (i + 1 + rounds)))) ⊎ Failed c

time_end :
    (c : Conn) (i : ℕ) (deadline : ℤ) (written m rounds k : ℕ)
    → m ≡ write_chunk
    → TimeEnd c (i + 1) deadline (written + m) rounds k
    → TimeEnd c i deadline written (suc rounds) k
time_end c i deadline written m rounds k e (inr bad) = inr bad
time_end c i deadline written m rounds k e (inl (sum, late)) =
    let same : i + 1 + 1 + rounds ≡ i + 1 + suc rounds = omega arith in
    inl (omega arith, subst (λ n. deadline ≤ℤ pos (c.clock n)) same late)

time_round :
    (c : Conn) (i : ℕ) (deadline : ℤ) (written most : ℕ) (rest : ℕ → Option ℕ)
    → IsWriter c
    → ((m : ℕ)
        → m ≡ write_chunk
        → TimeLoop c (i + 1) deadline (written + m) most (rest (written + m)))
    → TimeLoop c i deadline written (suc most) (
        if (c.write i write_chunk).1
        then some (written + (c.write i write_chunk).0)
        else rest (written + (c.write i write_chunk).0))
time_round c i deadline written most rest w ih = elim (Bool-cases (c.write i write_chunk).1) [
  | inl bad ↦ rw bad (
    written + (c.write i write_chunk).0,
    1,
    refl,
    omega arith,
    omega (arith, (w i write_chunk).0),
    inr (i, write_chunk, bad),
  )
  | inr good ↦
      let all = (w i write_chunk).1 good in
      let (k, rounds, e, few, high, end) = ih (c.write i write_chunk).0 all in
      rw good (
        k,
        suc rounds,
        e,
        omega arith,
        omega arith,
        time_end c i deadline written _ rounds k all end,
      )
]

-- `most` bounds the rounds: the clock is past the deadline after that many.
time_loop_lem :
    (fuel : ℕ) (c : Conn) (i : ℕ) (deadline : ℤ) (written most : ℕ)
    → IsWriter c
    → most < fuel
    → deadline ≤ℤ pos (c.clock (i + 1 + most))
    → TimeLoop c i deadline written most (time_loop fuel c i deadline written)
unfolding time_loop
time_loop_lem zero c i deadline written most w f h = absurd (omega arith)
time_loop_lem (suc fuel) c i deadline written zero w f h =
    let same : i + 1 + 0 ≡ i + 1 = omega arith in
    let late = subst (λ n. deadline ≤ℤ pos (c.clock n)) same h in
    let stops : ltb_ℤ (pos (c.clock (i + 1))) deadline ≡ false = ground arith in
    rw stops (written, 0, refl, omega arith, omega arith, inl (omega arith, h))
time_loop_lem (suc fuel) c i deadline written (suc most) w f h =
    elim (Bool-cases (ltb_ℤ (pos (c.clock (i + 1))) deadline)) [
      | inr late ↦
          let same : i + 1 ≡ i + 1 + 0 = omega arith in
          let past : deadline ≤ℤ pos (c.clock (i + 1)) = ground arith in
          rw late (
            written,
            0,
            refl,
            omega arith,
            omega arith,
            inl (omega arith, subst (λ n. deadline ≤ℤ pos (c.clock n)) same past),
          )
      | inl early ↦
          let same : i + 1 + suc most ≡ i + 1 + 1 + most = omega arith in
          rw early (
            time_round c i deadline written most (time_loop fuel c (i + 1) deadline) w (λ m e.
              time_loop_lem fuel c (i + 1) deadline (written + m) most w (omega arith)
                (subst (λ n. deadline ≤ℤ pos (c.clock n)) same h)))
    ]

-- A time-mode download ends once the clock reaches its deadline. It sends whole chunks, at most one
-- for each reading of the clock until then, and stops at the deadline unless a write failed.
pub download_by_time_lem :
    (fuel : ℕ) (c : Conn) (duration : ℤ) (most : ℕ)
    → IsWriter c
    → most < fuel
    → pos (c.clock 0) +ℤ duration ≤ℤ pos (c.clock (1 + most))
    → (k : ℕ) × (rounds : ℕ) × (download_by_time fuel c duration ≡ some k)
      × (rounds ≤ most)
      × (k ≤ write_chunk * rounds)
      × (((k ≡ write_chunk * rounds) × (pos (c.clock 0) +ℤ duration ≤ℤ pos (c.clock (1 + rounds))))
          ⊎ Failed c)
unfolding download_by_time
download_by_time_lem fuel c duration most w f h =
    let (k, rounds, e, few, high, end) =
      time_loop_lem fuel c 0 (pos (c.clock 0) +ℤ duration) 0 most w f h in
    (k, rounds, e, few, omega arith, end_of k rounds end)
  where
    end_of :
        (k rounds : ℕ)
        → TimeEnd c 0 (pos (c.clock 0) +ℤ duration) 0 rounds k
        → ((k ≡ write_chunk * rounds) × (pos (c.clock 0) +ℤ duration ≤ℤ pos (c.clock (1 + rounds))))
          ⊎ Failed c
    end_of k rounds (inl (sum, late)) = inl (omega arith, late)
    end_of k rounds (inr bad) = inr bad

-- ===== src/Handler/Download/Outcome.antt =====
-- A whole run of `DownloadHandler`: what it replies, and the state that it leaves.
use speedtest_go.Base.{ℕ, ◌+◌, ◌*◌, ◌≤◌, ◌<◌, ◌≡◌, ◌∙◌, ap, ◌⊎◌, Bool, true, false, some, str}
use speedtest_go.Base.Int.{ℤ, pos, ◌≤ℤ◌, ◌+ℤ◌, pos_part}
use speedtest_go.Handler.Http.{get, Request, Reply, Body, success, http_error}
use speedtest_go.Handler.Metrics.{down, Metrics, record_admission}
use speedtest_go.Handler.State.{Handler, acquire}
use speedtest_go.Handler.Tested.{
  Tested, Refused, after_test, after_handler, release-acquire, after_handler-Tested, acquire_room,
  acquire_full, acquire-cfg,
}
use speedtest_go.Handler.Download.{
  Conn, IsWriter, Plan, by_size, by_time, plan, plan_headers, stream, served, finish, admitted,
  by_method, download_handler,
}
use speedtest_go.Handler.Download.Loops.{Failed, download_by_size_lem, download_by_time_lem}

-- The reply to a GET that found a slot, once `sent` bytes went out.
abbrev pub reply_of : Plan → ℕ → Reply (Body ℕ)
reply_of p sent = record { status = 200; headers = plan_headers p; body = success sent }

pair_split : (h : Handler) (b : Bool) → (acquire h).1 ≡ b → acquire h ≡ ((acquire h).0, b)
pair_split h b e i = ((acquire h).0, e i)

download_run :
    (fuel : ℕ) (h : Handler) (c : Conn) (r : Request) (elapsed sent : ℕ) (m : Metrics)
    → r.method ≡ get
    → h.sem.len < h.sem.cap
    → h.metrics ≡ some m
    → stream fuel c (plan h.cfg r.query) ≡ some sent
    → download_handler fuel h c r elapsed
      ≡ some (reply_of (plan h.cfg r.query) sent, after_handler down sent elapsed h m)
unfolding download_handler by_method admitted served finish
download_run fuel h c r elapsed sent m g room e s =
    ap (λ method. by_method method fuel h c r elapsed) g
    ∙ rw (pair_split h true (acquire_room h room))
        (rw (acquire-cfg h) (rw s (rw (release-acquire down sent elapsed h m e room, served))))

-- A GET that finds a free slot and is served by size ends on every connection with status 200. Its
-- body is no longer than the total, and as long unless a write failed. The slot is free again, and
-- the test is counted once as accepted and observed once with the bytes that it sent.
pub download_handler_size :
    (fuel : ℕ) (h : Handler) (c : Conn) (r : Request) (elapsed : ℕ) (m : Metrics) (total : ℤ)
    → r.method ≡ get
    → h.sem.len < h.sem.cap
    → h.metrics ≡ some m
    → IsWriter c
    → plan h.cfg r.query ≡ by_size total
    → (sent : ℕ) × (h' : Handler) × (m' : Metrics) × (download_handler fuel h c r elapsed
        ≡ some (reply_of (by_size total) sent, h'))
      × Tested down sent h h' m m'
      × (sent ≤ pos_part total)
      × ((sent ≡ pos_part total) ⊎ Failed c)
unfolding stream
download_handler_size fuel h c r elapsed m total g room e w p =
    let (sent, q, high, end) = download_by_size_lem c total w in
    (
      sent,
      after_handler down sent elapsed h m,
      after_test down sent elapsed m,
      download_run fuel h c r elapsed sent m g room e (ap (stream fuel c) p ∙ q)
          ∙ ap (λ t. some (reply_of t sent, after_handler down sent elapsed h m)) p,
      after_handler-Tested down sent elapsed h m,
      high,
      end,
    )

-- A GET that finds a free slot and is served by time ends with status 200 once the clock reaches
-- its deadline, here after at most `most` more readings. It sends one chunk of 64 KiB for each reading
-- but the one that shows the deadline, unless a write failed, and never more than that. The slot is
-- free again, and the test is counted once as accepted and observed once.
pub download_handler_time :
    (fuel : ℕ) (h : Handler) (c : Conn) (r : Request) (elapsed : ℕ) (m : Metrics) (d : ℤ) (most : ℕ)
    → r.method ≡ get
    → h.sem.len < h.sem.cap
    → h.metrics ≡ some m
    → IsWriter c
    → plan h.cfg r.query ≡ by_time d
    → most < fuel
    → pos (c.clock 0) +ℤ d ≤ℤ pos (c.clock (1 + most))
    → (sent : ℕ) × (rounds : ℕ) × (h' : Handler) × (m' : Metrics) × (download_handler fuel h c r
          elapsed
        ≡ some (reply_of (by_time d) sent, h'))
      × Tested down sent h h' m m'
      × (rounds ≤ most)
      × (sent ≤ 65_536 * rounds)
      × (((sent ≡ 65_536 * rounds) × (pos (c.clock 0) +ℤ d ≤ℤ pos (c.clock (1 + rounds))))
          ⊎ Failed c)
unfolding stream
download_handler_time fuel h c r elapsed m d most g room e w p f late =
    let (sent, rounds, q, few, high, end) = download_by_time_lem fuel c d most w f late in
    (
      sent,
      rounds,
      after_handler down sent elapsed h m,
      after_test down sent elapsed m,
      download_run fuel h c r elapsed sent m g room e (ap (stream fuel c) p ∙ q)
          ∙ ap (λ t. some (reply_of t sent, after_handler down sent elapsed h m)) p,
      after_handler-Tested down sent elapsed h m,
      few,
      high,
      end,
    )

busy :
    (fuel : ℕ) (h : Handler) (c : Conn) (r : Request) (elapsed : ℕ)
    → (acquire h).1 ≡ false
    → by_method get fuel h c r elapsed ≡ some (http_error (str "server busy") 503, (acquire h).0)
unfolding by_method admitted
busy fuel h c r elapsed e = rw (pair_split h false e)

-- A GET at a full semaphore gets 503, takes no slot, and counts as rejected only.
download_handler_busy :
    (fuel : ℕ) (h : Handler) (c : Conn) (r : Request) (elapsed : ℕ) (m : Metrics)
    → h.metrics ≡ some m
    → r.method ≡ get
    → h.sem.cap ≤ h.sem.len
    → (h' : Handler) × (m' : Metrics) × (download_handler fuel h c r elapsed
        ≡ some (http_error (str "server busy") 503, h'))
      × Refused h h' m m'
unfolding download_handler
download_handler_busy fuel h c r elapsed m e g full =
    let (no_slot, refused) = acquire_full h m e full in
    (
      (acquire h).0,
      record_admission m false,
      ap (λ method. by_method method fuel h c r elapsed) g ∙ busy fuel h c r elapsed no_slot,
      refused,
    )

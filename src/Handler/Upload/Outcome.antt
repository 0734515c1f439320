-- ===== src/Handler/Upload/Outcome.antt =====
-- A whole run of `UploadHandler`: what it counts, what it replies, and the state that it leaves.
use speedtest_go.Base.{
  ℕ, ◌+◌, ◌-◌, ◌/◌, ◌≤◌, ◌<◌, ◌≡◌, ◌⊎◌, inl, inr, refl, Bool-cases, ◌∙◌, ap, Bool, true, false,
  some, List, [], ◌∷◌, str, if◌then◌else◌, leb, arith,
}
use speedtest_go.Handler.Http.{
  post, Request, Reply, Body, success, failure, plain, write_json, http_error,
}
use speedtest_go.Handler.Metrics.{up, Metrics, record_admission}
use speedtest_go.Handler.State.{Handler, acquire}
use speedtest_go.Handler.Tested.{
  Tested, Refused, after_test, after_handler, release-acquire, after_handler-Tested, acquire_room,
  acquire_full,
}
use speedtest_go.Handler.Upload.{
  max_upload_bytes, End, eof, broken, Payload, CopyError, no_error, max_bytes_error, other_error,
  copy, UploadResponse, upload_reply, finish, replied, admitted, by_method, upload_handler,
}

abbrev pub sum : List ℕ → ℕ
sum [] = 0
sum (b ∷ blocks) = b + sum blocks

abbrev copied : End → CopyError
copied eof = no_error
copied broken = other_error

-- What a copy must give: the whole body and its own end if it fits, and else the limit.
abbrev pub expected : ℕ → ℕ → End → ℕ × CopyError
expected limit size end = if leb size limit then (size, copied end) else (limit, max_bytes_error)

copy_lem :
    (left : ℕ) (blocks : List ℕ) (end : End) (n : ℕ)
    → copy left blocks end n
      ≡ (n + (expected left (sum blocks) end).0, (expected left (sum blocks) end).1)
unfolding copy
copy_lem left [] eof n = ground arith
copy_lem left [] broken n = ground arith
copy_lem left (b ∷ blocks) end n = ground (arith, copy_lem (left - b) blocks end (n + b))

copy_whole :
    (p : Payload)
    → copy max_upload_bytes p.blocks p.end 0 ≡ expected max_upload_bytes (sum p.blocks) p.end
copy_whole p =
    let want = expected max_upload_bytes (sum p.blocks) p.end in
    let none_before : 0 + want.0 ≡ want.0 = omega arith in
    copy_lem max_upload_bytes p.blocks p.end 0 ∙ (λ i. (none_before i, want.1))

pair_split : (h : Handler) (b : Bool) → (acquire h).1 ≡ b → acquire h ≡ ((acquire h).0, b)
pair_split h b e i = ((acquire h).0, e i)

-- How an upload of `size` bytes is answered, and how many bytes are counted.
abbrev pub Answered : ℕ → End → (elapsed received : ℕ) → Reply (Body UploadResponse) → Type 0
Answered size end elapsed received reply =
    ((size ≤ max_upload_bytes)
      × (end ≡ eof)
      × (received ≡ size)
      × (reply.status ≡ 200)
      × (reply.body
          ≡ success (record {
            received = size;
            server_elapsed_ms = elapsed / 1_000_000;
            truncated = false;
          })))
    ⊎ ((size ≤ max_upload_bytes)
        × (end ≡ broken)
        × (received ≡ size)
        × (reply.status ≡ 400)
        × (reply.body ≡ failure (plain (str "upload failed"))))
    ⊎ ((max_upload_bytes < size)
        × (received ≡ max_upload_bytes)
        × (reply.status ≡ 200)
        × (reply.body
            ≡ success (record {
              received = 10_737_418_240;
              server_elapsed_ms = elapsed / 1_000_000;
              truncated = true;
            })))

upload_reply-Answered :
    (size : ℕ) (end : End) (elapsed : ℕ)
    → let (received, error) = expected max_upload_bytes size end in
      Answered size end elapsed received (upload_reply received elapsed error)
unfolding upload_reply write_json
upload_reply-Answered size end elapsed = elim (Bool-cases (leb size max_upload_bytes)) [
  | inr longer ↦
      let more : max_upload_bytes < size = ground arith in
      rw longer (inr (inr (more, refl, refl, refl)))
  | inl within ↦ let fits : size ≤ max_upload_bytes = ground arith in rw within (by_end end fits)
]
  where
    by_end :
        (end : End)
        → size ≤ max_upload_bytes
        → Answered size end elapsed size (upload_reply size elapsed (copied end))
    by_end eof fits = inl (fits, refl, refl, refl, refl)
    by_end broken fits = inr (inl (fits, refl, refl, refl, refl))

-- A POST that finds a free slot is always answered. A body of at most 10 GiB is counted in full and
-- gets 200, or 400 with an error text if it breaks off; a longer one is counted up to 10 GiB and gets
-- 200 with the flag for truncation. Either way the slot is free again, and the test is counted once
-- and observed once with its bytes.
pub upload_handler_lem :
    (h : Handler) (r : Request) (p : Payload) (elapsed total : ℕ) (m : Metrics)
    → r.method ≡ post
    → h.sem.len < h.sem.cap
    → h.metrics ≡ some m
    → (received : ℕ) × (reply : Reply (Body UploadResponse)) × (h' : Handler) × (m' : Metrics)
      × (upload_handler h r p elapsed total ≡ some (reply, h'))
      × Answered (sum p.blocks) p.end elapsed received reply
      × Tested up received h h' m m'
unfolding upload_handler by_method admitted finish replied
upload_handler_lem h r p elapsed total m g room e =
    let n = (expected max_upload_bytes (sum p.blocks) p.end).0 in
    (
      n,
      upload_reply n elapsed (expected max_upload_bytes (sum p.blocks) p.end).1,
      after_handler up n total h m,
      after_test up n total m,
      ap (λ method. by_method method h p elapsed total) g
          ∙ rw (pair_split h true (acquire_room h room))
              (rw (copy_whole p) (rw (release-acquire up n total h m e room, replied) refl)),
      upload_reply-Answered (sum p.blocks) p.end elapsed,
      after_handler-Tested up n total h m,
    )

-- A POST at a full semaphore gets 503, takes no slot, and counts as rejected only.
pub upload_handler_busy :
    (h : Handler) (r : Request) (p : Payload) (elapsed total : ℕ) (m : Metrics)
    → h.metrics ≡ some m
    → r.method ≡ post
    → h.sem.cap ≤ h.sem.len
    → (h' : Handler) × (m' : Metrics) × (upload_handler h r p elapsed total
        ≡ some (http_error (str "server busy") 503, h'))
      × Refused h h' m m'
unfolding upload_handler by_method admitted
upload_handler_busy h r p elapsed total m e g full =
    let (no_slot, refused) = acquire_full h m e full in
    (
      (acquire h).0,
      record_admission m false,
      ap (λ method. by_method method h p elapsed total) g ∙ rw (pair_split h false no_slot),
      refused,
    )

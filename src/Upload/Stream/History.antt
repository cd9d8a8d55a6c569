-- ===== src/Upload/Stream/History.antt =====
-- The registry after any history of upload calls.
use kotlogram.Base.{ℕ, ◌+◌, ◌^◌, ◌≤◌, ◌<◌, ◌≡◌, inl, inr, refl, Bool, List, [], ◌∷◌, length, arith}
use kotlogram.Error.{Result-cases}
use kotlogram.Base64.{decode_base64}
use kotlogram.Upload.Registry.{
  UploadRegistry, default, next, insert_stream, insert_progress, begin_progress, progress,
  stream_handle, take_stream, register,
}
use kotlogram.Upload.Stream.Calls.{
  Call, stream_begin, progress_begin, stream_chunk, stream_finish, bytes, path, step, run, Inv,
}
use kotlogram.Upload.Stream.{
  start_stream_upload, store_accepted, send_chunk, count_and_send, append_stream, finish_upload,
  upload_stream_begin, upload_stream_chunk, await_task, upload_stream_finish, upload_progress_begin,
  upload_bytes, upload_file,
}
use kotlogram.Upload.Stream.Invariant.{default-Inv, step-Inv}

next_handle-append_stream :
    (alive : Bool) (id : ℕ) (payload : List ℕ) (r : UploadRegistry)
    → (append_stream alive id payload r).1.next_handle ≡ r.next_handle
unfolding append_stream stream_handle count_and_send store_accepted send_chunk
next_handle-append_stream alive id [] r = refl
next_handle-append_stream alive id (b ∷ payload) r = ground arith

next_handle-upload_stream_chunk :
    (alive : Bool) (id : ℕ) (text : List ℕ) (r : UploadRegistry)
    → (upload_stream_chunk alive id text r).1.next_handle ≡ r.next_handle
unfolding upload_stream_chunk
next_handle-upload_stream_chunk alive id text r = elim (Result-cases (decode_base64 text)) [
  | inl (payload, e) ↦ rw e (next_handle-append_stream alive id payload r)
  | inr (x, e) ↦ rw e
]

-- Every call hands out one id at most.
pub next_handle-step :
    (r : UploadRegistry) (c : Call)
    → r.next_handle + 1 < 2 ^ 64
    → (step r c).next_handle ≤ r.next_handle + 1
unfolding step upload_stream_begin start_stream_upload next insert_progress insert_stream
    upload_progress_begin begin_progress upload_stream_finish take_stream await_task finish_upload
    register upload_bytes upload_file progress
next_handle-step r (stream_begin size now) room = ground arith
next_handle-step r (progress_begin total now) room = ground arith
next_handle-step r (stream_chunk alive id text) room =
    omega (arith, next_handle-upload_stream_chunk alive id text r)
next_handle-step r (stream_finish id task) room = ground arith
next_handle-step r (bytes text answer) room = ground arith
next_handle-step r (path size slot answer) room = ground arith

run-Inv :
    (r : UploadRegistry) (calls : List Call)
    → r.next_handle + length calls < 2 ^ 64
    → Inv r
    → Inv (run r calls)
unfolding run
run-Inv r [] room v = v
run-Inv r (c ∷ calls) room v =
    run-Inv (step r c) calls (omega (arith, next_handle-step r c (omega arith)))
      (step-Inv r c (omega arith) v)

pub next_handle-run :
    (r : UploadRegistry) (calls : List Call)
    → r.next_handle + length calls < 2 ^ 64
    → Inv r
    → (run r calls).next_handle ≤ r.next_handle + length calls
unfolding run
next_handle-run r [] room v = omega arith
next_handle-run r (c ∷ calls) room v =
    let one = next_handle-step r c (omega arith) in
    omega
      (arith, one, next_handle-run (step r c) calls (omega arith) (step-Inv r c (omega arith) v))

-- After any history of fewer than 2 ^ 64 upload calls, successful or not: no id at or above the
-- counter is in use, no id names both a stream and a finished upload, and no stream has accepted
-- more bytes than it declared.
pub registry-Inv : (calls : List Call) → length calls < 2 ^ 64 → Inv (run default calls)
registry-Inv calls room = run-Inv default calls (omega arith) default-Inv

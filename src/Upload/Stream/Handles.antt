-- ===== src/Upload/Stream/Handles.antt =====
-- What a finished upload's handle names stays named for the life of the client.
use kotlogram.Base.{
  inl, inr, ◌==◌, ℕ, ◌+◌, ◌^◌, ◌<◌, ◌≡◌, Bool, List, [], ◌∷◌, length, Option, none, some, arith,
  Bool-cases,
}
use kotlogram.Base.Int.{ℤ, as_i64}
use kotlogram.Base.Map.{get-insert}
use kotlogram.Error.{Result, ok, err, Result-cases}
use kotlogram.Base64.{decode_base64}
use kotlogram.Upload.Registry.{
  InputFile, UploadRegistry, default, StreamUpload, next, insert_stream, insert_progress,
  begin_progress, progress, stream_handle, take_stream, register, get,
}
use kotlogram.Upload.Stream.Calls.{
  Call, stream_begin, progress_begin, stream_chunk, stream_finish, bytes, path, step, run, Inv,
}
use kotlogram.Upload.Stream.Invariant.{default-Inv, step-Inv, progress-same}
use kotlogram.Upload.Stream.History.{next_handle-step, next_handle-run, registry-Inv}
use kotlogram.Upload.Stream.{
  start_stream_upload, send_chunk, store_accepted, count_and_send, append_stream, finish_upload,
  upload_stream_begin, upload_stream_chunk, await_task, upload_stream_finish, upload_progress_begin,
  upload_bytes, upload_file,
}

module _ (h : ℕ) (u : InputFile) where
  -- The handle names this upload.
  abbrev pub Holds : UploadRegistry → Type 0
  Holds r = (get h r).0 ≡ ok u

  finish_upload-Holds :
      (v : InputFile) (size : ℤ) (r : UploadRegistry)
      → h < r.next_handle
      → Holds r
      → Holds (finish_upload v size r).1
  unfolding finish_upload register next get
  finish_upload-Holds v size r old e = ground (arith, get-insert r.next_handle h v r.uploads.value)

  begin-Holds :
      (size now : ℕ) (r : UploadRegistry) → Holds r → Holds (upload_stream_begin size now r).1
  unfolding upload_stream_begin start_stream_upload next insert_progress insert_stream get
  begin-Holds size now r e = ground arith

  progress_begin-Holds :
      (total now : ℕ) (r : UploadRegistry) → Holds r → Holds (upload_progress_begin total now r).1
  unfolding upload_progress_begin begin_progress next insert_progress get
  progress_begin-Holds total now r e = ground arith

  append_stream-Holds :
      (alive : Bool) (id : ℕ) (payload : List ℕ) (r : UploadRegistry)
      → Holds r
      → Holds (append_stream alive id payload r).1
  unfolding append_stream stream_handle count_and_send store_accepted send_chunk get
  append_stream-Holds alive id [] r e = e
  append_stream-Holds alive id (b ∷ payload) r e = ground arith

  upload_stream_chunk-Holds :
      (alive : Bool) (id : ℕ) (text : List ℕ) (r : UploadRegistry)
      → Holds r
      → Holds (upload_stream_chunk alive id text r).1
  unfolding upload_stream_chunk
  upload_stream_chunk-Holds alive id text r e = elim (Result-cases (decode_base64 text)) [
    | inl (payload, d) ↦ rw d (append_stream-Holds alive id payload r e)
    | inr (x, d) ↦ rw d e
  ]

  take_stream-Holds :
      (id : ℕ) (r : UploadRegistry)
      → Holds r
      → Holds (take_stream id r).1 × ((take_stream id r).1.next_handle ≡ r.next_handle)
  unfolding take_stream get
  take_stream-Holds id r e = (ground arith, ground arith)

  await_task-Holds :
      (id : ℕ) (s : StreamUpload) (task : Result InputFile) (r : UploadRegistry)
      → h < r.next_handle
      → Holds r
      → Holds (await_task id s task r).1
  unfolding await_task
  await_task-Holds id s (ok v) r old e = elim (Bool-cases (s.accepted == s.size)) [
    | inl complete ↦ rw complete (finish_upload-Holds v (as_i64 s.size) r old e)
    | inr short ↦ rw short e
  ]
  await_task-Holds id s (err x) r old e = elim (Bool-cases (s.accepted == s.size)) [
    | inl complete ↦ rw complete e
    | inr short ↦ rw short e
  ]

  upload_stream_finish-Holds :
      (id : ℕ) (task : Result InputFile) (r : UploadRegistry)
      → h < r.next_handle
      → Holds r
      → Holds (upload_stream_finish id task r).1
  unfolding upload_stream_finish
  upload_stream_finish-Holds id task r old e =
      let (kept, same) = take_stream-Holds id r e in
      elim (Result-cases (take_stream id r).0) [
        | inl (s, d) ↦ rw d (await_task-Holds id s task (take_stream id r).1 (rw same old) kept)
        | inr (x, d) ↦ rw d kept
      ]

  upload_bytes-Holds :
      (text : List ℕ) (answer : Result InputFile) (r : UploadRegistry)
      → h < r.next_handle
      → Holds r
      → Holds (upload_bytes text answer r).1
  unfolding upload_bytes
  upload_bytes-Holds text (ok v) r old e = elim (Result-cases (decode_base64 text)) [
    | inl (payload, d) ↦ rw d (finish_upload-Holds v (as_i64 (length payload)) r old e)
    | inr (x, d) ↦ rw d e
  ]
  upload_bytes-Holds text (err x) r old e = elim (Result-cases (decode_base64 text)) [
    | inl (payload, d) ↦ rw d e
    | inr (y, d) ↦ rw d e
  ]

  upload_file-Holds :
      (size : Result ℕ) (slot : Option ℕ) (answer : Result InputFile) (r : UploadRegistry)
      → h < r.next_handle
      → Holds r
      → Holds (upload_file size slot answer r).1
  unfolding upload_file
  upload_file-Holds (err x) none answer r old e = e
  upload_file-Holds (err x) (some slot) answer r old e = e
  upload_file-Holds (ok size) none (ok v) r old e = finish_upload-Holds v (as_i64 size) r old e
  upload_file-Holds (ok size) none (err x) r old e = e
  upload_file-Holds (ok size) (some slot) (ok v) r old e = elim (Result-cases (progress slot r).0) [
    | inl (p, d) ↦ rw (d, progress-same r slot) (finish_upload-Holds v (as_i64 size) r old e)
    | inr (x, d) ↦ rw (d, progress-same r slot) e
  ]
  upload_file-Holds (ok size) (some slot) (err x) r old e =
      elim (Result-cases (progress slot r).0) [
        | inl (p, d) ↦ rw (d, progress-same r slot) e
        | inr (y, d) ↦ rw (d, progress-same r slot) e
      ]

  step-Holds : (r : UploadRegistry) (c : Call) → h < r.next_handle → Holds r → Holds (step r c)
  unfolding step
  step-Holds r (stream_begin size now) old e = begin-Holds size now r e
  step-Holds r (progress_begin total now) old e = progress_begin-Holds total now r e
  step-Holds r (stream_chunk alive id text) old e = upload_stream_chunk-Holds alive id text r e
  step-Holds r (stream_finish id task) old e = upload_stream_finish-Holds id task r old e
  step-Holds r (bytes text answer) old e = upload_bytes-Holds text answer r old e
  step-Holds r (path size slot answer) old e = upload_file-Holds size slot answer r old e

  Holds-handle : (r : UploadRegistry) → Inv r → Holds r → h < r.next_handle
  unfolding get
  Holds-handle r v e = ground (arith, v.upload_keys h)

  run-Holds :
      (r : UploadRegistry) (calls : List Call)
      → r.next_handle + length calls < 2 ^ 64
      → Inv r
      → Holds r
      → Holds (run r calls)
  unfolding run
  run-Holds r [] room v e = e
  run-Holds r (c ∷ calls) room v e =
      run-Holds (step r c) calls (omega (arith, next_handle-step r c (omega arith)))
        (step-Inv r c (omega arith) v) (step-Holds r c (Holds-handle r v e) e)

-- In a history of fewer than 2 ^ 64 upload calls, a handle that names an upload at some point
-- names that same upload at every later point: no call forgets it or gives its id to another
-- file.
pub handle-Holds :
    (h : ℕ) (u : InputFile) (before after : List Call)
    → length before + length after < 2 ^ 64
    → (get h (run default before)).0 ≡ ok u
    → (get h (run (run default before) after)).0 ≡ ok u
handle-Holds h u before after room e =
    run-Holds h u (run default before) after
      (omega (arith, next_handle-run default before (omega arith) default-Inv))
      (registry-Inv before (omega arith)) e

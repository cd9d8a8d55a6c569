-- ===== src/Upload/Stream/Invariant.antt =====
-- The registry invariant is kept by every upload call.
use kotlogram.Base.{
  ℕ, suc, ◌+◌, ◌^◌, ◌≤◌, ◌<◌, ◌≡◌, ◌⊎◌, inl, inr, Bool, List, [], ◌∷◌, length, Option, none, some,
  ◌==◌, arith, Bool-cases, Option-cases,
}
use kotlogram.Base.Int.{ℤ, as_i64}
use kotlogram.Base.Map
use kotlogram.Base.Map.{get-insert, get-remove}
use kotlogram.Error.{Error, Result, ok, err, poisoned, unknown_upload_stream, Result-cases}
use kotlogram.Exec.{lift, ◌>>=◌}
use kotlogram.Base64.{decode_base64}
use kotlogram.Upload.Progress.{starting_at}
use kotlogram.Upload.Registry.{
  InputFile, StreamUpload, UploadRegistry, default, next, insert_stream, insert_progress,
  begin_progress, progress, stream_handle, take_stream, register,
}
use kotlogram.Upload.Stream.Calls.{
  Call, stream_begin, progress_begin, stream_chunk, stream_finish, bytes, path, step, Inv,
}
use kotlogram.Upload.Stream.{
  start_stream_upload, try_update, store_accepted, send_chunk, count_and_send, append_stream,
  finish_upload, upload_stream_begin, upload_stream_chunk, await_task, upload_stream_finish,
  upload_progress_begin, upload_bytes, upload_file,
}

pub default-Inv : Inv default
default-Inv = record {
  stream_keys = λ k h. Map.get-nil k;
  upload_keys = λ k h. Map.get-nil k;
  progress_keys = λ k h. Map.get-nil k;
  apart = λ k. inl (Map.get-nil k);
  counted = λ k s e. cc (Map.get-nil {V = StreamUpload} k);
}

module _ (r : UploadRegistry) (room : r.next_handle + 1 < 2 ^ 64) (v : Inv r) where
  begin-Inv : (size now : ℕ) → Inv (upload_stream_begin size now r).1
  unfolding upload_stream_begin start_stream_upload next insert_progress insert_stream
  begin-Inv size now =
      let fresh : StreamUpload = record { size = size; accepted = 0 } in
      record {
        stream_keys = λ k h.
            ground (arith, v.stream_keys k, get-insert r.next_handle k fresh r.streams.value);
        upload_keys = λ k h. ground (arith, v.upload_keys k);
        progress_keys = λ k h. ground (
          arith,
          v.progress_keys k,
          get-insert r.next_handle k (starting_at size now) r.progresses.value,
        );
        apart = λ k.
            ground
              (arith, v.apart k, v.upload_keys k, get-insert r.next_handle k fresh r.streams.value);
        counted = λ k s e.
            ground (arith, v.counted k s, get-insert r.next_handle k fresh r.streams.value);
      }

  progress_begin-Inv : (total now : ℕ) → Inv (upload_progress_begin total now r).1
  unfolding upload_progress_begin begin_progress next insert_progress
  progress_begin-Inv total now = record {
    stream_keys = λ k h. ground (arith, v.stream_keys k);
    upload_keys = λ k h. ground (arith, v.upload_keys k);
    progress_keys = λ k h. ground (
      arith,
      v.progress_keys k,
      get-insert r.next_handle k (starting_at total now) r.progresses.value,
    );
    apart = λ k. ground (arith, v.apart k);
    counted = λ k s e. ground (arith, v.counted k s);
  }

  finish_upload-Inv : (uploaded : InputFile) (size : ℤ) → Inv (finish_upload uploaded size r).1
  unfolding finish_upload register next
  finish_upload-Inv uploaded size = record {
    stream_keys = λ k h. ground (arith, v.stream_keys k);
    upload_keys =
        λ k h. ground (arith, v.upload_keys k, get-insert r.next_handle k uploaded r.uploads.value);
    progress_keys = λ k h. ground (arith, v.progress_keys k);
    apart = λ k.
        ground
          (arith, v.apart k, v.stream_keys k, get-insert r.next_handle k uploaded r.uploads.value);
    counted = λ k s e. ground (arith, v.counted k s);
  }

pub progress-same : (r : UploadRegistry) (slot : ℕ) → (progress slot r).1 ≡ r
unfolding progress
progress-same r slot = ground arith

module _ (r : UploadRegistry) (v : Inv r) where
  take_stream-Inv : (id : ℕ) → Inv (take_stream id r).1
  unfolding take_stream
  take_stream-Inv id = record {
    stream_keys = λ k h. ground (arith, v.stream_keys k, get-remove id k r.streams.value);
    upload_keys = λ k h. ground (arith, v.upload_keys k);
    progress_keys = λ k h. ground (arith, v.progress_keys k);
    apart = λ k. ground (arith, v.apart k, get-remove id k r.streams.value);
    counted = λ k s e. ground (arith, v.counted k s, get-remove id k r.streams.value);
  }

  next_handle-take_stream : (id : ℕ) → (take_stream id r).1.next_handle ≡ r.next_handle
  unfolding take_stream
  next_handle-take_stream id = ground arith

  -- A counter that is stored is one that fits.
  store_accepted-Inv :
      (id : ℕ) (s t : StreamUpload)
      → Map.get id r.streams.value ≡ some s
      → t.accepted ≤ t.size
      → Inv (store_accepted id t r)
  unfolding store_accepted
  store_accepted-Inv id s t found fits = record {
    stream_keys = λ k h. ground (arith, v.stream_keys k, get-insert id k t r.streams.value);
    upload_keys = v.upload_keys;
    progress_keys = v.progress_keys;
    apart = λ k. ground (arith, v.apart k, get-insert id k t r.streams.value);
    counted = λ k x e. ground (arith, v.counted k x, get-insert id k t r.streams.value);
  }

  try_update-fits : (n : ℕ) (s t : StreamUpload) → try_update n s ≡ some t → t.accepted ≤ t.size
  unfolding try_update
  try_update-fits n s t h = ground arith

  stream_handle-cases :
      (id : ℕ)
      → ((s : StreamUpload) × (stream_handle id r ≡ (ok s, r))
          × (Map.get id r.streams.value ≡ some s))
        ⊎ ((e : Error) × (stream_handle id r ≡ (err e, r)))
  unfolding stream_handle
  stream_handle-cases id = elim (Bool-cases r.streams.is_poisoned) [
    | inl broken ↦ inr (poisoned, rw broken)
    | inr sound ↦ elim (Option-cases (Map.get id r.streams.value)) [
      | inl missing ↦ inr (unknown_upload_stream id, rw (sound, missing))
      | inr (s, found) ↦ inl (s, rw (sound, found), found)
    ]
  ]

  append_stream-Inv :
      (alive : Bool) (id : ℕ) (payload : List ℕ) → Inv (append_stream alive id payload r).1
  unfolding append_stream
  append_stream-Inv alive id [] = v
  append_stream-Inv alive id (b ∷ payload) = elim (stream_handle-cases id) [
    | inl (s, handled, found) ↦ elim (Option-cases (try_update (suc (length payload)) s)) [
      | inl full ↦ rw handled (rw full (unfold count_and_send in v))
      | inr (t, counts) ↦ rw handled (
          rw counts (
            rw (sent alive id t s) (
              store_accepted-Inv id s t found (try_update-fits (suc (length payload)) s t counts))))
    ]
    | inr (e, failed) ↦ rw failed v
  ]
    where
      sent :
          (alive : Bool) (id : ℕ) (t s : StreamUpload)
          → (count_and_send alive id s (some t) r).1 ≡ store_accepted id t r
      sent alive id t s = unfold count_and_send send_chunk in ground arith

module _ (r : UploadRegistry) (room : r.next_handle + 1 < 2 ^ 64) (v : Inv r) where
  await_task-Inv :
      (id : ℕ) (s : StreamUpload) (task : Result InputFile) → Inv (await_task id s task r).1
  unfolding await_task
  await_task-Inv id s task = elim (Bool-cases (s.accepted == s.size)) [
    | inl complete ↦ rw complete (awaited task)
    | inr short ↦ rw short v
  ]
    where
      awaited :
          (task : Result InputFile)
          → Inv ((lift task >>= λ uploaded. finish_upload uploaded (as_i64 s.size)) r).1
      awaited (ok uploaded) = finish_upload-Inv r room v uploaded (as_i64 s.size)
      awaited (err e) = v

  upload_stream_chunk-Inv :
      (alive : Bool) (id : ℕ) (text : List ℕ) → Inv (upload_stream_chunk alive id text r).1
  unfolding upload_stream_chunk
  upload_stream_chunk-Inv alive id text = elim (Result-cases (decode_base64 text)) [
    | inl (payload, e) ↦ rw e (append_stream-Inv r v alive id payload)
    | inr (x, e) ↦ rw e v
  ]

  upload_bytes-Inv :
      (text : List ℕ) (answer : Result InputFile) → Inv (upload_bytes text answer r).1
  unfolding upload_bytes
  upload_bytes-Inv text (ok uploaded) = elim (Result-cases (decode_base64 text)) [
    | inl (payload, e) ↦ rw e (finish_upload-Inv r room v uploaded (as_i64 (length payload)))
    | inr (x, e) ↦ rw e v
  ]
  upload_bytes-Inv text (err x) = elim (Result-cases (decode_base64 text)) [
    | inl (payload, e) ↦ rw e v
    | inr (y, e) ↦ rw e v
  ]

  upload_file-Inv :
      (size : Result ℕ) (slot : Option ℕ) (answer : Result InputFile)
      → Inv (upload_file size slot answer r).1
  unfolding upload_file
  upload_file-Inv (err e) none answer = v
  upload_file-Inv (err e) (some slot) answer = v
  upload_file-Inv (ok size) none (ok uploaded) = finish_upload-Inv r room v uploaded (as_i64 size)
  upload_file-Inv (ok size) none (err e) = v
  upload_file-Inv (ok size) (some slot) (ok uploaded) = elim (Result-cases (progress slot r).0) [
    | inl (p, e) ↦ rw (e, progress-same r slot) (finish_upload-Inv r room v uploaded (as_i64 size))
    | inr (x, e) ↦ rw (e, progress-same r slot) v
  ]
  upload_file-Inv (ok size) (some slot) (err x) = elim (Result-cases (progress slot r).0) [
    | inl (p, e) ↦ rw (e, progress-same r slot) v
    | inr (y, e) ↦ rw (e, progress-same r slot) v
  ]

upload_stream_finish-Inv :
    (r : UploadRegistry)
    → r.next_handle + 1 < 2 ^ 64
    → Inv r
    → (id : ℕ) (task : Result InputFile) → Inv (upload_stream_finish id task r).1
unfolding upload_stream_finish
upload_stream_finish-Inv r room v id task =
    let taken = take_stream-Inv r v id in
    let same = next_handle-take_stream r v id in
    elim (Result-cases (take_stream id r).0) [
      | inl (s, e) ↦ rw e (await_task-Inv (take_stream id r).1 (rw same room) taken id s task)
      | inr (x, e) ↦ rw e taken
    ]

-- Every call keeps the invariant, whether it succeeds or fails, while an id is left.
pub step-Inv : (r : UploadRegistry) (c : Call) → r.next_handle + 1 < 2 ^ 64 → Inv r → Inv (step r c)
unfolding step
step-Inv r (stream_begin size now) room v = begin-Inv r room v size now
step-Inv r (progress_begin total now) room v = progress_begin-Inv r room v total now
step-Inv r (stream_chunk alive id text) room v = upload_stream_chunk-Inv r room v alive id text
step-Inv r (stream_finish id task) room v = upload_stream_finish-Inv r room v id task
step-Inv r (bytes text answer) room v = upload_bytes-Inv r room v text answer
step-Inv r (path size slot answer) room v = upload_file-Inv r room v size slot answer

-- ===== src/Upload/Stream/Finishing.antt =====
-- What a finish does to the stream it names and to the uploads, on every branch.
use kotlogram.Base.{
  ℕ, ◌≡◌, ◌≢◌, ◌==◌, refl, Bool, Bool-cases, true, false, none, some, inl, inr, arith,
}
use kotlogram.Base.Int.{ℤ, as_i64}
use kotlogram.Base.Map
use kotlogram.Base.Map.{Map}
use kotlogram.Base.Map.{get-insert, get-remove}
use kotlogram.Error.{Result, ok, err, declared_but_received, not_an_upload}
use kotlogram.Exec.{Mutex, write}
use kotlogram.Upload.Registry.{
  InputFile, file, big, other, StreamUpload, UploadRegistry, take_stream, register, next, get,
}
use kotlogram.Upload.Stream.{
  UploadedFileDto, uploaded_dto, finish_upload, await_task, upload_stream_finish,
}
use kotlogram.Upload.Stream.Counting.{Names}

-- The document of an upload under a handle, which reports the size.
abbrev Reports : Bool → ℤ → ℕ → Result UploadedFileDto → Type 0
Reports is_big size handle answer =
    (dto : UploadedFileDto) × (answer ≡ ok dto)
    × (dto.handle ≡ some handle)
    × (dto.size ≡ size)
    × (dto.is_big ≡ is_big)

-- A small or a big file is described, and anything else refused.
abbrev pub Describes : InputFile → ℤ → ℕ → Result UploadedFileDto → Type 0
Describes (file id parts name md5) size handle answer = Reports false size handle answer
Describes (big id parts name) size handle answer = Reports true size handle answer
Describes (other tag) size handle answer = answer ≡ err not_an_upload

-- How a finish ends, by whether the stream is complete and by what its task answers; `uploads` and
-- `next_handle` are those before it.
abbrev pub Ends :
    Bool
    → Result InputFile
    → ℕ
    → Mutex (Map InputFile)
    → ℕ
    → StreamUpload
    → Result UploadedFileDto × UploadRegistry
    → Type 0
Ends false task id uploads next_handle s result =
    (result.0 ≡ err (declared_but_received id s.size s.accepted)) × (result.1.uploads ≡ uploads)
Ends true (err e) id uploads next_handle s result =
    (result.0 ≡ err e) × (result.1.uploads ≡ uploads)
Ends true (ok u) id uploads next_handle s result =
    ((get next_handle result.1).0 ≡ ok u) × Describes u (as_i64 s.accepted) next_handle result.0

uploaded_dto-Describes :
    (u : InputFile) (size : ℤ) (handle : ℕ)
    → Describes u size handle (uploaded_dto u size (some handle))
unfolding uploaded_dto
uploaded_dto-Describes (file id parts name md5) size handle = (
  record {
    id = id;
    name = name;
    size = size;
    parts = parts;
    md5_checksum = some md5;
    is_big = false;
    handle = some handle;
  },
  refl,
  refl,
  refl,
  refl,
)
uploaded_dto-Describes (big id parts name) size handle = (
  record {
    id = id;
    name = name;
    size = size;
    parts = parts;
    md5_checksum = none;
    is_big = true;
    handle = some handle;
  },
  refl,
  refl,
  refl,
  refl,
)
uploaded_dto-Describes (other tag) size handle = refl

get-finish_upload :
    (u : InputFile) (size : ℤ) (r : UploadRegistry)
    → r.uploads.is_poisoned ≡ false
    → (get r.next_handle (finish_upload u size r).1).0 ≡ ok u
unfolding finish_upload register next get
get-finish_upload u size r usable =
    ground (arith, get-insert r.next_handle r.next_handle u r.uploads.value)

finish_upload-uploaded_dto :
    (u : InputFile) (size : ℤ) (r : UploadRegistry)
    → r.uploads.is_poisoned ≡ false
    → (finish_upload u size r).0 ≡ uploaded_dto u size (some r.next_handle)
unfolding finish_upload register next
finish_upload-uploaded_dto u size r usable = ground arith

await_task-Ends :
    (id : ℕ) (task : Result InputFile) (r : UploadRegistry) (s : StreamUpload)
    → r.uploads.is_poisoned ≡ false
    → Ends (s.accepted == s.size) task id r.uploads r.next_handle s (await_task id s task r)
unfolding await_task
await_task-Ends id (ok u) r s usable = elim (Bool-cases (s.accepted == s.size)) [
  | inl complete ↦
      let same : s.accepted ≡ s.size = ground arith in
      rw (complete, same)
        (
          get-finish_upload u (as_i64 s.size) r usable,
          rw (finish_upload-uploaded_dto u (as_i64 s.size) r usable)
              (uploaded_dto-Describes u (as_i64 s.size) r.next_handle),
        )
  | inr short ↦ rw short (refl, refl)
]
await_task-Ends id (err e) r s usable = elim (Bool-cases (s.accepted == s.size)) [
  | inl complete ↦ rw complete (refl, refl)
  | inr short ↦ rw short (refl, refl)
]

await_task-streams :
    (id : ℕ) (task : Result InputFile) (r : UploadRegistry) (s : StreamUpload)
    → (await_task id s task r).1.streams ≡ r.streams
unfolding await_task finish_upload register next
await_task-streams id (ok u) r s = ground arith
await_task-streams id (err e) r s = ground arith

-- The registry without the stream.
abbrev taken : ℕ → UploadRegistry → UploadRegistry
taken id r = record r { streams = write r.streams (Map.remove id r.streams.value) }

take_stream-taken :
    (id : ℕ) (r : UploadRegistry) (s : StreamUpload)
    → Names r id s
    → take_stream id r ≡ (ok s, taken id r)
unfolding take_stream
take_stream-taken id r s (sound, found) = ground arith

-- Where no lock is poisoned, finishing consumes the stream whatever comes of it, and leaves every other
-- stream. A stream that received another number of bytes than it declared is refused, and so is one whose
-- task fails; no upload is added then. Otherwise the next handle names the task's file from then on, and a
-- small or big file is described with that handle and with the bytes received as a signed 64-bit
-- size; a file of any other kind is refused, although it is registered.
pub upload_stream_finish_lem :
    (id another : ℕ) (task : Result InputFile) (r : UploadRegistry) (s : StreamUpload)
    → Names r id s
    → r.uploads.is_poisoned ≡ false
    → another ≢ id
    → let result = upload_stream_finish id task r in
      (Map.get id result.1.streams.value ≡ none)
      × (Map.get another result.1.streams.value ≡ Map.get another r.streams.value)
      × Ends (s.accepted == s.size) task id r.uploads r.next_handle s result
unfolding upload_stream_finish
upload_stream_finish_lem id another task r s named usable apart =
    let ended = await_task-Ends id task (taken id r) s usable in
    let found = take_stream-taken id r s named in
    let kept = await_task-streams id task (taken id r) s in
    (
      rw (found, kept) (ground (arith, get-remove id id r.streams.value)),
      rw (found, kept) (ground (arith, get-remove id another r.streams.value)),
      rw found ended,
    )

-- ===== src/Upload/Stream.antt =====
-- The streamed upload: `start_stream_upload` and `append_stream` of native/src/client.rs and the
-- upload handlers of native/src/ops/files.rs. A handler takes its decoded payload and what grammers
-- answers, and returns the document that it encodes.
pub mod Calls
pub mod Invariant
pub mod History
pub mod Counting
pub mod Finishing
pub mod Handles
use kotlogram.Base.{
  ℕ, zero, suc, ◌+◌, ◌%◌, ◌^◌, List, [], ◌∷◌, length, Option, none, some, Bool, true, false, leb,
  ◌==◌, if◌then◌else◌,
}
use kotlogram.Base.Int.{ℤ, as_i64}
use kotlogram.Base.Map
use kotlogram.Error.{
  Error, Result, ok, err, received_more_than_declared, no_longer_accepting, declared_but_received,
  not_an_upload,
}
use kotlogram.Exec.{Exec, write, pure, fail, lift, modify, ◌>>=◌, ◌>>◌}
use kotlogram.Base64.{decode_base64}
use kotlogram.Upload.Progress.{UploadProgress, starting_at}
use kotlogram.Upload.Registry.{
  InputFile, file, big, other, StreamUpload, UploadRegistry, next, insert_stream, insert_progress,
  begin_progress, progress, stream_handle, take_stream, register, get,
}

unfoldable pub start_stream_upload : ℕ → ℕ → Exec UploadRegistry ℕ
start_stream_upload size now = do
  id ← next
  insert_progress id (starting_at size now)
  insert_stream id (record { size = size; accepted = 0 })
  pure id

-- accepted.try_update(…): the count, or none when it would pass the declared size
unfoldable pub try_update : ℕ → StreamUpload → Option StreamUpload
try_update bytes stream =
    if leb ((stream.accepted + bytes) % 2 ^ 64) stream.size
    then some (record stream { accepted = (stream.accepted + bytes) % 2 ^ 64 })
    else none

-- The counter that the stream in the map shares with the caller.
unfoldable pub store_accepted : ℕ → StreamUpload → UploadRegistry → UploadRegistry
store_accepted id stream r = record r {
  streams = write r.streams (Map.insert id stream r.streams.value);
}

-- `alive` says whether the uploader still reads the channel: `send` fails when it does not.
unfoldable pub send_chunk : Bool → ℕ → Exec UploadRegistry (Unit {0})
send_chunk alive id = if alive then pure tt else fail (no_longer_accepting id)

unfoldable pub count_and_send :
    Bool → ℕ → StreamUpload → Option StreamUpload → Exec UploadRegistry (Unit {0})
count_and_send alive id stream none = fail (received_more_than_declared id stream.size)
count_and_send alive id stream (some counted) = do
  modify (store_accepted id counted)
  send_chunk alive id

unfoldable pub append_stream : Bool → ℕ → List ℕ → Exec UploadRegistry (Unit {0})
append_stream alive id [] = pure tt
append_stream alive id (b ∷ bytes) = do
  stream ← stream_handle id
  count_and_send alive id stream (try_update (length (b ∷ bytes)) stream)

-- What `uploaded_dto` of native/src/dto/files.rs reports.
pub record UploadedFileDto : Type 0 where
  pub id : ℕ
  pub name : List ℕ
  pub size : ℤ
  pub parts : ℕ
  pub md5_checksum : Option (List ℕ)
  pub is_big : Bool
  pub handle : Option ℕ

unfoldable pub uploaded_dto : InputFile → ℤ → Option ℕ → Result UploadedFileDto
uploaded_dto (file id parts name md5) size handle = ok (record {
  id = id;
  name = name;
  size = size;
  parts = parts;
  md5_checksum = some md5;
  is_big = false;
  handle = handle;
})
uploaded_dto (big id parts name) size handle = ok (record {
  id = id;
  name = name;
  size = size;
  parts = parts;
  md5_checksum = none;
  is_big = true;
  handle = handle;
})
uploaded_dto (other tag) size handle = err not_an_upload

unfoldable pub finish_upload : InputFile → ℤ → Exec UploadRegistry UploadedFileDto
finish_upload uploaded size = do
  handle ← register uploaded
  lift (uploaded_dto uploaded size (some handle))

unfoldable pub upload_stream_begin : ℕ → ℕ → Exec UploadRegistry ℕ
upload_stream_begin size now = start_stream_upload size now

unfoldable pub upload_stream_chunk : Bool → ℕ → List ℕ → Exec UploadRegistry (Unit {0})
upload_stream_chunk alive id text = do
  bytes ← lift (decode_base64 text)
  append_stream alive id bytes

-- A stream that received another number of bytes than it declared is refused before its task is
-- awaited; `task` is what the task answers.
unfoldable pub await_task :
    ℕ → StreamUpload → Result InputFile → Exec UploadRegistry UploadedFileDto
await_task id stream task =
    if stream.accepted == stream.size
    then (do uploaded ← lift task; finish_upload uploaded (as_i64 stream.size))
    else fail (declared_but_received id stream.size stream.accepted)

unfoldable pub upload_stream_finish : ℕ → Result InputFile → Exec UploadRegistry UploadedFileDto
upload_stream_finish id task = do stream ← take_stream id; await_task id stream task

unfoldable pub upload_progress_begin : ℕ → ℕ → Exec UploadRegistry ℕ
upload_progress_begin total now = begin_progress total now

unfoldable pub upload_bytes : List ℕ → Result InputFile → Exec UploadRegistry UploadedFileDto
upload_bytes text answer = do
  bytes ← lift (decode_base64 text)
  uploaded ← lift answer
  finish_upload uploaded (as_i64 (length bytes))

-- The counter of a progress slot, which the upload itself advances, is not followed here. `size` is
-- what the file system reports. With a progress slot the answer is that of
-- `upload_path_with_progress`, without one that of grammers' `upload_file`.
unfoldable pub upload_file :
    Result ℕ → Option ℕ → Result InputFile → Exec UploadRegistry UploadedFileDto
upload_file size none answer = do
  length ← lift size
  uploaded ← lift answer
  finish_upload uploaded (as_i64 length)
upload_file size (some slot) answer = do
  length ← lift size
  progress slot
  uploaded ← lift answer
  finish_upload uploaded (as_i64 length)

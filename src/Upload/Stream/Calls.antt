-- ===== src/Upload/Stream/Calls.antt =====
-- Histories of upload calls, and the invariant of the registry under them.
use kotlogram.Base.{ℕ, ◌≤◌, ◌≡◌, ◌⊎◌, Bool, List, [], ◌∷◌, Option, none, some}
use kotlogram.Base.Map
use kotlogram.Base.Map.{get-insert, get-remove}
use kotlogram.Error.{Result}
use kotlogram.Upload.Registry.{InputFile, StreamUpload, UploadRegistry}
use kotlogram.Upload.Stream.{
  upload_stream_begin, upload_stream_chunk, upload_stream_finish, upload_progress_begin,
  upload_bytes, upload_file,
}

-- A call that reaches the registry, with what grammers and the file system answer it.
pub data Call : Type 0 where
  stream_begin progress_begin : ℕ → ℕ → Call
  stream_chunk : Bool → ℕ → List ℕ → Call
  stream_finish : ℕ → Result InputFile → Call
  bytes : List ℕ → Result InputFile → Call
  path : Result ℕ → Option ℕ → Result InputFile → Call

unfoldable pub step : UploadRegistry → Call → UploadRegistry
step r (stream_begin size now) = (upload_stream_begin size now r).1
step r (progress_begin total now) = (upload_progress_begin total now r).1
step r (stream_chunk alive id text) = (upload_stream_chunk alive id text r).1
step r (stream_finish id task) = (upload_stream_finish id task r).1
step r (bytes text answer) = (upload_bytes text answer r).1
step r (path size slot answer) = (upload_file size slot answer r).1

unfoldable pub run : UploadRegistry → List Call → UploadRegistry
run r [] = r
run r (c ∷ calls) = run (step r c) calls

-- Every id in use was handed out, a stream is not an upload, and no stream took too many bytes.
pub record Inv (r : UploadRegistry) : Type 0 where
  pub stream_keys : (k : ℕ) → r.next_handle ≤ k → Map.get k r.streams.value ≡ none
  pub upload_keys : (k : ℕ) → r.next_handle ≤ k → Map.get k r.uploads.value ≡ none
  pub progress_keys : (k : ℕ) → r.next_handle ≤ k → Map.get k r.progresses.value ≡ none
  pub apart : (k : ℕ) → (Map.get k r.streams.value ≡ none) ⊎ (Map.get k r.uploads.value ≡ none)
  pub counted :
      (k : ℕ) (s : StreamUpload) → Map.get k r.streams.value ≡ some s → s.accepted ≤ s.size

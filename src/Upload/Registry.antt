-- ===== src/Upload/Registry.antt =====
-- `UploadRegistry` of native/src/client.rs. The 64-bit ids are words; only their equality matters.
use kotlogram.Base.{ℕ, ◌+◌, ◌%◌, ◌^◌, List, []}
use kotlogram.Base.Map
use kotlogram.Base.Map.{Map}
use kotlogram.Error.{
  ok, ok_or, unknown_upload_progress, unknown_upload_stream, unknown_upload_handle,
}
use kotlogram.Exec.{Exec, Mutex, unlocked, locked, write, pure, reads, lift, modify, ◌>>=◌, ◌>>◌}
use kotlogram.Upload.Progress.{UploadProgress, starting_at}

-- The layer's `InputFile`, as far as the bridge tells its constructors apart.
pub data InputFile : Type 0 where
  file : ℕ → ℕ → List ℕ → List ℕ → InputFile
  big : ℕ → ℕ → List ℕ → InputFile
  other : ℕ → InputFile

-- The declared size and the count of accepted bytes. The channel's sender and the task that reads
-- it are grammers' side: what they answer is an argument of the operations that ask them.
pub record StreamUpload : Type 0 where
  pub size : ℕ
  pub accepted : ℕ

pub record UploadRegistry : Type 0 where
  pub streams : Mutex (Map StreamUpload)
  pub uploads : Mutex (Map InputFile)
  pub progresses : Mutex (Map UploadProgress)
  pub next_handle : ℕ

-- UploadRegistry::default()
abbrev pub default : UploadRegistry
default = record {
  streams = unlocked [];
  uploads = unlocked [];
  progresses = unlocked [];
  next_handle = 0;
}

unfoldable pub next : Exec UploadRegistry ℕ
next r = (ok r.next_handle, record r { next_handle = (r.next_handle + 1) % 2 ^ 64 })

unfoldable pub insert_stream : ℕ → StreamUpload → Exec UploadRegistry (Unit {0})
insert_stream id stream = do
  streams ← reads (λ (r : UploadRegistry). locked r.streams)
  modify (λ r. record r { streams = write r.streams (Map.insert id stream streams) })

unfoldable pub insert_progress : ℕ → UploadProgress → Exec UploadRegistry (Unit {0})
insert_progress id progress = do
  progresses ← reads (λ (r : UploadRegistry). locked r.progresses)
  modify (λ r. record r { progresses = write r.progresses (Map.insert id progress progresses) })

unfoldable pub begin_progress : ℕ → ℕ → Exec UploadRegistry ℕ
begin_progress total now = do id ← next; insert_progress id (starting_at total now); pure id

unfoldable pub progress : ℕ → Exec UploadRegistry UploadProgress
progress id = do
  progresses ← reads (λ (r : UploadRegistry). locked r.progresses)
  lift (ok_or (Map.get id progresses) (unknown_upload_progress id))

unfoldable pub stream_handle : ℕ → Exec UploadRegistry StreamUpload
stream_handle id = do
  streams ← reads (λ (r : UploadRegistry). locked r.streams)
  lift (ok_or (Map.get id streams) (unknown_upload_stream id))

unfoldable pub take_stream : ℕ → Exec UploadRegistry StreamUpload
take_stream id = do
  streams ← reads (λ (r : UploadRegistry). locked r.streams)
  modify (λ r. record r { streams = write r.streams (Map.remove id streams) })
  lift (ok_or (Map.get id streams) (unknown_upload_stream id))

unfoldable pub register : InputFile → Exec UploadRegistry ℕ
register uploaded = do
  handle ← next
  uploads ← reads (λ (r : UploadRegistry). locked r.uploads)
  modify (λ r. record r { uploads = write r.uploads (Map.insert handle uploaded uploads) })
  pure handle

unfoldable pub get : ℕ → Exec UploadRegistry InputFile
get handle = do
  uploads ← reads (λ (r : UploadRegistry). locked r.uploads)
  lift (ok_or (Map.get handle uploads) (unknown_upload_handle handle))

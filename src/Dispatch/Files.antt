-- ===== src/Dispatch/Files.antt =====
-- The operation names of native/src/ops/files.rs and its `route`.
use kotlogram.Base.{String, Option, List, [], ◌∷◌}
use kotlogram.Dispatch.Handlers.{
  Handler, download_media, download_media_chunk, upload_file, upload_bytes, upload_progress,
  upload_progress_begin, upload_stream_begin, upload_stream_chunk, upload_stream_finish,
  iter_profile_photos,
}
use kotlogram.Dispatch.Table.{Table, match_arms}

abbrev pub operations : List String
operations =
    "downloadMedia" ∷ "downloadMediaChunk" ∷ "uploadFile" ∷ "uploadBytes" ∷ "uploadProgress"
    ∷ "uploadProgressBegin" ∷ "uploadStreamBegin" ∷ "uploadStreamChunk" ∷ "uploadStreamFinish"
    ∷ "iterProfilePhotos" ∷ []

abbrev pub arms : Table Handler
arms =
    ("downloadMedia", download_media)
    ∷ ("downloadMediaChunk", download_media_chunk)
    ∷ ("uploadFile", upload_file)
    ∷ ("uploadBytes", upload_bytes)
    ∷ ("uploadProgress", upload_progress)
    ∷ ("uploadProgressBegin", upload_progress_begin)
    ∷ ("uploadStreamBegin", upload_stream_begin)
    ∷ ("uploadStreamChunk", upload_stream_chunk)
    ∷ ("uploadStreamFinish", upload_stream_finish)
    ∷ ("iterProfilePhotos", iter_profile_photos)
    ∷ []

unfoldable pub route : String → Option Handler
route operation = match_arms operation arms

-- ===== src/Files/Documents.antt =====
-- The document of a profile photo, over what grammers answers of the photo, and `downloadMedia`. The size
-- of a thumbnail in bytes is grammers' own.
use kotlogram.Base.{ℕ, Bool, List, [], ◌∷◌, Option, none, some, ltb, if◌then◌else◌}
use kotlogram.Base.Int.{ℤ, as_i64}
use kotlogram.Error.{Result, ok, err, ◌>>=◌}
use kotlogram.Dialogs.{or_default}
use kotlogram.Files.Chunks.{message_media}

-- The variants of a thumbnail that have a resolution, and the others.
pub data PhotoSize : Type 0 where
  sized : (width height : ℤ) → PhotoSize
  cached : (width height : ℤ) → PhotoSize
  progressive : (width height : ℤ) → PhotoSize
  without_resolution : PhotoSize

-- What grammers answers of a photo; `dc_id` is the one of the full constructor.
pub record Photo : Type 0 where
  pub id : ℤ
  pub dc_id : Option ℤ
  pub thumbs : List PhotoSize
  pub size : Option ℕ
  pub is_spoiler : Bool
  pub ttl_seconds : Option ℤ

pub record ProfilePhotoDto : Type 0 where
  pub id : ℤ
  pub dc_id : Option ℤ
  pub size : ℤ
  pub width : Option ℤ
  pub height : Option ℤ
  pub spoiler : Bool
  pub ttl_seconds : Option ℤ

unfoldable pub dimensions : Option PhotoSize → Option ℤ × Option ℤ
dimensions (some (sized width height)) = (some width, some height)
dimensions (some (cached width height)) = (some width, some height)
dimensions (some (progressive width height)) = (some width, some height)
dimensions (some without_resolution) = (none, none)
dimensions none = (none, none)

module _ (bytes : (PhotoSize → ℕ)) where
  -- The later of two that are equally large stays.
  unfoldable pub larger : PhotoSize → Option PhotoSize → PhotoSize
  larger thumb none = thumb
  larger thumb (some other) = if ltb (bytes other) (bytes thumb) then thumb else other

  -- max_by_key(|thumb| thumb.size())
  unfoldable pub largest : List PhotoSize → Option PhotoSize
  largest [] = none
  largest (thumb ∷ thumbs) = some (larger thumb (largest thumbs))

  unfoldable pub profile_photo_dto : Photo → ProfilePhotoDto
  profile_photo_dto photo =
      let pixels = dimensions (largest photo.thumbs) in
      record {
        id = photo.id;
        dc_id = photo.dc_id;
        size = as_i64 (or_default 0 photo.size);
        width = pixels.0;
        height = pixels.1;
        spoiler = photo.is_spoiler;
        ttl_seconds = photo.ttl_seconds;
      }

pub record DownloadResultDto {ℓ} (FilePath : Type ℓ) : Type ℓ where
  pub path : FilePath
  pub size : ℤ

-- `peer` is the resolved peer; the download answers the disk as it leaves it, and the length of a file is
-- read off the disk that the call leaves behind.
module _ {PeerRef Message Media FilePath Disk : Type 0}
    (get_messages_by_id : (PeerRef → List ℤ → Result (List (Option Message))))
    (media_of : (Message → Option Media))
    (client_download : (Media → FilePath → Disk → Result (Unit {0}) × Disk))
    (file_length : (FilePath → Disk → Result ℕ)) where
  unfoldable pub stored :
      FilePath → Result (Unit {0}) × Disk → Result (DownloadResultDto FilePath) × Disk
  stored path (done, disk) = (
    (do
      nothing ← done
      size ← file_length path disk
      ok (record { path = path; size = as_i64 size })),
    disk,
  )

  unfoldable pub download_found :
      FilePath → Disk → Result Media → Result (DownloadResultDto FilePath) × Disk
  download_found path disk (err e) = (err e, disk)
  download_found path disk (ok media) = stored path (client_download media path disk)

  unfoldable pub download_media :
      Result PeerRef → ℤ → FilePath → Disk → Result (DownloadResultDto FilePath) × Disk
  download_media peer id path disk =
      download_found path disk (do peer ← peer; message_media get_messages_by_id media_of peer id)

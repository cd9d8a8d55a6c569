-- ===== src/Files/Photos.antt =====
-- `iterProfilePhotos`: the plan of a payload and the walk over grammers' iterator, which is the list of what
-- its `next` answers. The document of a photo is an argument.
use kotlogram.Base.{ℕ, zero, suc, Bool, false, List, [], ◌∷◌, Option, if◌then◌else◌}
use kotlogram.Base.Int.{ℤ, pos, pos_part}
use kotlogram.Error.{Result, ok, err, ◌>>=◌}
use kotlogram.Dialogs.{clamp, or_default}

pub record ProfilePhotosPayload : Type 0 where
  pub all : Option Bool
  pub limit : Option ℕ
  pub offset : Option ℤ

pub data ProfilePhotosPlan : Type 0 where
  every : ProfilePhotosPlan
  page : (limit offset : ℕ) → ProfilePhotosPlan

-- `max(0)` leaves the part of an offset that is above zero.
unfoldable pub profile_photos_plan : ProfilePhotosPayload → ProfilePhotosPlan
profile_photos_plan payload =
    if or_default false payload.all
    then ProfilePhotosPlan.every
    else ProfilePhotosPlan.page (clamp 1 100 (or_default 50 payload.limit))
        (pos_part (or_default (pos 0) payload.offset))

module _ {Photo Dto : Type 0} (profile_photo_dto : (Photo → Dto)) where
  -- for _ in 0..offset, which stops at the end
  unfoldable pub skip_photos : ℕ → List (Result Photo) → Result (List (Result Photo))
  skip_photos zero iterator = ok iterator
  skip_photos (suc offset) [] = ok []
  skip_photos (suc offset) (err e ∷ iterator) = err e
  skip_photos (suc offset) (ok photo ∷ iterator) = skip_photos offset iterator

  -- while photos.len() < limit, with the places that are left
  unfoldable pub collect_photos : ℕ → List (Result Photo) → Result (List Dto)
  collect_photos zero iterator = ok []
  collect_photos (suc left) [] = ok []
  collect_photos (suc left) (answer ∷ iterator) = do
    photo ← answer
    photos ← collect_photos left iterator
    ok (profile_photo_dto photo ∷ photos)

  -- `all`: one unbounded walk
  unfoldable pub collect_every : List (Result Photo) → Result (List Dto)
  collect_every [] = ok []
  collect_every (answer ∷ iterator) = do
    photo ← answer
    photos ← collect_every iterator
    ok (profile_photo_dto photo ∷ photos)

  unfoldable pub follow_plan : ProfilePhotosPlan → List (Result Photo) → Result (List Dto)
  follow_plan ProfilePhotosPlan.every iterator = collect_every iterator
  follow_plan (ProfilePhotosPlan.page limit offset) iterator = do
    rest ← skip_photos offset iterator
    collect_photos limit rest

  -- `iterator` is what grammers answers for the resolved peer.
  unfoldable pub iter_profile_photos :
      ProfilePhotosPayload → Result (List (Result Photo)) → Result (List Dto)
  iter_profile_photos payload iterator = do
    photos ← iterator
    follow_plan (profile_photos_plan payload) photos

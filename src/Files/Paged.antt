-- ===== src/Files/Paged.antt =====
-- The pages of a peer's profile photos are the whole list.
use kotlogram.Base.{
  ℕ, zero, suc, ◌+◌, ◌*◌, ◌≤◌, ◌≡◌, refl, ap, ◌∙◌, true, List, [], ◌∷◌, ◌++◌, map, map-append,
  Option, none, some, length, take, drop, take_add, take-length, arith,
}
use kotlogram.Base.Int.{ℤ, pos}
use kotlogram.Error.{Result, ok, ◌>>=◌}
use kotlogram.Dialogs.{clamp}
use kotlogram.Files.Photos.{
  ProfilePhotosPayload, profile_photos_plan, skip_photos, collect_photos, collect_every,
  follow_plan, iter_profile_photos,
}

abbrev pub page_payload : ℕ → ℕ → ProfilePhotosPayload
page_payload limit offset = record { all = none; limit = some limit; offset = some (pos offset) }

abbrev pub all_payload : Option ℕ → Option ℤ → ProfilePhotosPayload
all_payload limit offset = record { all = some true; limit = limit; offset = offset }

module _ {Photo Dto : Type 0} (profile_photo_dto : (Photo → Dto)) where
  skip_photos-drop :
      (offset : ℕ) (photos : List Photo)
      → skip_photos profile_photo_dto offset (map ok photos) ≡ ok (map ok (drop offset photos))
  unfolding skip_photos
  skip_photos-drop zero photos = refl
  skip_photos-drop (suc offset) [] = refl
  skip_photos-drop (suc offset) (photo ∷ photos) = skip_photos-drop offset photos

  collect_photos-take :
      (left : ℕ) (photos : List Photo)
      → collect_photos profile_photo_dto left (map ok photos)
        ≡ ok (map profile_photo_dto (take left photos))
  unfolding collect_photos
  collect_photos-take zero photos = refl
  collect_photos-take (suc left) [] = refl
  collect_photos-take (suc left) (photo ∷ photos) = rw (collect_photos-take left photos)

  collect_every-map :
      (photos : List Photo)
      → collect_every profile_photo_dto (map ok photos) ≡ ok (map profile_photo_dto photos)
  unfolding collect_every
  collect_every-map [] = refl
  collect_every-map (photo ∷ photos) = rw (collect_every-map photos)

  -- What the first pages hold together, each asked for by the index of its first photo.
  abbrev pub pages : ℕ → List Photo → ℕ → Result (List Dto)
  pages limit photos zero = ok []
  pages limit photos (suc n) = do
    front ← pages limit photos n
    page ←
        iter_profile_photos profile_photo_dto (page_payload limit (n * limit)) (ok (map ok photos))
    ok (front ++ page)

  page-take :
      (limit offset : ℕ) (photos : List Photo)
      → 1 ≤ limit
      → limit ≤ 100
      → iter_profile_photos profile_photo_dto (page_payload limit offset) (ok (map ok photos))
        ≡ ok (map profile_photo_dto (take limit (drop offset photos)))
  unfolding iter_profile_photos profile_photos_plan follow_plan
  page-take limit offset photos low high =
      let same : clamp 1 100 limit ≡ limit = unfold clamp in ground arith in
      rw (same, skip_photos-drop offset photos, collect_photos-take limit (drop offset photos))

  pages-take :
      (limit n : ℕ) (photos : List Photo)
      → 1 ≤ limit
      → limit ≤ 100
      → pages limit photos n ≡ ok (map profile_photo_dto (take (n * limit) photos))
  pages-take limit zero photos low high = let none_yet : 0 * limit ≡ 0 = omega arith in rw none_yet
  pages-take limit (suc n) photos low high =
      let whole : suc n * limit ≡ n * limit + limit = omega arith in
      rw (
        pages-take limit n photos low high,
        page-take limit (n * limit) photos low high,
        whole,
        ← take_add (n * limit) limit photos,
        map-append profile_photo_dto (take (n * limit) photos)
            (take limit (drop (n * limit) photos)),
      )

  -- Where the walk meets no error and the limit is one that a page may have: the pages that cover the
  -- list, each asked for by the index after those before, hold together the photos of the list, in order
  -- and each one once; and that is what asking for all photos answers, whatever limit and offset come
  -- along.
  pub pages-all :
      (limit n : ℕ) (photos : List Photo) (any_limit : Option ℕ) (any_offset : Option ℤ)
      → 1 ≤ limit
      → limit ≤ 100
      → length photos ≤ n * limit
      → (pages limit photos n ≡ ok (map profile_photo_dto photos))
        × (iter_profile_photos profile_photo_dto
              (all_payload any_limit any_offset)
              (ok (map ok photos))
            ≡ pages limit photos n)
  unfolding iter_profile_photos profile_photos_plan follow_plan
  pages-all limit n photos any_limit any_offset low high covered =
      let whole =
        pages-take limit n photos low high
        ∙ ap (λ taken. ok (map profile_photo_dto taken)) (take-length (n * limit) photos covered) in
      (whole, rw (whole, collect_every-map photos))

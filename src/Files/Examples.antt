-- ===== src/Files/Examples.antt =====
-- A file of three bytes, a list of five photos, and the theorems at them.
use kotlogram.Base.{ℕ, suc, ◌≡◌, refl, List, [], ◌∷◌, Option, none, some, All, map, arith}
use kotlogram.Base.Int.{ℤ, pos, negsuc, pos_part}
use kotlogram.Base64.{IsByte}
use kotlogram.Error.{Result, ok, err, negative_skip_chunks, bad_chunk_size}
use kotlogram.Markup.Handlers.{first_present}
use kotlogram.Files.Chunks.{validate_chunk_size, message_media, download_media_chunk}
use kotlogram.Files.Reassembled.{chunk_at, downloaded, answer, downloaded-file}
use kotlogram.Files.Photos.{iter_profile_photos}
use kotlogram.Files.Paged.{pages, all_payload, pages-all}

abbrev three_bytes : List ℕ
three_bytes = 104 ∷ 105 ∷ 33 ∷ []

three_bytes-IsByte : All IsByte three_bytes
three_bytes-IsByte = (omega arith, (omega arith, (omega arith, tt)))

abbrev by_id : ℕ → List ℤ → Result (List (Option ℕ))
by_id peer ids = ok (none ∷ some 8 ∷ [])

abbrev media_of : ℕ → Option ℕ
media_of message = some (suc message)

abbrev next_chunk : ℕ → ℤ → ℤ → Result (Option (List ℕ))
next_chunk media size skip = ok (chunk_at (pos_part size) (pos_part skip) three_bytes)

accepts_4096 : validate_chunk_size (pos 4096) ≡ ok (pos 4096)
unfolding validate_chunk_size
accepts_4096 = refl

refuses_4097 : validate_chunk_size (pos 4097) ≡ err (bad_chunk_size (pos 4097))
unfolding validate_chunk_size
refuses_4097 = refl

has_media : message_media by_id media_of 3 (pos 31) ≡ ok 9
unfolding message_media first_present
has_media = refl

downloaded-file_example :
    (downloaded by_id media_of next_chunk 3 (pos 31) 4096 1 ≡ ok three_bytes)
    × (answer by_id media_of next_chunk 3 (pos 31) 4096 1 ≡ ok none)
downloaded-file_example =
    downloaded-file by_id media_of next_chunk 3 (pos 31) 4096 9 three_bytes accepts_4096 has_media
      (λ skip. refl) 1 three_bytes-IsByte (omega arith)

refuses_negative_skip :
    download_media_chunk by_id media_of next_chunk (ok 3) (pos 31) (pos 4096) (negsuc 0)
    ≡ err negative_skip_chunks
unfolding download_media_chunk
refuses_negative_skip = refl

abbrev five_photos : List ℕ
five_photos = 11 ∷ 12 ∷ 13 ∷ 14 ∷ 15 ∷ []

pages-all_example :
    (pages suc 2 five_photos 3 ≡ ok (map suc five_photos))
    × (iter_profile_photos suc (all_payload (some 2) (some (pos 4))) (ok (map ok five_photos))
        ≡ pages suc 2 five_photos 3)
pages-all_example =
    pages-all suc 2 3 five_photos (some 2) (some (pos 4)) (omega arith) (omega arith) (omega arith)

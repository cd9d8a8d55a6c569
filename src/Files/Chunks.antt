-- ===== src/Files/Chunks.antt =====
-- `downloadMediaChunk`: the checks on a request, the chunk that grammers' iterator answers, and its
-- document. What grammers answers of messages, media and chunks is an argument.
use kotlogram.Base.{
  ℕ, ◌%◌, Bool, ◌&&◌, ◌==◌, List, [], ◌∷◌, length, Option, none, some, if◌then◌else◌,
}
use kotlogram.Base.Int.{ℤ, as_i64, pos, negsuc, ◌*ℤ◌, in_range, pos_part}
use kotlogram.Base64.{base64}
use kotlogram.Error.{
  Result, ok, err, ◌>>=◌, ok_or, negative_skip_chunks, bad_chunk_size, message_was_not_found,
  message_without_media,
}
use kotlogram.Markup.Handlers.{first_present}

-- MIN_CHUNK_SIZE and MAX_CHUNK_SIZE
abbrev pub min_chunk_size : ℕ
min_chunk_size = 4096

abbrev pub max_chunk_size : ℕ
max_chunk_size = 524288

-- The remainder is tested of a size that is in range, and so not negative.
unfoldable pub validate_chunk_size : ℤ → Result ℤ
validate_chunk_size size =
    if in_range (pos min_chunk_size) (pos max_chunk_size) size
      && (pos_part size % min_chunk_size == 0)
    then ok size
    else err (bad_chunk_size size)

unfoldable pub chunk_offset : ℤ → ℤ → ℤ
chunk_offset chunk_size skip_chunks = chunk_size *ℤ skip_chunks

-- The base64 text of the bytes, with where they stand and how many they are.
pub record MediaChunkDto : Type 0 where
  pub payload : List ℕ
  pub offset : ℤ
  pub size : ℤ

unfoldable pub chunk_document : ℤ → ℤ → Option (List ℕ) → Option MediaChunkDto
chunk_document chunk_size skip_chunks none = none
chunk_document chunk_size skip_chunks (some bytes) = some (record {
  payload = base64 bytes;
  offset = chunk_offset chunk_size skip_chunks;
  size = as_i64 (length bytes);
})

abbrev is_negative : ℤ → Bool
is_negative (pos n) = Bool.false
is_negative (negsuc n) = Bool.true

module _ {PeerRef Message Media : Type 0}
    (get_messages_by_id : (PeerRef → List ℤ → Result (List (Option Message))))
    (media_of : (Message → Option Media)) where
  unfoldable pub message_media : PeerRef → ℤ → Result Media
  message_media peer id = do
    messages ← get_messages_by_id peer (id ∷ [])
    message ← ok_or (first_present messages) (message_was_not_found id)
    ok_or (media_of message) (message_without_media id)

  -- `peer` is the resolved peer.
  unfoldable pub download_media_chunk :
      (next_chunk : (Media → (chunk_size skip_chunks : ℤ) → Result (Option (List ℕ))))
      → Result PeerRef
      → ℤ
      → (chunk_size skip_chunks : ℤ) → Result (Option MediaChunkDto)
  download_media_chunk next_chunk peer id size skip_chunks =
      if is_negative skip_chunks then err negative_skip_chunks else (do
        chunk_size ← validate_chunk_size size
        peer ← peer
        media ← message_media peer id
        chunk ← next_chunk media chunk_size skip_chunks
        ok (chunk_document chunk_size skip_chunks chunk))

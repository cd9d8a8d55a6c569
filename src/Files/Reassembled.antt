-- ===== src/Files/Reassembled.antt =====
-- A file that is downloaded chunk by chunk is the file.
use kotlogram.Base.{
  ℕ, zero, suc, ◌+◌, ◌*◌, ◌≤◌, ◌≡◌, refl, ap, ◌∙◌, List, [], ◌∷◌, ◌++◌, Option, none, some, length,
  take, drop, take_add, take-length, drop-length, All, All-take, All-drop, arith,
}
use kotlogram.Base.Int.{ℤ, pos}
use kotlogram.Base64.{IsByte, decode_base64}
use kotlogram.Base64.RoundTrip.{decode-encode}
use kotlogram.Error.{Result, ok, ◌>>=◌}
use kotlogram.Files.Chunks.{
  validate_chunk_size, MediaChunkDto, chunk_document, message_media, download_media_chunk,
}

-- The bytes of a part of a file, or none past its end.
abbrev pub present : List ℕ → Option (List ℕ)
present [] = none
present (b ∷ bytes) = some (b ∷ bytes)

-- The part that a chunk of the size holds, after so many chunks.
abbrev pub chunk_at : ℕ → ℕ → List ℕ → Option (List ℕ)
chunk_at size skip file = present (take size (drop (skip * size) file))

-- The bytes of an answer; its absence ends the file.
abbrev pub piece : Option MediaChunkDto → Result (List ℕ)
piece none = ok []
piece (some chunk) = decode_base64 chunk.payload

piece-present :
    (size skip : ℤ) (bytes : List ℕ)
    → All IsByte bytes
    → piece (chunk_document size skip (present bytes)) ≡ ok bytes
unfolding chunk_document
piece-present size skip [] each = refl
piece-present size skip (b ∷ bytes) each = decode-encode (b ∷ bytes) each

module _ {PeerRef Message Media : Type 0}
    (get_messages_by_id : (PeerRef → List ℤ → Result (List (Option Message))))
    (media_of : (Message → Option Media))
    (next_chunk : (Media → (chunk_size skip_chunks : ℤ) → Result (Option (List ℕ))))
    (peer : PeerRef) (id : ℤ) (size : ℕ) where
  abbrev pub answer : ℕ → Result (Option MediaChunkDto)
  answer skip =
      download_media_chunk get_messages_by_id media_of next_chunk (ok peer) id (pos size) (pos skip)

  -- What a caller has after so many requests, one for each chunk in order.
  abbrev pub downloaded : ℕ → Result (List ℕ)
  downloaded zero = ok []
  downloaded (suc n) = do
    front ← downloaded n
    chunk ← answer n
    bytes ← piece chunk
    ok (front ++ bytes)

  module _ (media : Media) (file : List ℕ) (valid : validate_chunk_size (pos size) ≡ ok (pos size))
      (found : message_media get_messages_by_id media_of peer id ≡ ok media)
      (serves : ((skip : ℕ)
        → next_chunk media (pos size) (pos skip) ≡ ok (chunk_at size skip file))) where
    answer-chunk_at :
        (skip : ℕ)
        → answer skip ≡ ok (chunk_document (pos size) (pos skip) (chunk_at size skip file))
    unfolding download_media_chunk
    answer-chunk_at skip = rw (valid, found, serves skip)

    downloaded-take : (n : ℕ) → All IsByte file → downloaded n ≡ ok (take (n * size) file)
    downloaded-take zero each = let none_yet : 0 * size ≡ 0 = omega arith in rw none_yet
    downloaded-take (suc n) each =
        let part = take size (drop (n * size) file) in
        let bytes : All IsByte part =
          All-take IsByte size (drop (n * size) file) (All-drop IsByte (n * size) file each) in
        let whole : suc n * size ≡ n * size + size = omega arith in
        rw (
          downloaded-take n each,
          answer-chunk_at n,
          piece-present (pos size) (pos n) part bytes,
          take_add (n * size) size file,
          whole,
        )

    -- Where the message holds the media, the size is a valid chunk size and grammers serves the bytes of a
    -- file, numbers below 256, chunk by chunk: a caller that asks for one chunk after another, and
    -- puts the decoded answers together, has the file once the chunks cover it, and the next answer
    -- is the end of the file.
    pub downloaded-file :
        (n : ℕ)
        → All IsByte file
        → length file ≤ n * size
        → (downloaded n ≡ ok file) × (answer n ≡ ok none)
    unfolding chunk_document
    downloaded-file n each covered = (
      downloaded-take n each ∙ ap ok (take-length (n * size) file covered),
      rw (answer-chunk_at n, drop-length (n * size) file covered) (past_end size),
    )
      where
        past_end :
            (size : ℕ) → ok (chunk_document (pos size) (pos n) (present (take size []))) ≡ ok none
        past_end zero = refl
        past_end (suc size) = refl

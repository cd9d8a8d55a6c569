-- ===== src/Upload/Stream/Counting.antt =====
-- What a chunk does to the stream it names, on every branch.
use kotlogram.Base.{
  ℕ, ◌+◌, ◌^◌, ◌≤◌, ◌<◌, ◌≡◌, ◌≢◌, Bool, false, List, ◌∷◌, length, some, if◌then◌else◌, arith,
}
use kotlogram.Base.Map
use kotlogram.Base.Map.{get-insert, get-remove}
use kotlogram.Error.{ok, err, received_more_than_declared, no_longer_accepting}
use kotlogram.Upload.Registry.{StreamUpload, UploadRegistry, stream_handle}
use kotlogram.Upload.Stream.{try_update, store_accepted, send_chunk, count_and_send, append_stream}

-- The stream that an id names, where the stream map can be locked.
abbrev pub Names : UploadRegistry → ℕ → StreamUpload → Type 0
Names r id s = (r.streams.is_poisoned ≡ false) × (Map.get id r.streams.value ≡ some s)

-- Where the lock is not poisoned and the count does not wrap, a chunk of at least one byte that fits is
-- counted, exactly once, whether or not the uploader still takes it, and every other stream stays as
-- it was.
pub append_stream-fits :
    (alive : Bool) (id b other : ℕ) (payload : List ℕ) (r : UploadRegistry) (s : StreamUpload)
    → Names r id s
    → s.accepted + length (b ∷ payload) < 2 ^ 64
    → s.accepted + length (b ∷ payload) ≤ s.size
    → other ≢ id
    → let result = append_stream alive id (b ∷ payload) r in
      (result.0 ≡ (if alive then ok tt else err (no_longer_accepting id)))
      × Names result.1 id (record s { accepted = s.accepted + length (b ∷ payload) })
      × (Map.get other result.1.streams.value ≡ Map.get other r.streams.value)
unfolding append_stream stream_handle try_update count_and_send store_accepted send_chunk
append_stream-fits alive id b other payload r s (sound, found) room fits apart =
    let t : StreamUpload = record s { accepted = s.accepted + length (b ∷ payload) } in
    (
      ground arith,
      (ground arith, ground (arith, get-insert id id t r.streams.value)),
      ground (arith, get-insert id other t r.streams.value),
    )

-- Where the lock is not poisoned and the count does not wrap, a chunk that would pass the declared size
-- is refused and changes nothing.
pub append_stream-over :
    (alive : Bool) (id b : ℕ) (payload : List ℕ) (r : UploadRegistry) (s : StreamUpload)
    → Names r id s
    → s.accepted + length (b ∷ payload) < 2 ^ 64
    → s.size < s.accepted + length (b ∷ payload)
    → append_stream alive id (b ∷ payload) r ≡ (err (received_more_than_declared id s.size), r)
unfolding append_stream stream_handle try_update count_and_send
append_stream-over alive id b payload r s (sound, found) room over = ground arith

-- ===== src/Upload/Delivery.antt =====
-- The life of one streamed upload: a producer that sends chunks and drops its sender, and the
-- uploader that reads them through the counting reader, in any order. A read is one step.
use mathlib.Core.List.{flatten}
use kotlogram.Base.{
  ℕ, ◌+◌, ◌%◌, ◌^◌, ◌<◌, ◌≡◌, inl, inr, refl, sym, ap, subst, ◌∙◌, false, List, [], ◌∷◌, ◌++◌,
  append-nil, append_assoc, length, length-append, some, arith,
}
use kotlogram.Upload.Channel.{Channel, Chunk, Poll, ready, pending}
use kotlogram.Upload.Progress.{UploadProgress, add, starting_at}
use kotlogram.Upload.Reader.{ChannelReader, new, ProgressReader, counted, progress_read}
use kotlogram.Upload.Reading.{unread, Reads, poll_read-Reads}

flatten-snoc {ℓ} :
    {A : Type ℓ} (xs : List (List A)) (x : List A) → flatten (xs ++ x ∷ []) ≡ flatten xs ++ x
unfolding flatten
flatten-snoc [] x = append-nil x
flatten-snoc (y ∷ xs) x = rw (append_assoc, flatten-snoc xs x)

module _ (ch : Channel) where
  open ch use {Chan, queued, is_open, try_send, close, send-some, queued-close}

  -- The reader, with all the bytes sent and all the bytes handed over so far.
  pub record Stream : Type 0 where
    pub reader : ProgressReader ch
    pub sent : List ℕ
    pub got : List ℕ

  abbrev channel : Stream → Chan
  channel s = s.reader.inner.receiver

  abbrev with_channel : Stream → Chan → ProgressReader ch
  with_channel s c = record {
    inner = record {
      receiver = c;
      current = s.reader.inner.current;
      position = s.reader.inner.position;
    };
    progress = s.reader.progress;
  }

  abbrev pub start : Chan → ℕ → ℕ → Stream
  start c total now = record {
    reader = record { inner = new ch c; progress = starting_at total now };
    sent = [];
    got = [];
  }

  pub data Step (s : Stream) : Stream → Type 0 where
    sends :
        (x : Chunk) (c : Chan)
        → try_send (channel s) x ≡ some c
        → Step s (record { reader = with_channel s c; sent = s.sent ++ x; got = s.got })
    drops :
        Step s (record { reader = with_channel s (close (channel s)); sent = s.sent; got = s.got })
    reads :
        (n : ℕ) (bytes : Chunk) (r : ProgressReader ch)
        → progress_read ch s.reader n ≡ some (ready bytes, r)
        → Step s (record { reader = r; sent = s.sent; got = s.got ++ bytes })
    -- Between two polls the runtime may change what it keeps for the task, and no message.
    yields :
        (c : Chan)
        → queued c ≡ queued (channel s)
        → is_open c ≡ is_open (channel s)
        → Step s (record { reader = with_channel s c; sent = s.sent; got = s.got })
    waits :
        (n : ℕ) (r : ProgressReader ch)
        → progress_read ch s.reader n ≡ some (pending, r)
        → Step s (record { reader = r; sent = s.sent; got = s.got })

  pub data Reach (s : Stream) : Stream → Type 0 where
    here : Reach s s
    further : {t u : Stream} → Reach s t → Step t u → Reach s u

  pub record InOrder (s : Stream) : Type 0 where
    pub order : s.got ++ unread ch s.reader.inner ≡ s.sent
    pub count : s.reader.progress.sent ≡ length s.got % 2 ^ 64

  -- A counted read is a read, with its bytes added to the counter.
  abbrev Counts : ProgressReader ch → ℕ → Poll Chunk × ProgressReader ch → Type 0
  Counts r n (out, r') =
      Reads ch r.inner n out r'.inner × (r' ≡ (counted ch r.progress (out, r'.inner)).1)

  counted-Counts :
      (r : ProgressReader ch) (n : ℕ) (out : Poll Chunk) (q : ChannelReader ch)
      → Reads ch r.inner n out q
      → Counts r n (counted ch r.progress (out, q))
  unfolding counted
  counted-Counts r n (ready bytes) q h = (h, refl)
  counted-Counts r n pending q h = (h, refl)

  progress_read_lem :
      (r : ProgressReader ch) (n : ℕ) (result : Poll Chunk × ProgressReader ch)
      → progress_read ch r n ≡ some result
      → Counts r n result
  unfolding progress_read
  progress_read_lem r n result h =
      let (out, q, ran, read) = poll_read-Reads ch r.inner n in
      let ended : some (counted ch r.progress (out, q)) ≡ some result =
        rw (ran, progress_read) at h in
      let same : counted ch r.progress (out, q) ≡ result = cc in
      subst (Counts r n) same (counted-Counts r n out q read)

  counted-sent :
      (p : UploadProgress) (n : ℕ) (bytes : Chunk) (q : ChannelReader ch)
      → p.sent ≡ n % 2 ^ 64
      → (counted ch p (ready bytes, q)).1.progress.sent ≡ (n + length bytes) % 2 ^ 64
  unfolding counted add
  counted-sent p n bytes q h = ground arith

  waited : (p : UploadProgress) (q : ChannelReader ch) → (counted ch p (pending, q)).1.progress ≡ p
  unfolding counted
  waited p q = refl

  start-InOrder : (c : Chan) (total now : ℕ) → queued c ≡ [] → InOrder (start c total now)
  unfolding new starting_at flatten
  start-InOrder c total now e = record { order = rw e; count = refl }

  unread-sent :
      (s : Stream) (x : Chunk) (c : Chan)
      → queued c ≡ queued (channel s) ++ x ∷ []
      → unread ch (with_channel s c).inner ≡ unread ch s.reader.inner ++ x
  unread-sent s x c grown = rw (grown, flatten-snoc, append_assoc)

  Step-InOrder : {s t : Stream} → Step s t → InOrder s → InOrder t
  Step-InOrder {s} (sends x c h) v =
      let (grown, _, _, _) = send-some (channel s) c x h in
      record {
        order = rw (unread-sent s x c grown, ← append_assoc) (ap (λ l. l ++ x) v.order);
        count = v.count;
      }
  Step-InOrder {s} drops v = record {
    order = rw (queued-close (channel s)) v.order;
    count = v.count;
  }
  Step-InOrder {s} (reads n bytes r h) v =
      let ((same, few, ends, stays), made) = progress_read_lem s.reader n (ready bytes, r) h in
      record {
        order = rw (append_assoc, same) v.order;
        count =
            rw (made, length-append)
              (counted-sent s.reader.progress (length s.got) bytes r.inner v.count);
      }
  Step-InOrder {s} (yields c same alive) v = record { order = rw same v.order; count = v.count }
  Step-InOrder {s} (waits n r h) v =
      let ((left, failed, stays), made) = progress_read_lem s.reader n (pending, r) h in
      record { order = rw left v.order; count = rw (made, waited) v.count }

  Reach-InOrder : {s t : Stream} → InOrder s → Reach s t → InOrder t
  Reach-InOrder v here = v
  Reach-InOrder v (further r st) = Step-InOrder st (Reach-InOrder v r)

  -- From an empty channel, whatever chunks are sent, whenever the sender is dropped and however
  -- the reads are sized, interleaved and made to wait: the bytes handed over, followed by the bytes not
  -- yet read, are the bytes sent, in order, and the progress counter is the number of bytes handed
  -- over, modulo 2 ^ 64.
  pub upload-InOrder :
      (c : Chan) (total now : ℕ) {s : Stream}
      → queued c ≡ []
      → Reach (start c total now) s
      → InOrder s
  upload-InOrder c total now e r = Reach-InOrder (start-InOrder c total now e) r

  -- After any run from an empty channel, a read with room that answers no byte is the end of the
  -- stream: the sender was dropped, and every byte that was ever sent has been handed over.
  pub end_of_stream :
      (c : Chan) (total now n : ℕ) {s : Stream} (r : ProgressReader ch)
      → queued c ≡ []
      → Reach (start c total now) s
      → 0 < n
      → progress_read ch s.reader n ≡ some (ready [], r)
      → (s.got ≡ s.sent) × (is_open (channel s) ≡ false)
  end_of_stream c total now n {s} r e reached room h =
      let v = upload-InOrder c total now e reached in
      let ((same, few, ends, stays), made) = progress_read_lem s.reader n (ready [], r) h in
      elim (ends refl) [
        | inl full ↦ absurd (omega arith)
        | inr (all, gone) ↦ (sym (append-nil s.got) ∙ (rw all at v.order), gone)
      ]

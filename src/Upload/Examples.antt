-- ===== src/Upload/Examples.antt =====
-- A channel of two places whose polls can fail, and uploads run at concrete inputs.
use kotlogram.Base.{
  ℕ, zero, suc, ◌≤◌, ◌≡◌, refl, Bool, true, false, List, [], ◌∷◌, ◌++◌, length, length-append,
  Option, none, some, if◌then◌else◌, ltb, arith,
}
use kotlogram.Upload.Channel.{Channel, Chunk, Poll, ready, pending}
use kotlogram.Upload.Progress.{starting_at, add}
use kotlogram.Upload.Reader.{
  ChannelReader, new, ProgressReader, poll_read, progress_read, poll_loop, received, counted,
  hand_over,
}
use kotlogram.Upload.Reading.{Reads, poll_read-Reads}
use kotlogram.Upload.Delivery.{
  Stream, start, sends, drops, reads, waits, Reach, here, further, InOrder, upload-InOrder,
  end_of_stream,
}
use kotlogram.Error.{ok, err, received_more_than_declared}
use kotlogram.Base.Map
use kotlogram.Exec.{unlocked}
use kotlogram.Upload.Registry.{file, UploadRegistry, default, next, register, get}
use kotlogram.Upload.Stream.{append_stream, upload_stream_finish, upload_file, finish_upload}
use kotlogram.Upload.Stream.Calls.{
  Call, stream_begin, stream_chunk, stream_finish, path, step, run, Inv,
}
use kotlogram.Upload.Stream.Counting.{Names, append_stream-fits, append_stream-over}
use kotlogram.Upload.Stream.Finishing.{Ends, upload_stream_finish_lem}
use kotlogram.Upload.Stream.History.{registry-Inv}
use kotlogram.Upload.Stream.Handles.{handle-Holds}

-- `lapses` polls fail, whatever waits.
pub record Buffer : Type 0 where
  pub chunks : List Chunk
  pub alive : Bool
  pub lapses : ℕ

abbrev channel_of : List Chunk → Bool → ℕ → Buffer
channel_of chunks alive lapses = record { chunks = chunks; alive = alive; lapses = lapses }

abbrev receive : List Chunk → Bool → ℕ → Poll (Option Chunk) × Buffer
receive chunks alive (suc lapses) = (pending, channel_of chunks alive lapses)
receive (x ∷ rest) alive zero = (ready (some x), channel_of rest alive zero)
receive [] true zero = (pending, channel_of [] true zero)
receive [] false zero = (ready none, channel_of [] false zero)

abbrev push : Buffer → Chunk → Option Buffer
push b x =
    if ltb (length b.chunks) 2
    then (if b.alive then some (channel_of (b.chunks ++ x ∷ []) true b.lapses) else none)
    else none

push-laws :
    (c d : Buffer) (x : Chunk)
    → push c x ≡ some d
    → (d.chunks ≡ c.chunks ++ x ∷ []) × (c.alive ≡ true) × (d.alive ≡ true) × (length d.chunks ≤ 2)
push-laws c d x h = (
  ground (arith, length-append c.chunks (x ∷ [])),
  ground arith,
  ground arith,
  ground (arith, length-append c.chunks (x ∷ [])),
)

receives-some :
    (chunks : List Chunk) (alive : Bool) (lapses : ℕ) (x : Chunk)
    → (receive chunks alive lapses).0 ≡ ready (some x)
    → (chunks ≡ x ∷ (receive chunks alive lapses).1.chunks)
      × ((receive chunks alive lapses).1.alive ≡ alive)
receives-some chunks alive (suc lapses) x h = absurd (ground arith)
receives-some (y ∷ rest) alive zero x h = (ground arith, refl)
receives-some [] true zero x h = absurd (ground arith)
receives-some [] false zero x h = absurd (ground arith)

receives-none :
    (chunks : List Chunk) (alive : Bool) (lapses : ℕ)
    → (receive chunks alive lapses).0 ≡ ready none
    → (chunks ≡ [])
      × (alive ≡ false)
      × ((receive chunks alive lapses).1.chunks ≡ [])
      × ((receive chunks alive lapses).1.alive ≡ false)
receives-none chunks alive (suc lapses) h = absurd (ground arith)
receives-none (y ∷ rest) alive zero h = absurd (ground arith)
receives-none [] true zero h = absurd (ground arith)
receives-none [] false zero h = (refl, refl, refl, refl)

receives-pending :
    (chunks : List Chunk) (alive : Bool) (lapses : ℕ)
    → (receive chunks alive lapses).0 ≡ pending
    → ((receive chunks alive lapses).1.chunks ≡ chunks)
      × ((receive chunks alive lapses).1.alive ≡ alive)
receives-pending chunks alive (suc lapses) h = (refl, refl)
receives-pending (y ∷ rest) alive zero h = absurd (ground arith)
receives-pending [] true zero h = (refl, refl)
receives-pending [] false zero h = absurd (ground arith)

abbrev buffer : Channel
buffer = record {
  Chan = Buffer;
  capacity = 2;
  queued = λ b. b.chunks;
  is_open = λ b. b.alive;
  poll_recv = λ b. receive b.chunks b.alive b.lapses;
  try_send = push;
  close = λ b. record b { alive = false };
  recv-some = λ c. receives-some c.chunks c.alive c.lapses;
  recv-none = λ c. receives-none c.chunks c.alive c.lapses;
  recv-pending = λ c. receives-pending c.chunks c.alive c.lapses;
  send-some = push-laws;
  queued-close = λ c. refl;
  is_open-close = λ c. refl;
}

abbrev empty_channel : Buffer
empty_channel = channel_of [] true 1

-- A read that the channel fails although a chunk waits.
failed_read :
    poll_read buffer (new buffer (channel_of ((3 ∷ []) ∷ []) true 1)) 5
    ≡ some (pending, new buffer (channel_of ((3 ∷ []) ∷ []) true 0))
unfolding poll_read poll_loop new
failed_read = refl

abbrev two_chunks : ChannelReader buffer
two_chunks = record {
  receiver = channel_of ((1 ∷ 2 ∷ []) ∷ (3 ∷ []) ∷ []) false 0;
  current = [];
  position = 0;
}

poll_read-Reads_example :
    (out : Poll Chunk) × (r' : ChannelReader buffer) × (poll_read buffer two_chunks 1
      ≡ some (out, r'))
    × Reads buffer two_chunks 1 out r'
poll_read-Reads_example = poll_read-Reads buffer two_chunks 1

first_byte :
    poll_read buffer two_chunks 1
    ≡ some (
      ready (1 ∷ []),
      record { receiver = channel_of ((3 ∷ []) ∷ []) false 0; current = 1 ∷ 2 ∷ []; position = 1 },
    )
unfolding poll_read poll_loop received hand_over
first_byte = refl

abbrev begun : Stream buffer
begun = start buffer empty_channel 2 0

abbrev sent_two : Stream buffer
sent_two = record {
  reader = record {
    inner = record { receiver = channel_of ((7 ∷ 8 ∷ []) ∷ []) true 1; current = []; position = 0 };
    progress = starting_at 2 0;
  };
  sent = 7 ∷ 8 ∷ [];
  got = [];
}

reach_two : Reach buffer begun sent_two
unfolding new
reach_two = further here (sends (7 ∷ 8 ∷ []) (channel_of ((7 ∷ 8 ∷ []) ∷ []) true 1) refl)

upload-InOrder_example : InOrder buffer sent_two
upload-InOrder_example = upload-InOrder buffer empty_channel 2 0 refl reach_two

abbrev dropped_two : Stream buffer
dropped_two = record {
  reader = record {
    inner = record {
      receiver = channel_of ((7 ∷ 8 ∷ []) ∷ []) false 0;
      current = [];
      position = 0;
    };
    progress = starting_at 2 0;
  };
  sent = 7 ∷ 8 ∷ [];
  got = [];
}

abbrev drained_reader : ℕ → ProgressReader buffer
drained_reader n = record {
  inner = record { receiver = channel_of [] false 0; current = []; position = 0 };
  progress = record { total = 2; sent = n; started = 0 };
}

abbrev all_read : Stream buffer
all_read = record { reader = drained_reader 2; sent = 7 ∷ 8 ∷ []; got = 7 ∷ 8 ∷ [] }

reach_drained : Reach buffer begun all_read
unfolding progress_read poll_read poll_loop received counted hand_over add starting_at
reach_drained =
    further (further (further reach_two drops) (waits 5 dropped_two.reader refl))
      (reads 5 (7 ∷ 8 ∷ []) (drained_reader 2) refl)

drained_read : progress_read buffer (drained_reader 2) 1 ≡ some (ready [], drained_reader 2)
unfolding progress_read poll_read poll_loop counted
drained_read = refl

end_of_stream_example :
    (all_read.got ≡ all_read.sent) × (all_read.reader.inner.receiver.alive ≡ false)
end_of_stream_example =
    end_of_stream buffer empty_channel 2 0 1 {s = all_read} (drained_reader 2) refl reach_drained
      (omega arith) drained_read

-- "AQI=" is two bytes.
abbrev one_upload : List Call
one_upload =
    stream_begin 2 0
    ∷ stream_chunk true 0 (65 ∷ 81 ∷ 73 ∷ 61 ∷ [])
    ∷ stream_finish 0 (ok (file 9 1 [] []))
    ∷ []

registry-Inv_example : Inv (run default one_upload)
registry-Inv_example = registry-Inv one_upload (omega arith)

abbrev from_path : List Call
from_path = path (ok 2) none (ok (file 9 1 [] [])) ∷ []

uploaded_once : (get 0 (run default from_path)).0 ≡ ok (file 9 1 [] [])
unfolding run step upload_file finish_upload register next get Map.insert Map.get Map.remove
uploaded_once = refl

handle-Holds_example :
    (get 0 (run (run default from_path) (stream_begin 4 0 ∷ []))).0 ≡ ok (file 9 1 [] [])
handle-Holds_example =
    handle-Holds 0 (file 9 1 [] []) from_path (stream_begin 4 0 ∷ []) (omega arith) uploaded_once

abbrev one_stream : ℕ → UploadRegistry
one_stream accepted = record {
  streams = unlocked ((0, record { size = 3; accepted = accepted }) ∷ []);
  uploads = unlocked [];
  progresses = unlocked [];
  next_handle = 1;
}

Names-one : Names (one_stream 2) 0 (record { size = 3; accepted = 2 })
unfolding Map.get
Names-one = (refl, refl)

append_stream-fits_example :
    let result = append_stream true 0 (5 ∷ []) (one_stream 2) in
    (result.0 ≡ ok tt)
    × Names result.1 0 (record { size = 3; accepted = 3 })
    × (Map.get 8 result.1.streams.value ≡ Map.get 8 (one_stream 2).streams.value)
append_stream-fits_example =
    append_stream-fits true 0 5 8 [] (one_stream 2) (record { size = 3; accepted = 2 }) Names-one
      (omega arith) (omega arith) (λ e. omega (arith, e))

append_stream-over_example :
    append_stream true 0 (5 ∷ 6 ∷ []) (one_stream 2)
    ≡ (err (received_more_than_declared 0 3), one_stream 2)
append_stream-over_example =
    append_stream-over true 0 5 (6 ∷ []) (one_stream 2) (record { size = 3; accepted = 2 })
      Names-one (omega arith) (omega arith)

Names-full : Names (one_stream 3) 0 (record { size = 3; accepted = 3 })
unfolding Map.get
Names-full = (refl, refl)

upload_stream_finish_example :
    let result = upload_stream_finish 0 (ok (file 9 1 [] [])) (one_stream 3) in
    (Map.get 0 result.1.streams.value ≡ none)
    × (Map.get 5 result.1.streams.value ≡ Map.get 5 (one_stream 3).streams.value)
    × Ends true (ok (file 9 1 [] [])) 0 (unlocked []) 1 (record { size = 3; accepted = 3 }) result
upload_stream_finish_example =
    upload_stream_finish_lem 0 5 (ok (file 9 1 [] [])) (one_stream 3)
      (record { size = 3; accepted = 3 }) Names-full refl (λ e. omega (arith, e))

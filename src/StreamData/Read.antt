-- ===== src/StreamData/Read.antt =====
-- src/transport/rqc_stream.c: the loops of rqc_stream_recv and rqc_stream_peek over the frames that
-- wait.
pub mod Content
pub mod Turns
pub mod Deliver
pub mod Arrive
pub mod Peek
use rquic.Base.{
  ℕ, ◌+◌, ◌-◌, ◌%◌, ◌^◌, min, max, minus, take, drop, List, [], ◌∷◌, ◌++◌, ltb, leb, if◌then◌else◌,
}
use rquic.StreamData.{StreamFrame, data_end}

-- What the loop of rqc_stream_recv does with a frame: `break`, free it, copy what is left of it from
-- an offset on and free it, or copy as many bytes as the buffer takes.
pub data Turn : Type 0 where
  stop : Turn
  freed : Turn
  whole : ℕ → ℕ → Turn
  part : ℕ → ℕ → Turn

-- `stream_frame->next_read_offset` before the copy
pub read_from : ℕ → StreamFrame → ℕ
read_from next frame =
    if ltb frame.data_offset next
    then max frame.next_read_offset (minus next frame.data_offset)
    else frame.next_read_offset

pub turn : ℕ → ℕ → ℕ → ℕ → StreamFrame → Turn
turn merged size next read frame =
    let at = read_from next frame in
    let frame_left = minus frame.data_length at in
    if ltb merged frame.data_offset
    then stop
    else if leb size read
    then stop
    else if ltb (data_end frame) next
    then freed
    else if leb ((read + frame_left) % 2 ^ 64) size
    then whole at frame_left
    else part at (size - read)

-- What the loop leaves: the bytes copied, `next_read_offset`, `read` and the list.
pub record Taken : Type 0 where
  pub copied : List ℕ
  pub next : ℕ
  pub read : ℕ
  pub frames : List StreamFrame

-- `memcpy` of `count` bytes from an offset of the frame
pub slice : ℕ → ℕ → StreamFrame → List ℕ
slice at count frame = take count (drop at frame.bytes)

pub after_copy : List ℕ → Taken → Taken
after_copy bytes taken = record taken { copied = bytes ++ taken.copied }

-- The turn is carried out; `further` is the loop over the frames behind, from `next_read_offset` and
-- `read`.
pub take_turn : ℕ → ℕ → ℕ → StreamFrame → List StreamFrame → (ℕ → ℕ → Taken) → Turn → Taken
take_turn size next read frame rest further stop = record {
  copied = [];
  next = next;
  read = read;
  frames = frame ∷ rest;
}
take_turn size next read frame rest further freed = further next read
take_turn size next read frame rest further (whole at left) =
    after_copy (slice at left frame) (further ((next + left) % 2 ^ 64) ((read + left) % 2 ^ 64))
take_turn size next read frame rest further (part at count) = record {
  copied = slice at count frame;
  next = (next + count) % 2 ^ 64;
  read = size;
  frames = record frame { next_read_offset = (at + count) % 2 ^ 64 } ∷ rest;
}

-- The loop of rqc_stream_recv: from `merged_offset_end`, `recv_buf_size`, `next_read_offset` and `read`
pub read_frames : ℕ → ℕ → ℕ → ℕ → List StreamFrame → Taken
unfolding take_turn turn read_from
read_frames merged size next read [] = record { copied = []; next = next; read = read; frames = [] }
read_frames merged size next read (frame ∷ rest) =
    take_turn size next read frame rest (λ n r. read_frames merged size n r rest)
      (turn merged size next read frame)

-- The loop of rqc_stream_peek: `cursor` and `copied`
pub peek_frames : ℕ → ℕ → ℕ → List StreamFrame → List ℕ
peek_frames size cursor copied [] = []
peek_frames size cursor copied (frame ∷ rest) =
    let count = min (minus (data_end frame) cursor) (size - copied) in
    let skipped = peek_frames size cursor copied rest in
    let further = peek_frames size ((cursor + count) % 2 ^ 64) ((copied + count) % 2 ^ 64) rest in
    if leb (data_end frame) cursor
    then skipped
    else if ltb cursor frame.data_offset
    then []
    else if leb size copied
    then []
    else slice (minus cursor frame.data_offset) count frame ++ further

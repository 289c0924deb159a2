-- ===== src/StreamData.antt =====
-- src/transport/rqc_frame.c, rqc_insert_stream_frame: the STREAM frames of a stream that wait to be
-- read, in the order of their offsets. The list frames_tailq is a list from its head; numbers are
-- 64-bit words.
pub mod Cover
pub mod Merge
pub mod Arrival
pub mod Read
mod Tests
use rquic.Base.{
  ℕ, ◌+◌, ◌%◌, ◌^◌, max, Bool, true, false, ◌&&◌, ◌||◌, List, [], ◌∷◌, ltb, leb, if◌then◌else◌,
}

-- rqc_stream_frame_t; `bytes` is what `data` points to.
pub record StreamFrame : Type 0 where
  pub bytes : List ℕ
  pub data_length : ℕ
  pub data_offset : ℕ
  pub next_read_offset : ℕ
  pub fin : Bool

-- rqc_stream_data_in_t
pub record StreamDataIn : Type 0 where
  pub frames_tailq : List StreamFrame
  pub merged_offset_end : ℕ
  pub next_read_offset : ℕ
  pub stream_length : ℕ
  pub stream_determined : Bool

-- RQC_OK and -RQC_EDUP_FRAME
pub data Status : Type 0 where
  ok edup_frame : Status

-- `data_offset + data_length`
unfoldable pub data_end : StreamFrame → ℕ
data_end frame = (frame.data_offset + frame.data_length) % 2 ^ 64

-- How the scan from the tail ends.
pub data Scan : Type 0 where
  -- A frame that has all bytes of the new one.
  already_recvd : Scan
  -- The list with the new frame, and what follows it.
  inserted : List StreamFrame → List StreamFrame → Scan
  -- No frame starts at or before the new one.
  not_inserted : Scan

-- The test of a frame of the list, when no later one ended the scan.
pub visit : StreamFrame → StreamFrame → List StreamFrame → Scan → Scan
visit new_frame frame next already_recvd = already_recvd
visit new_frame frame next (inserted l following) = inserted (frame ∷ l) following
visit new_frame frame next not_inserted =
    if leb frame.data_offset new_frame.data_offset
      && (ltb 0 new_frame.data_length && leb (data_end new_frame) (data_end frame))
    then already_recvd
    else if leb frame.data_offset new_frame.data_offset
    then inserted (frame ∷ new_frame ∷ next) next
    else not_inserted

-- rqc_list_for_each_reverse: the later frames are visited first.
pub scan : StreamFrame → List StreamFrame → Scan
unfolding visit
scan new_frame [] = not_inserted
scan new_frame (frame ∷ next) = visit new_frame frame next (scan new_frame next)

-- The loop that carries merged_offset_end over the frames that it reaches.
pub carry : ℕ → List StreamFrame → ℕ
carry merged [] = merged
carry merged (frame ∷ next) =
    let further = carry (max (data_end frame) merged) next in
    if leb frame.data_offset merged then further else merged

-- The merge, once the frame stands in the list before `following`.
pub merge : StreamFrame → List StreamFrame → ℕ → ℕ
unfolding carry
merge new_frame following merged =
    if leb new_frame.data_offset merged && ltb merged (data_end new_frame)
    then carry (data_end new_frame) following
    else merged

pub settle_scan : StreamDataIn → StreamFrame → Scan → Status × StreamDataIn
unfolding merge
settle_scan data_in new_frame already_recvd = (edup_frame, data_in)
settle_scan data_in new_frame (inserted l following) = (
  ok,
  record data_in {
    frames_tailq = l;
    merged_offset_end = merge new_frame following data_in.merged_offset_end;
  },
)
settle_scan data_in new_frame not_inserted = (
  ok,
  record data_in {
    frames_tailq = new_frame ∷ data_in.frames_tailq;
    merged_offset_end = merge new_frame data_in.frames_tailq data_in.merged_offset_end;
  },
)

-- rqc_insert_stream_frame
unfoldable pub insert_stream_frame : StreamDataIn → StreamFrame → Status × StreamDataIn
unfolding settle_scan scan
insert_stream_frame data_in new_frame =
    settle_scan data_in new_frame (scan new_frame data_in.frames_tailq)

-- Whether a byte of the stream is in a frame, and in one of a list.
unfoldable pub within : ℕ → StreamFrame → Bool
within n frame = leb frame.data_offset n && ltb n (data_end frame)

unfoldable pub contains : ℕ → List StreamFrame → Bool
contains n [] = false
contains n (frame ∷ next) = within n frame || contains n next

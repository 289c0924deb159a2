-- ===== src/StreamData/Tests.antt =====
-- Concrete arrivals of STREAM frames.
use rquic.Base.{length, List, false, ℕ, ◌≡◌, refl, arith, ◌||◌, [], ◌∷◌, All}
use rquic.StreamData.{StreamFrame, StreamDataIn, data_end, within, contains, insert_stream_frame}
use rquic.StreamData.Cover.{Fits, Sorted}
use rquic.StreamData.Merge.{IsValid}
use rquic.StreamData.Arrival.{
  insert_stream_frame-IsValid, contains-insert_stream_frame, insert_all, insert_all_order,
}

-- A frame that nothing has been read from.
abbrev frame : List ℕ → ℕ → StreamFrame
frame bytes offset = record {
  bytes = bytes;
  data_length = length bytes;
  data_offset = offset;
  next_read_offset = 0;
  fin = false;
}

-- Bytes 0 to 3 and 6 to 7 have come.
abbrev with_hole : StreamDataIn
with_hole = record {
  frames_tailq = frame (10 ∷ 11 ∷ 12 ∷ 13 ∷ []) 0 ∷ frame (16 ∷ 17 ∷ []) 6 ∷ [];
  merged_offset_end = 4;
  next_read_offset = 0;
  stream_length = 0;
  stream_determined = false;
}

abbrev filler : StreamFrame
filler = frame (13 ∷ 14 ∷ 15 ∷ []) 3

abbrev first_part : StreamFrame
first_part = frame (14 ∷ []) 4

abbrev second_part : StreamFrame
second_part = frame (14 ∷ 15 ∷ []) 4

with_hole-IsValid : IsValid 0 with_hole
unfolding IsValid Sorted Fits contains within data_end
with_hole-IsValid = (
  (omega arith, omega arith, (omega arith, omega arith, tt)),
  omega arith,
  λ n a b. ground arith,
  refl,
)

filler-Fits : Fits filler
unfolding Fits
filler-Fits = omega arith

insert_stream_frame-IsValid_example : IsValid 0 (insert_stream_frame with_hole filler).1
insert_stream_frame-IsValid_example =
    insert_stream_frame-IsValid 0 with_hole filler with_hole-IsValid filler-Fits

contains-insert_stream_frame_example :
    contains 5 (insert_stream_frame with_hole filler).1.frames_tailq
    ≡ (contains 5 with_hole.frames_tailq || within 5 filler)
contains-insert_stream_frame_example =
    contains-insert_stream_frame 0 5 with_hole filler with_hole-IsValid filler-Fits

-- A frame and the same bytes in two frames, the later one first.
whole-Fits : All Fits (second_part ∷ [])
unfolding Fits
whole-Fits = (omega arith, tt)

parts-Fits : All Fits (second_part ∷ first_part ∷ [])
unfolding Fits
parts-Fits = (omega arith, (omega arith, tt))

parts-same : (n : ℕ) → contains n (second_part ∷ []) ≡ contains n (second_part ∷ first_part ∷ [])
unfolding contains within data_end
parts-same n = ground arith

insert_all_order_example :
    (insert_all (second_part ∷ []) with_hole).merged_offset_end
    ≡ (insert_all (second_part ∷ first_part ∷ []) with_hole).merged_offset_end
insert_all_order_example =
    insert_all_order 0 with_hole (second_part ∷ []) (second_part ∷ first_part ∷ [])
      with_hole-IsValid whole-Fits parts-Fits parts-same

-- The frame of bytes 3 to 5 closes the hole.
closed : (insert_stream_frame with_hole filler).1.merged_offset_end ≡ 8
unfolding insert_stream_frame data_end
closed = refl

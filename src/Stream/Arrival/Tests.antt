-- ===== src/Stream/Arrival/Tests.antt =====
-- A frame that is accepted, and one that is refused.
use rquic.Base.{
  ◌≡◌, refl, arith, [], ◌∷◌, ◌⊎◌, inl, ◌≢◌, ◌<◌, ◌^◌, ◌==◌, if◌then◌else◌, true, false,
}
use rquic.StreamData.{data_end, insert_stream_frame}
use rquic.Stream.{Stream, final_size_error}
use rquic.Stream.Arrival.{ok, process_stream_frame, eproto}
use rquic.Stream.Arrival.Limits.{WithinLimits, Grown, EndBy, process_stream_frame-WithinLimits}
use rquic.Stream.Arrival.FinalSize.{process_stream_frame_final_size}
use rquic.Stream.Sample.{frame, stream, conn, clock}

start-WithinLimits : WithinLimits stream conn
unfolding EndBy data_end
start-WithinLimits = record {
  of_frames = (omega arith, (omega arith, tt));
  of_stream = omega arith;
  of_conn = omega arith;
}

ends_early : data_end (frame (18 ∷ 19 ∷ []) 8) < 2 ^ 63
unfolding data_end
ends_early = omega arith

taken : (process_stream_frame clock stream conn (frame (18 ∷ 19 ∷ []) 8)).0 ≡ ok
unfolding process_stream_frame data_end insert_stream_frame
taken = refl

process_stream_frame-WithinLimits_example :
    WithinLimits
      (process_stream_frame clock stream conn (frame (18 ∷ 19 ∷ []) 8)).1
      (process_stream_frame clock stream conn (frame (18 ∷ 19 ∷ []) 8)).2
    × Grown stream conn
        (process_stream_frame clock stream conn (frame (18 ∷ 19 ∷ []) 8)).1
        (process_stream_frame clock stream conn (frame (18 ∷ 19 ∷ []) 8)).2
process_stream_frame-WithinLimits_example =
    process_stream_frame-WithinLimits clock stream conn (frame (18 ∷ 19 ∷ []) 8) start-WithinLimits
      (omega arith) ends_early taken

-- The final size is 8, and a frame brings bytes 8 and 9.
abbrev ended : Stream
ended = record stream {
  stream_data_in = record stream.stream_data_in { stream_length = 8; stream_determined = true };
}

ends_behind :
    (ended.stream_data_in.stream_length < data_end (frame (18 ∷ 19 ∷ []) 8))
    ⊎ ((false ≡ true) × (ended.stream_data_in.stream_length ≢ data_end (frame (18 ∷ 19 ∷ []) 8)))
unfolding data_end
ends_behind = inl (omega arith)

new_bytes : ended.stream_data_in.merged_offset_end < data_end (frame (18 ∷ 19 ∷ []) 8)
unfolding data_end
new_bytes = omega arith

process_stream_frame_final_size_example :
    ((process_stream_frame clock ended conn (frame (18 ∷ 19 ∷ []) 8)).0 ≡ eproto)
    × ((process_stream_frame clock ended conn (frame (18 ∷ 19 ∷ []) 8)).1 ≡ ended)
    × ((process_stream_frame clock ended conn (frame (18 ∷ 19 ∷ []) 8)).2.conn_err
        ≡ (if 0 == 0 then final_size_error else 0))
    × ((process_stream_frame clock ended conn (frame (18 ∷ 19 ∷ []) 8)).2.conn_flow_ctl
        ≡ conn.conn_flow_ctl)
process_stream_frame_final_size_example =
    process_stream_frame_final_size clock ended conn (frame (18 ∷ 19 ∷ []) 8) (omega arith) refl
      new_bytes ends_behind

-- ===== src/Stream/Arrival.antt =====
-- src/transport/rqc_frame.c: the STREAM and RESET_STREAM frames of a stream that exists.
pub mod Limits
pub mod Waiting
pub mod FinalSize
mod Tests
use rquic.Base.{
  ℕ, ◌+◌, ◌-◌, ◌%◌, ◌^◌, minus, Bool, true, false, ◌&&◌, not, [], ltb, leb, ◌==◌, if◌then◌else◌,
}
use rquic.StreamData.{StreamFrame, StreamDataIn, Status, edup_frame, data_end, insert_stream_frame}
use rquic.Stream.{
  RecvState, recv_rank, Stream, Conn, Clock, flow_control_error, final_size_error, conn_error,
}
use rquic.Stream.Close.{stream_ready_to_read, stream_close_discarded_stream}

-- RQC_OK and -RQC_EPROTO
pub data Result : Type 0 where
  ok eproto : Result

-- `stream_length`, `stream_determined` and the state, for a frame with `fin`
pub note_fin : Stream → StreamFrame → Stream
note_fin stream frame =
    let data_in = stream.stream_data_in in
    if frame.fin
    then record stream {
      stream_data_in = record data_in { stream_length = data_end frame; stream_determined = true };
      stream_state_recv =
          if recv_rank stream.stream_state_recv == 0
          then RecvState.size_known
          else stream.stream_state_recv;
    }
    else stream

-- The receiver's flow control: `stream_max_recv_offset` and `fc_data_recved`
pub count_recv : Stream → Conn → ℕ → Stream × Conn
count_recv stream conn end =
    let fc = conn.conn_flow_ctl in
    let grown = minus end stream.stream_max_recv_offset in
    if ltb stream.stream_max_recv_offset end
    then (
      record stream { stream_max_recv_offset = end },
      record conn {
        conn_flow_ctl = record fc { fc_data_recved = (fc.fc_data_recved + grown) % 2 ^ 64 };
      },
    )
    else (stream, conn)

-- Whether the stream can be read, at the end of rqc_process_stream_frame
pub wake_reader : Stream → Stream
wake_reader stream =
    let data_in = stream.stream_data_in in
    let whole = record stream {
      stream_state_recv =
          if recv_rank stream.stream_state_recv == 1
          then RecvState.data_recvd
          else stream.stream_state_recv;
    } in
    if data_in.stream_determined && data_in.stream_length == data_in.merged_offset_end
    then stream_ready_to_read whole
    else if ltb data_in.next_read_offset data_in.merged_offset_end
    then stream_ready_to_read stream
    else stream

-- The two limits, then the wake-up
pub check_limits : Stream → Conn → Result × Stream × Conn
unfolding wake_reader
check_limits stream conn =
    let fc = conn.conn_flow_ctl in
    if ltb fc.fc_max_data_can_recv fc.fc_data_recved
    then (eproto, stream, conn_error flow_control_error conn)
    else if ltb stream.stream_flow_ctl.fc_max_stream_data_can_recv stream.stream_max_recv_offset
    then (eproto, stream, conn_error flow_control_error conn)
    else (ok, wake_reader stream, conn)

-- What follows rqc_insert_stream_frame
pub after_insert : Stream → Conn → StreamFrame → Status × StreamDataIn → Result × Stream × Conn
unfolding count_recv check_limits
after_insert stream conn frame (edup_frame, data_in) = (ok, stream, conn)
after_insert stream conn frame (Status.ok, data_in) =
    let counted = count_recv (record stream { stream_data_in = data_in }) conn (data_end frame) in
    check_limits counted.0 counted.1

-- From the check of the final size on
pub take_frame : Clock → Stream → Conn → StreamFrame → Result × Stream × Conn
unfolding after_insert
take_frame clock stream conn frame =
    let data_in = stream.stream_data_in in
    let closed = stream_close_discarded_stream clock stream conn in
    if data_in.stream_determined && ltb data_in.stream_length (data_end frame)
    then (eproto, stream, conn_error final_size_error conn)
    else if stream.discarded
    then (if frame.fin then (ok, closed.0, closed.1) else (ok, stream, conn))
    else after_insert stream conn frame (insert_stream_frame data_in frame)

-- rqc_process_stream_frame, once the frame is parsed and its stream found
pub process_stream_frame : Clock → Stream → Conn → StreamFrame → Result × Stream × Conn
unfolding note_fin take_frame
process_stream_frame clock stream conn frame =
    let data_in = stream.stream_data_in in
    let counted = record conn { recv_bytes = (conn.recv_bytes + frame.data_length) % 2 ^ 64 } in
    if leb 4 (recv_rank stream.stream_state_recv)
    then (ok, stream, counted)
    else if leb (data_end frame) data_in.merged_offset_end
        && not (frame.fin && (frame.data_length == 0 && data_in.stream_length == 0))
    then (ok, stream, counted)
    else if frame.fin
        && (data_in.stream_determined && not (data_in.stream_length == data_end frame))
    then (eproto, stream, conn_error final_size_error counted)
    else take_frame clock (note_fin stream frame) counted frame

-- The receiving side of rqc_process_reset_stream_frame, for a stream that exists. The differences are
-- those of int64_t, added to a uint64_t.
pub reset_recv_side : Stream → Conn → ℕ → Stream × Conn
reset_recv_side stream conn final_size =
    let data_in = stream.stream_data_in in
    let fc = conn.conn_flow_ctl in
    let received = minus final_size stream.stream_max_recv_offset in
    let unread = minus final_size data_in.next_read_offset in
    if ltb (recv_rank stream.stream_state_recv) 4
    then (
      stream_ready_to_read (record stream {
        stream_state_recv = RecvState.reset_recvd;
        stream_data_in = record data_in { frames_tailq = [] };
      }),
      record conn {
        conn_flow_ctl = record fc {
          fc_data_recved = (fc.fc_data_recved + received) % 2 ^ 64;
          fc_data_read = (fc.fc_data_read + unread) % 2 ^ 64;
        };
      },
    )
    else (stream, conn)

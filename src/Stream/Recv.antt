-- ===== src/Stream/Recv.antt =====
-- src/transport/rqc_stream.c: reading a stream, and the windows that are opened when it is read.

pub mod Laws
pub mod Window
pub mod Peek
use rquic.Base.{
  ℕ, ◌+◌, ◌-◌, ◌*◌, ◌/◌, ◌%◌, ◌^◌, min, max, minus, Bool, true, false, ◌&&◌, not, List, ◌∷◌, ltb,
  leb, ◌==◌, if◌then◌else◌, length,
}
use rquic.StreamData.{StreamDataIn}
use rquic.StreamData.Read.{Taken, read_frames, peek_frames}
use rquic.Stream.{
  RecvState, recv_rank, StreamFlowCtl, Stream, ConnFlowCtl, max_data, max_stream_data, Conn, Clock,
  min_recv_window, max_recv_window,
}
use rquic.Stream.Close.{stream_shutdown_read, stream_maybe_need_close}

-- The window size of a stream that is due for an update
pub stream_window : Clock → Stream → Conn → ℕ
stream_window clock stream conn =
    let fc = stream.stream_flow_ctl in
    let rated = stream.recv_rate_bytes_per_sec * clock.max_srtt % 2 ^ 64 / 1000000 in
    if stream.recv_rate_bytes_per_sec == 0
    then (if not (fc.fc_last_window_update_time == 0)
          && ltb (minus clock.now fc.fc_last_window_update_time) (2 * clock.min_srtt % 2 ^ 64)
        then min (fc.fc_stream_recv_window_size * 2 % 2 ^ 64) max_recv_window
        else fc.fc_stream_recv_window_size)
    else min max_recv_window (max conn.init_recv_window rated)

-- The stream level of rqc_stream_do_recv_flow_ctl
pub stream_update_window : Clock → Stream → Conn → Stream × Conn
unfolding stream_window
stream_update_window clock stream conn =
    let fc = stream.stream_flow_ctl in
    let available = minus fc.fc_max_stream_data_can_recv stream.stream_data_in.next_read_offset in
    let window = stream_window clock stream conn in
    let limit = (fc.fc_max_stream_data_can_recv + minus window available) % 2 ^ 64 in
    if leb (fc.fc_stream_recv_window_size / 2) available
    then (stream, conn)
    else if ltb available window
    then (
      record stream {
        stream_flow_ctl = record fc {
          fc_stream_recv_window_size = window;
          fc_last_window_update_time = clock.now;
          fc_max_stream_data_can_recv = limit;
        };
      },
      record conn { written = max_stream_data stream.stream_id limit ∷ conn.written },
    )
    else (
      record stream {
        stream_flow_ctl = record fc {
          fc_stream_recv_window_size = window;
          fc_last_window_update_time = clock.now;
        };
      },
      conn,
    )

-- The window size of a connection that is due for an update. 1.5 times a window below 2 ^ 52 is exact
-- as a double, so that the comparison and the cut to a whole number are those of 3 / 2.
pub conn_window : Clock → Stream → Conn → ℕ
conn_window clock stream conn =
    let fc = conn.conn_flow_ctl in
    let one = stream.stream_flow_ctl.fc_stream_recv_window_size in
    let doubled =
      if not (fc.last_window_update_time == 0)
        && ltb (minus clock.now fc.last_window_update_time) (2 * clock.min_srtt % 2 ^ 64)
      then min (fc.fc_recv_windows_size * 2 % 2 ^ 64) max_recv_window
      else fc.fc_recv_windows_size in
    let rated = conn.conn_recv_rate * clock.max_srtt % 2 ^ 64 / 1000000 in
    if conn.conn_recv_rate == 0
    then (if ltb (2 * doubled) (3 * one) then 3 * one / 2 else doubled)
    else min max_recv_window (max min_recv_window rated)

-- The connection level of rqc_stream_do_recv_flow_ctl
pub conn_update_window : Clock → Stream → Conn → Conn
unfolding conn_window
conn_update_window clock stream conn =
    let fc = conn.conn_flow_ctl in
    let available = minus fc.fc_max_data_can_recv fc.fc_data_read in
    let window = conn_window clock stream conn in
    let limit = (fc.fc_max_data_can_recv + minus window available) % 2 ^ 64 in
    if leb (fc.fc_recv_windows_size / 2) available
    then conn
    else if ltb available window
    then record conn {
      conn_flow_ctl = record fc {
        fc_recv_windows_size = window;
        last_window_update_time = clock.now;
        fc_max_data_can_recv = limit;
      };
      written = max_data limit ∷ conn.written;
    }
    else record conn {
      conn_flow_ctl = record fc {
        fc_recv_windows_size = window;
        last_window_update_time = clock.now;
      };
    }

-- rqc_stream_do_recv_flow_ctl
pub stream_do_recv_flow_ctl : Clock → Stream → Conn → Stream × Conn
unfolding stream_update_window conn_update_window
stream_do_recv_flow_ctl clock stream conn =
    let updated = stream_update_window clock stream conn in
    (updated.0, conn_update_window clock updated.0 updated.1)

-- The results of rqc_stream_recv: the bytes in the buffer with `*fin`, -RQC_EAGAIN, -RQC_ESTREAM_RESET.
pub data Outcome : Type 0 where
  received : List ℕ → Bool → Outcome
  again : Outcome
  stream_reset : Outcome

-- The branch of rqc_stream_recv and rqc_stream_peek for a stream that the peer has reset
pub reset_read_branch : Clock → Stream → Conn → Stream × Conn
unfolding stream_shutdown_read stream_maybe_need_close
reset_read_branch clock stream conn =
    stream_maybe_need_close clock
      (stream_shutdown_read (record stream { stream_state_recv = RecvState.reset_read })) conn

-- What is done when the last byte of the stream has been read
pub finish_read : Clock → Bool → Stream → Conn → Stream × Conn
unfolding stream_maybe_need_close
finish_read clock fin stream conn =
    if fin && recv_rank stream.stream_state_recv == 2
    then stream_maybe_need_close clock (record stream { stream_state_recv = RecvState.data_read })
        conn
    else (stream, conn)

-- rqc_stream_recv behind its loop
pub after_read : Clock → Stream → Conn → Taken → Outcome × Stream × Conn
unfolding finish_read stream_do_recv_flow_ctl
after_read clock stream conn taken =
    let data_in = record stream.stream_data_in {
      frames_tailq = taken.frames;
      next_read_offset = taken.next;
    } in
    let fin = data_in.stream_determined && taken.next == data_in.stream_length in
    let finished = finish_read clock fin (record stream { stream_data_in = data_in }) conn in
    let fc = finished.1.conn_flow_ctl in
    let counted = record finished.1 {
      conn_flow_ctl = record fc { fc_data_read = (fc.fc_data_read + taken.read) % 2 ^ 64 };
    } in
    let updated = stream_do_recv_flow_ctl clock (stream_shutdown_read finished.0) counted in
    (if taken.read == 0 && not fin then again else received taken.copied fin, updated.0, updated.1)

-- rqc_stream_recv
pub stream_recv : Clock → Stream → Conn → ℕ → Outcome × Stream × Conn
unfolding reset_read_branch
stream_recv clock stream conn recv_buf_size =
    let data_in = stream.stream_data_in in
    let reset = reset_read_branch clock stream conn in
    if leb 4 (recv_rank stream.stream_state_recv)
    then (stream_reset, reset.0, reset.1)
    else after_read clock stream conn (
        read_frames data_in.merged_offset_end recv_buf_size data_in.next_read_offset 0
          data_in.frames_tailq)

-- The results of rqc_stream_peek: the bytes copied with `*readable_bytes` and `*fin`, -RQC_EAGAIN,
-- -RQC_ESTREAM_RESET and -RQC_ESTATE.
pub data Peeked : Type 0 where
  peeked : List ℕ → ℕ → Bool → Peeked
  nothing_to_peek : Peeked
  peek_reset : Peeked
  bad_state : Peeked

-- rqc_stream_peek behind its loop
pub after_peek : ℕ → ℕ → Bool → List ℕ → Peeked
after_peek readable peek_buf_size fin copied =
    if ltb (length copied) (min readable peek_buf_size)
    then bad_state
    else if readable == 0 && not fin
    then nothing_to_peek
    else peeked copied readable fin

-- rqc_stream_peek
pub stream_peek : Clock → Stream → Conn → ℕ → Peeked × Stream × Conn
unfolding reset_read_branch after_peek
stream_peek clock stream conn peek_buf_size =
    let data_in = stream.stream_data_in in
    let reset = reset_read_branch clock stream conn in
    let readable = minus data_in.merged_offset_end data_in.next_read_offset in
    let fin = data_in.stream_determined && data_in.merged_offset_end == data_in.stream_length in
    if leb 4 (recv_rank stream.stream_state_recv)
    then (peek_reset, reset.0, reset.1)
    else if ltb data_in.merged_offset_end data_in.next_read_offset
    then (bad_state, stream_shutdown_read stream, conn)
    else (
      after_peek readable peek_buf_size fin
          (peek_frames peek_buf_size data_in.next_read_offset 0 data_in.frames_tailq),
      stream_shutdown_read stream,
      conn,
    )

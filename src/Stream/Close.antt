-- ===== src/Stream/Close.antt =====
-- src/transport/rqc_stream.c: the end of a stream, and the lists of streams that wait to be read and
-- written.
use rquic.Base.{◌+◌, ◌*◌, ◌%◌, ◌^◌, Bool, true, false, ◌&&◌, ◌||◌, not, ltb, ◌==◌, if◌then◌else◌}
use rquic.Pacing.{timer_set}
use rquic.Stream.{
  StreamType, cli_bid, svr_bid, cli_uni, svr_uni, send_rank, recv_rank, Stream, Conn, Clock,
}

-- rqc_stream_ready_to_read, rqc_stream_shutdown_read and rqc_stream_shutdown_write: a stream is in the
-- list exactly when the flag is set.
unfoldable pub stream_ready_to_read : Stream → Stream
stream_ready_to_read stream = record stream { ready_to_read = true }

unfoldable pub stream_shutdown_read : Stream → Stream
stream_shutdown_read stream = record stream { ready_to_read = false }

unfoldable pub stream_shutdown_write : Stream → Stream
stream_shutdown_write stream = record stream { ready_to_write = false }

-- The two tests of rqc_stream_is_terminal_state
unfoldable pub send_done : Stream → Bool
send_done stream =
    send_rank stream.stream_state_send == 3 || send_rank stream.stream_state_send == 5

unfoldable pub recv_done : Stream → Bool
recv_done stream =
    recv_rank stream.stream_state_recv == 3 || recv_rank stream.stream_state_recv == 5

-- rqc_stream_is_terminal_state; `is_client`: the type of the connection.
unfoldable pub is_terminal : Bool → StreamType → Stream → Bool
unfolding send_done recv_done
is_terminal is_client cli_bid stream = send_done stream && recv_done stream
is_terminal is_client svr_bid stream = send_done stream && recv_done stream
is_terminal is_client cli_uni stream = if is_client then send_done stream else recv_done stream
is_terminal is_client svr_uni stream = if is_client then recv_done stream else send_done stream

unfoldable pub stream_is_terminal_state : Conn → Stream → Bool
unfolding is_terminal
stream_is_terminal_state conn stream = is_terminal conn.is_client stream.stream_type stream

-- The timer, the time and the list of the streams that are closed in three probe timeouts
unfoldable pub start_close : Clock → Stream → Conn → Stream × Conn
unfolding stream_shutdown_read stream_shutdown_write
start_close clock stream conn =
    let new_expire = (clock.now + 3 * clock.max_pto) % 2 ^ 64 in
    let timer = conn.close_timer in
    (
      stream_shutdown_write (
          stream_shutdown_read
            (record stream { need_close = true; stream_close_time = new_expire })),
      if (timer.timer_is_set && ltb new_expire timer.expire_time) || not timer.timer_is_set
          then record conn { close_timer = timer_set clock.now (3 * clock.max_pto) timer }
          else conn,
    )

-- rqc_stream_maybe_need_close
unfoldable pub stream_maybe_need_close : Clock → Stream → Conn → Stream × Conn
unfolding stream_is_terminal_state start_close
stream_maybe_need_close clock stream conn =
    if stream.need_close
    then (stream, conn)
    else if stream_is_terminal_state conn stream
    then start_close clock stream conn
    else (stream, conn)

-- rqc_stream_close_discarded_stream
unfoldable pub stream_close_discarded_stream : Clock → Stream → Conn → Stream × Conn
unfolding start_close
stream_close_discarded_stream clock stream conn =
    if stream.need_close then (stream, conn) else start_close clock stream conn

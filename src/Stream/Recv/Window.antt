-- ===== src/Stream/Recv/Window.antt =====
-- The windows that rqc_stream_do_recv_flow_ctl opens.
use rquic.Base.{List, ◌∷◌, ltb, if◌then◌else◌, ℕ, ◌+◌, ◌/◌, ◌%◌, ◌^◌, ◌≤◌, ◌<◌, ◌≡◌, minus, arith}
use rquic.Stream.{Stream, Conn, Clock, Written, max_data, max_stream_data}
use rquic.Stream.Recv.{
  stream_window, stream_update_window, conn_window, conn_update_window, stream_do_recv_flow_ctl,
}

-- The windows are far from the end of the words.
stream_window-lt :
    (clock : Clock) (stream : Stream) (conn : Conn)
    → stream.stream_flow_ctl.fc_stream_recv_window_size < 2 ^ 40
    → stream_window clock stream conn < 2 ^ 40
unfolding stream_window
stream_window-lt clock stream conn h = ground arith

conn_window-lt :
    (clock : Clock) (stream : Stream) (conn : Conn)
    → stream.stream_flow_ctl.fc_stream_recv_window_size < 2 ^ 40
    → conn.conn_flow_ctl.fc_recv_windows_size < 2 ^ 41
    → conn_window clock stream conn < 2 ^ 41
unfolding conn_window
conn_window-lt clock stream conn h k = ground arith

-- A limit that is raised by a new window
raised :
    (limit next window : ℕ)
    → next ≤ limit
    → limit < 2 ^ 62
    → window < 2 ^ 41
    → minus limit next < window
    → ((limit + minus window (minus limit next)) % 2 ^ 64 ≡ next + window)
raised limit next window a b c d = omega (arith, d)

-- The frames to be written, with that of a new limit if the old one is raised.
unfoldable pub told : ℕ → ℕ → Written → List Written → List Written
told old new frame l = if ltb old new then frame ∷ l else l

stream_update_window_lem :
    (clock : Clock) (stream : Stream) (conn : Conn)
    → stream.stream_data_in.next_read_offset ≤ stream.stream_flow_ctl.fc_max_stream_data_can_recv
    → stream.stream_flow_ctl.fc_max_stream_data_can_recv < 2 ^ 62
    → stream.stream_flow_ctl.fc_stream_recv_window_size < 2 ^ 40
    → let after = stream_update_window clock stream conn in
      let fc = after.0.stream_flow_ctl in
      (stream.stream_flow_ctl.fc_max_stream_data_can_recv ≤ fc.fc_max_stream_data_can_recv)
      × (fc.fc_stream_recv_window_size / 2 + stream.stream_data_in.next_read_offset
          ≤ fc.fc_max_stream_data_can_recv)
      × (fc.fc_stream_recv_window_size < 2 ^ 40)
      × (after.0.stream_data_in ≡ stream.stream_data_in)
      × (after.1.conn_flow_ctl ≡ conn.conn_flow_ctl)
      × (after.1.written
          ≡ told stream.stream_flow_ctl.fc_max_stream_data_can_recv fc.fc_max_stream_data_can_recv
              (max_stream_data stream.stream_id fc.fc_max_stream_data_can_recv)
              conn.written)
unfolding stream_update_window told
stream_update_window_lem clock stream conn a b c = ground (
  arith,
  stream_window-lt clock stream conn c,
  raised stream.stream_flow_ctl.fc_max_stream_data_can_recv stream.stream_data_in.next_read_offset
      (stream_window clock stream conn),
)

conn_update_window_lem :
    (clock : Clock) (stream : Stream) (conn : Conn)
    → stream.stream_flow_ctl.fc_stream_recv_window_size < 2 ^ 40
    → conn.conn_flow_ctl.fc_data_read ≤ conn.conn_flow_ctl.fc_max_data_can_recv
    → conn.conn_flow_ctl.fc_max_data_can_recv < 2 ^ 62
    → conn.conn_flow_ctl.fc_recv_windows_size < 2 ^ 41
    → let fc = (conn_update_window clock stream conn).conn_flow_ctl in
      (conn.conn_flow_ctl.fc_max_data_can_recv ≤ fc.fc_max_data_can_recv)
      × (fc.fc_recv_windows_size / 2 + fc.fc_data_read ≤ fc.fc_max_data_can_recv)
      × (fc.fc_data_read ≡ conn.conn_flow_ctl.fc_data_read)
      × ((conn_update_window clock stream conn).written
          ≡ told conn.conn_flow_ctl.fc_max_data_can_recv fc.fc_max_data_can_recv
              (max_data fc.fc_max_data_can_recv)
              conn.written)
unfolding conn_update_window told
conn_update_window_lem clock stream conn s a b c = ground (
  arith,
  conn_window-lt clock stream conn s c,
  raised conn.conn_flow_ctl.fc_max_data_can_recv conn.conn_flow_ctl.fc_data_read
      (conn_window clock stream conn),
)

-- When what has been read of a stream and of the connection is within the limits given to the peer,
-- the limits are below 2 ^ 62 and the windows below 2 ^ 40 and 2 ^ 41, then rqc_stream_do_recv_flow_ctl
-- takes no limit back, the new limit is at least half a window of the new size above what was read, on
-- the stream and on the connection, and the code asks for a frame with the new limit exactly for each
-- limit that is raised.
pub do_recv_flow_ctl_lem :
    (clock : Clock) (stream : Stream) (conn : Conn)
    → stream.stream_data_in.next_read_offset ≤ stream.stream_flow_ctl.fc_max_stream_data_can_recv
    → stream.stream_flow_ctl.fc_max_stream_data_can_recv < 2 ^ 62
    → stream.stream_flow_ctl.fc_stream_recv_window_size < 2 ^ 40
    → conn.conn_flow_ctl.fc_data_read ≤ conn.conn_flow_ctl.fc_max_data_can_recv
    → conn.conn_flow_ctl.fc_max_data_can_recv < 2 ^ 62
    → conn.conn_flow_ctl.fc_recv_windows_size < 2 ^ 41
    → let after = stream_do_recv_flow_ctl clock stream conn in
      let fc = after.0.stream_flow_ctl in
      let all = after.1.conn_flow_ctl in
      (stream.stream_flow_ctl.fc_max_stream_data_can_recv ≤ fc.fc_max_stream_data_can_recv)
      × (fc.fc_stream_recv_window_size / 2 + stream.stream_data_in.next_read_offset
          ≤ fc.fc_max_stream_data_can_recv)
      × (conn.conn_flow_ctl.fc_max_data_can_recv ≤ all.fc_max_data_can_recv)
      × (all.fc_recv_windows_size / 2 + conn.conn_flow_ctl.fc_data_read ≤ all.fc_max_data_can_recv)
      × (after.1.written
          ≡ told conn.conn_flow_ctl.fc_max_data_can_recv all.fc_max_data_can_recv
              (max_data all.fc_max_data_can_recv)
              (told stream.stream_flow_ctl.fc_max_stream_data_can_recv
                fc.fc_max_stream_data_can_recv
                (max_stream_data stream.stream_id fc.fc_max_stream_data_can_recv)
                conn.written))
unfolding stream_do_recv_flow_ctl
do_recv_flow_ctl_lem clock stream conn a b c d e f =
    let s = stream_update_window_lem clock stream conn a b c in
    let u = stream_update_window clock stream conn in
    from_conn conn u.1 (conn_update_window clock u.0 u.1) _ _ _ _ _ s.4 s.5 d e f s.0 s.1
      (conn_update_window_lem clock u.0 u.1 s.2)
  where
    from_conn :
        (conn between after : Conn) (l l' w n : ℕ) (frames : List Written)
        → between.conn_flow_ctl ≡ conn.conn_flow_ctl
        → between.written ≡ frames
        → conn.conn_flow_ctl.fc_data_read ≤ conn.conn_flow_ctl.fc_max_data_can_recv
        → conn.conn_flow_ctl.fc_max_data_can_recv < 2 ^ 62
        → conn.conn_flow_ctl.fc_recv_windows_size < 2 ^ 41
        → l ≤ l'
        → w / 2 + n ≤ l'
        → (between.conn_flow_ctl.fc_data_read ≤ between.conn_flow_ctl.fc_max_data_can_recv
            → between.conn_flow_ctl.fc_max_data_can_recv < 2 ^ 62
            → between.conn_flow_ctl.fc_recv_windows_size < 2 ^ 41
            → (between.conn_flow_ctl.fc_max_data_can_recv
                ≤ after.conn_flow_ctl.fc_max_data_can_recv)
              × (after.conn_flow_ctl.fc_recv_windows_size / 2 + after.conn_flow_ctl.fc_data_read
                  ≤ after.conn_flow_ctl.fc_max_data_can_recv)
              × (after.conn_flow_ctl.fc_data_read ≡ between.conn_flow_ctl.fc_data_read)
              × (after.written
                  ≡ told between.conn_flow_ctl.fc_max_data_can_recv
                      after.conn_flow_ctl.fc_max_data_can_recv
                      (max_data after.conn_flow_ctl.fc_max_data_can_recv)
                      between.written))
        → (l ≤ l')
          × (w / 2 + n ≤ l')
          × (conn.conn_flow_ctl.fc_max_data_can_recv ≤ after.conn_flow_ctl.fc_max_data_can_recv)
          × (after.conn_flow_ctl.fc_recv_windows_size / 2 + conn.conn_flow_ctl.fc_data_read
              ≤ after.conn_flow_ctl.fc_max_data_can_recv)
          × (after.written
              ≡ told conn.conn_flow_ctl.fc_max_data_can_recv
                  after.conn_flow_ctl.fc_max_data_can_recv
                  (max_data after.conn_flow_ctl.fc_max_data_can_recv)
                  frames)
    from_conn conn between after l l' w n frames same list d e f p q h = ground (arith, h)

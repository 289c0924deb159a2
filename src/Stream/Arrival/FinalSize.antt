-- ===== src/Stream/Arrival/FinalSize.antt =====
-- Frames that contradict the final size of a stream.
use rquic.Base.{
  ℕ, ◌+◌, ◌%◌, ◌^◌, ◌<◌, ◌≡◌, ◌≢◌, ◌⊎◌, inl, inr, refl, arith, Bool, true, false, ◌&&◌, not, ltb,
  ◌==◌, lt→leb, lt→ltb, if◌then◌else◌, Bool-cases,
}
use rquic.StreamData.{StreamFrame, data_end}
use rquic.Stream.{recv_rank, Stream, Conn, Clock, conn_error, final_size_error}
use rquic.Stream.Arrival.{eproto, note_fin, take_frame, process_stream_frame}

conn_error_lem :
    (err : ℕ) (conn : Conn)
    → ((conn_error err conn).conn_err ≡ (if conn.conn_err == 0 then err else conn.conn_err))
      × ((conn_error err conn).conn_flow_ctl ≡ conn.conn_flow_ctl)
unfolding conn_error
conn_error_lem err conn = ground arith

no_fin :
    (stream : Stream) (frame : StreamFrame) → frame.fin ≡ false → note_fin stream frame ≡ stream
unfolding note_fin
no_fin stream frame e = rw e refl

-- A frame without FIN that ends behind the final size
too_long :
    (clock : Clock) (stream : Stream) (conn : Conn) (frame : StreamFrame)
    → (stream.stream_data_in.stream_determined
        && ltb stream.stream_data_in.stream_length (data_end frame))
      ≡ true
    → take_frame clock stream conn frame ≡ (eproto, stream, conn_error final_size_error conn)
unfolding take_frame
too_long clock stream conn frame e = rw e refl

refused :
    (clock : Clock) (stream : Stream) (conn : Conn) (frame : StreamFrame)
    → recv_rank stream.stream_state_recv < 4
    → stream.stream_data_in.stream_determined ≡ true
    → stream.stream_data_in.merged_offset_end < data_end frame
    → (stream.stream_data_in.stream_length < data_end frame)
      ⊎ ((frame.fin ≡ true) × (stream.stream_data_in.stream_length ≢ data_end frame))
    → process_stream_frame clock stream conn frame ≡ (
      eproto,
      stream,
      conn_error final_size_error
          (record conn { recv_bytes = (conn.recv_bytes + frame.data_length) % 2 ^ 64 }),
    )
unfolding process_stream_frame
refused clock stream conn frame unreset known more wrong =
    let d = stream.stream_data_in in
    let t = frame.fin && (d.stream_determined && not (d.stream_length == data_end frame)) in
    elim (Bool-cases t) [
      | inl e ↦ rw (lt→leb _ _ unreset, lt→leb _ _ more, e) refl
      | inr e ↦
          let long : d.stream_length < data_end frame = behind _ _ _ _ known wrong e in
          let open_end : frame.fin ≡ false = unfinished _ _ _ _ known long e in
          rw (lt→leb _ _ unreset, lt→leb _ _ more, e, no_fin stream frame open_end)
            (too_long clock stream _ frame (both _ _ known (lt→ltb _ _ long)))
    ]
  where
    both : (a b : Bool) → a ≡ true → b ≡ true → (a && b) ≡ true
    both a b e f = ground (arith, e, f)

    behind :
        (fin det : Bool) (l n : ℕ)
        → det ≡ true
        → (l < n) ⊎ ((fin ≡ true) × (l ≢ n))
        → (fin && (det && not (l == n))) ≡ false
        → l < n
    behind fin det l n d (inl h) e = h
    behind fin det l n d (inr h) e = absurd (ground (arith, d, h, e))

    unfinished :
        (fin det : Bool) (l n : ℕ)
        → det ≡ true
        → l < n
        → (fin && (det && not (l == n))) ≡ false
        → fin ≡ false
    unfinished fin det l n d h e = ground (arith, d, h, e)

-- When the final size of a stream that was not reset is known, a frame with bytes that have not come in
-- one piece is refused by rqc_process_stream_frame if it ends behind the final size, or has FIN and
-- ends elsewhere: the stream is left as it was, and FINAL_SIZE_ERROR is set unless the connection has
-- an error already.
pub process_stream_frame_final_size :
    (clock : Clock) (stream : Stream) (conn : Conn) (frame : StreamFrame)
    → recv_rank stream.stream_state_recv < 4
    → stream.stream_data_in.stream_determined ≡ true
    → stream.stream_data_in.merged_offset_end < data_end frame
    → (stream.stream_data_in.stream_length < data_end frame)
      ⊎ ((frame.fin ≡ true) × (stream.stream_data_in.stream_length ≢ data_end frame))
    → let after = process_stream_frame clock stream conn frame in
      (after.0 ≡ eproto)
      × (after.1 ≡ stream)
      × (after.2.conn_err ≡ (if conn.conn_err == 0 then final_size_error else conn.conn_err))
      × (after.2.conn_flow_ctl ≡ conn.conn_flow_ctl)
process_stream_frame_final_size clock stream conn frame unreset known more wrong =
    let r = refused clock stream conn frame unreset known more wrong in
    let counted = record conn { recv_bytes = (conn.recv_bytes + frame.data_length) % 2 ^ 64 } in
    let c = conn_error_lem final_size_error counted in rw r (refl, refl, c.0, c.1)

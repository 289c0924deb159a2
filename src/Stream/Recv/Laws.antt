-- ===== src/Stream/Recv/Laws.antt =====
-- What rqc_stream_recv gives back, and what it leaves.
use rquic.Base.{
  ℕ, ◌+◌, ◌-◌, ◌%◌, ◌^◌, ◌<◌, ◌≡◌, ◌∙◌, ap, min, refl, arith, Bool, true, ◌&&◌, not, List, leb,
  ◌==◌, if◌then◌else◌, lt→leb,
}
use rquic.StreamData.{StreamFrame, StreamDataIn}
use rquic.StreamData.Read.{Taken, read_frames}
use rquic.StreamData.Read.Content.{content}
use rquic.StreamData.Read.Turns.{Ready}
use rquic.StreamData.Read.Deliver.{Delivered, read_frames-Delivered}
use rquic.StreamData.Read.Arrive.{Waits}
use rquic.Stream.{RecvState, recv_rank, Stream, Conn, ConnFlowCtl, Clock}
use rquic.Stream.Close.{stream_maybe_need_close, start_close, stream_shutdown_read}
use rquic.Stream.Recv.{
  stream_update_window, conn_update_window, stream_do_recv_flow_ctl, reset_read_branch,
  stream_reset, received, again, finish_read, after_read, stream_recv,
}

-- The windows do not touch the data,
stream_update_window-data_in :
    (clock : Clock) (stream : Stream) (conn : Conn)
    → ((stream_update_window clock stream conn).0.stream_data_in ≡ stream.stream_data_in)
      × ((stream_update_window clock stream conn).1.conn_flow_ctl ≡ conn.conn_flow_ctl)
unfolding stream_update_window
stream_update_window-data_in clock stream conn = ground arith

conn_update_window-read :
    (clock : Clock) (stream : Stream) (conn : Conn)
    → (conn_update_window clock stream conn).conn_flow_ctl.fc_data_read
      ≡ conn.conn_flow_ctl.fc_data_read
unfolding conn_update_window
conn_update_window-read clock stream conn = ground arith

-- nor does the end of a stream.
maybe_need_close-data_in :
    (clock : Clock) (stream : Stream) (conn : Conn)
    → ((stream_maybe_need_close clock stream conn).0.stream_data_in ≡ stream.stream_data_in)
      × ((stream_maybe_need_close clock stream conn).1.conn_flow_ctl ≡ conn.conn_flow_ctl)
unfolding stream_maybe_need_close start_close
maybe_need_close-data_in clock stream conn = ground arith

finish_read-data_in :
    (clock : Clock) (fin : Bool) (stream : Stream) (conn : Conn)
    → ((finish_read clock fin stream conn).0.stream_data_in ≡ stream.stream_data_in)
      × ((finish_read clock fin stream conn).1.conn_flow_ctl ≡ conn.conn_flow_ctl)
unfolding finish_read
finish_read-data_in clock fin stream conn = ground arith

flow_ctl-data_in :
    (clock : Clock) (stream : Stream) (conn : Conn)
    → ((stream_do_recv_flow_ctl clock stream conn).0.stream_data_in ≡ stream.stream_data_in)
      × ((stream_do_recv_flow_ctl clock stream conn).1.conn_flow_ctl.fc_data_read
          ≡ conn.conn_flow_ctl.fc_data_read)
unfolding stream_do_recv_flow_ctl
flow_ctl-data_in clock stream conn =
    let s = stream_update_window-data_in clock stream conn in
    (
      s.0,
      conn_update_window-read clock (stream_update_window clock stream conn).0
            (stream_update_window clock stream conn).1
          ∙ ap (λ (fc : ConnFlowCtl). fc.fc_data_read) s.1,
    )

after_read-data_in :
    (clock : Clock) (stream : Stream) (conn : Conn) (taken : Taken)
    → ((after_read clock stream conn taken).1.stream_data_in ≡ record stream.stream_data_in {
      frames_tailq = taken.frames;
      next_read_offset = taken.next;
    })
      × ((after_read clock stream conn taken).2.conn_flow_ctl.fc_data_read
          ≡ (conn.conn_flow_ctl.fc_data_read + taken.read) % 2 ^ 64)
unfolding after_read
after_read-data_in clock stream conn taken =
    let data_in = record stream.stream_data_in {
      frames_tailq = taken.frames;
      next_read_offset = taken.next;
    } in
    let fin = data_in.stream_determined && taken.next == data_in.stream_length in
    let filled = record stream { stream_data_in = data_in } in
    let f = finish_read-data_in clock fin filled conn in
    let finished = finish_read clock fin filled conn in
    let fc = finished.1.conn_flow_ctl in
    let counted = record finished.1 {
      conn_flow_ctl = record fc { fc_data_read = (fc.fc_data_read + taken.read) % 2 ^ 64 };
    } in
    let u = flow_ctl-data_in clock (stream_shutdown_read finished.0) counted in
    (u.0 ∙ f.0, u.1 ∙ ap (λ (fc : ConnFlowCtl). (fc.fc_data_read + taken.read) % 2 ^ 64) f.1)

after_read-outcome :
    (clock : Clock) (stream : Stream) (conn : Conn) (taken : Taken) (k next : ℕ) (bytes : List ℕ)
    → taken.copied ≡ bytes
    → taken.next ≡ next
    → taken.read ≡ k
    → let d = stream.stream_data_in in
      let fin = d.stream_determined && next == d.stream_length in
      (after_read clock stream conn taken).0
      ≡ (if k == 0 && not fin then again else received bytes fin)
unfolding after_read
after_read-outcome clock stream conn taken k next bytes e n r = rw (← e, ← n, ← r) refl

Waits-taken :
    (g : ℕ → ℕ) (d d' : StreamDataIn) (taken : Taken) (next : ℕ)
    → d' ≡ record d { frames_tailq = taken.frames; next_read_offset = taken.next }
    → taken.next ≡ next
    → d.merged_offset_end < 2 ^ 64
    → Ready g d.merged_offset_end next taken.frames
    → Waits g d'
Waits-taken g d d' taken next e n wide v = rw e (record { set = rw n v; wide = wide })

-- On a stream that was not reset and whose frames wait ready to be read, rqc_stream_recv fills the
-- buffer with the bytes of the stream from next_read_offset on, as many as fit and as have come in one
-- piece; it says that the stream has ended exactly when these reach its known length, and reports
-- -RQC_EAGAIN when there are none. Afterwards the frames wait ready to be read from there on, and
-- fc_data_read has grown by the number of bytes.
pub stream_recv_lem :
    (g : ℕ → ℕ) (clock : Clock) (stream : Stream) (conn : Conn) (size : ℕ)
    → recv_rank stream.stream_state_recv < 4
    → Waits g stream.stream_data_in
    → let d = stream.stream_data_in in
      let k = min size (d.merged_offset_end - d.next_read_offset) in
      let fin = d.stream_determined && d.next_read_offset + k == d.stream_length in
      let after = stream_recv clock stream conn size in
      (after.0
        ≡ (if k == 0 && not fin then again else received (content g d.next_read_offset k) fin))
      × Waits g after.1.stream_data_in
      × (after.1.stream_data_in.next_read_offset ≡ d.next_read_offset + k)
      × (after.1.stream_data_in.merged_offset_end ≡ d.merged_offset_end)
      × (after.2.conn_flow_ctl.fc_data_read ≡ (conn.conn_flow_ctl.fc_data_read + k) % 2 ^ 64)
unfolding stream_recv Delivered
stream_recv_lem g clock stream conn size unreset w =
    let d = stream.stream_data_in in
    let k : ℕ = min size (d.merged_offset_end - d.next_read_offset) in
    let t = read_frames d.merged_offset_end size d.next_read_offset 0 d.frames_tailq in
    let r = delivered g d.merged_offset_end size d.next_read_offset d.frames_tailq w.set w.wide in
    let count : t.read ≡ k = omega (arith, r.2) in
    let a = after_read-data_in clock stream conn t in
    rw (lt→leb _ _ unreset) (
      after_read-outcome clock stream conn t k (d.next_read_offset + k) _ r.0 r.1 count,
      Waits-taken g d _ t (d.next_read_offset + k) a.0 r.1 w.wide r.3,
      ap (λ (e : StreamDataIn). e.next_read_offset) a.0 ∙ r.1,
      ap (λ (e : StreamDataIn). e.merged_offset_end) a.0,
      a.1 ∙ ap (λ (n : ℕ). (conn.conn_flow_ctl.fc_data_read + n) % 2 ^ 64) count,
    )
  where
    delivered :
        (g : ℕ → ℕ) (merged size next : ℕ) (l : List StreamFrame)
        → Ready g merged next l
        → merged < 2 ^ 64
        → Delivered g merged next 0 (min size (merged - next)) (read_frames merged size next 0 l)
    delivered g merged size next l v wide =
        let e : min (size - 0) (merged - next) ≡ min size (merged - next) = omega arith in
        rw (← e) (read_frames-Delivered g merged size next 0 l v wide (omega arith) (omega arith))

-- A stream that was reset gives nothing back, and keeps its data.
pub stream_recv_reset :
    (clock : Clock) (stream : Stream) (conn : Conn) (size : ℕ)
    → leb 4 (recv_rank stream.stream_state_recv) ≡ true
    → ((stream_recv clock stream conn size).0 ≡ stream_reset)
      × ((stream_recv clock stream conn size).1.stream_data_in ≡ stream.stream_data_in)
unfolding stream_recv reset_read_branch
stream_recv_reset clock stream conn size t = ground (
  arith,
  maybe_need_close-data_in clock
      (stream_shutdown_read (record stream { stream_state_recv = RecvState.reset_read })) conn,
)

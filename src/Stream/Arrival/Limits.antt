-- ===== src/Stream/Arrival/Limits.antt =====
-- The receiver's limits: what rqc_process_stream_frame counts, and what it lets in.
use rquic.Base.{
  ◌+◌, ◌%◌, ◌^◌, ◌≤◌, ◌<◌, ◌≡◌, ℕ, refl, arith, All, List, [], ◌∷◌, Bool, true, false,
  if◌then◌else◌,
}
use rquic.StreamData.{StreamFrame, StreamDataIn, Status, edup_frame, data_end, insert_stream_frame}
use rquic.StreamData.Read.Arrive.{insert_stream_frame-All}
use rquic.Stream.{Stream, Conn, Clock}
use rquic.Stream.Close.{stream_ready_to_read, stream_close_discarded_stream, start_close}
use rquic.Stream.Arrival.{
  Result, ok, eproto, note_fin, count_recv, wake_reader, check_limits, after_insert, take_frame,
  process_stream_frame,
}

-- The frames that wait end at `end` at the latest.
unfoldable pub EndBy : ℕ → List StreamFrame → Type 0
EndBy end l = All (λ (frame : StreamFrame). data_end frame ≤ end) l

EndBy-le : (a b : ℕ) (l : List StreamFrame) → a ≤ b → EndBy a l → EndBy b l
unfolding EndBy
EndBy-le a b [] h e = tt
EndBy-le a b (frame ∷ l) h e = (omega (arith, h, e.0), EndBy-le a b l h e.1)

-- All bytes that wait are counted for the stream, and what is counted is within the limits that the
-- peer was given.
pub record WithinLimits (stream : Stream) (conn : Conn) : Type 0 where
  pub of_frames : EndBy stream.stream_max_recv_offset stream.stream_data_in.frames_tailq
  pub of_stream : stream.stream_max_recv_offset ≤ stream.stream_flow_ctl.fc_max_stream_data_can_recv
  pub of_conn : conn.conn_flow_ctl.fc_data_recved ≤ conn.conn_flow_ctl.fc_max_data_can_recv

-- The connection has counted what the stream has counted, and the limits are the same.
pub record Grown (stream : Stream) (conn : Conn) (stream' : Stream) (conn' : Conn) : Type 0 where
  pub counter :
      conn'.conn_flow_ctl.fc_data_recved + stream.stream_max_recv_offset
      ≡ conn.conn_flow_ctl.fc_data_recved + stream'.stream_max_recv_offset
  pub further : stream.stream_max_recv_offset ≤ stream'.stream_max_recv_offset
  pub stream_limit :
      stream'.stream_flow_ctl.fc_max_stream_data_can_recv
      ≡ stream.stream_flow_ctl.fc_max_stream_data_can_recv
  pub conn_limit :
      conn'.conn_flow_ctl.fc_max_data_can_recv ≡ conn.conn_flow_ctl.fc_max_data_can_recv

-- What an accepted frame leaves
Accepts : Stream → Conn → Result × Stream × Conn → Type 0
Accepts stream conn r = r.0 ≡ ok → WithinLimits r.1 r.2 × Grown stream conn r.1 r.2

same : (stream : Stream) (conn : Conn) → Grown stream conn stream conn
same stream conn = record {
  counter = refl;
  further = omega arith;
  stream_limit = refl;
  conn_limit = refl;
}

-- The list after rqc_insert_stream_frame
inserted-EndBy :
    (d : StreamDataIn) (frame : StreamFrame) (end : ℕ)
    → data_end frame ≤ end
    → EndBy end d.frames_tailq
    → EndBy end (insert_stream_frame d frame).1.frames_tailq
unfolding EndBy
inserted-EndBy d frame end h e =
    insert_stream_frame-All (λ (f : StreamFrame). data_end f ≤ end) d frame h e

EndBy-of-eq :
    (n : ℕ) (d d' : StreamDataIn) → d' ≡ d → EndBy n d.frames_tailq → EndBy n d'.frames_tailq
EndBy-of-eq n d d' e k = rw e k

discarded-Accepts :
    (clock : Clock) (stream : Stream) (conn : Conn)
    → WithinLimits stream conn
    → let closed = stream_close_discarded_stream clock stream conn in
      WithinLimits closed.0 closed.1 × Grown stream conn closed.0 closed.1
unfolding stream_close_discarded_stream start_close
discarded-Accepts clock stream conn w = ground arith

-- The final size changes neither the counters nor what waits.
noted :
    (stream : Stream) (frame : StreamFrame)
    → EndBy stream.stream_max_recv_offset stream.stream_data_in.frames_tailq
    → ((note_fin stream frame).stream_max_recv_offset ≡ stream.stream_max_recv_offset)
      × ((note_fin stream frame).stream_flow_ctl.fc_max_stream_data_can_recv
          ≡ stream.stream_flow_ctl.fc_max_stream_data_can_recv)
      × EndBy
          (note_fin stream frame).stream_max_recv_offset
          (note_fin stream frame).stream_data_in.frames_tailq
unfolding note_fin
noted stream frame e = ground arith

-- The counters after the frame, before the limits are checked
counted :
    (stream : Stream) (conn : Conn) (end : ℕ)
    → conn.conn_flow_ctl.fc_data_recved < 2 ^ 62
    → end < 2 ^ 63
    → Grown stream conn (count_recv stream conn end).0 (count_recv stream conn end).1
      × (end ≤ (count_recv stream conn end).0.stream_max_recv_offset)
      × ((count_recv stream conn end).0.stream_data_in ≡ stream.stream_data_in)
unfolding count_recv
counted stream conn end h k = ground arith

check_limits-Accepts :
    (stream : Stream) (conn : Conn) (stream' : Stream) (conn' : Conn)
    → EndBy stream'.stream_max_recv_offset stream'.stream_data_in.frames_tailq
    → Grown stream conn stream' conn'
    → Accepts stream conn (check_limits stream' conn')
unfolding Accepts check_limits wake_reader stream_ready_to_read
check_limits-Accepts stream conn stream' conn' e g = ground arith

after_insert-Accepts :
    (stream : Stream) (conn : Conn) (frame : StreamFrame) (r : Status × StreamDataIn)
    → WithinLimits stream conn
    → conn.conn_flow_ctl.fc_data_recved < 2 ^ 62
    → data_end frame < 2 ^ 63
    → ((end : ℕ)
        → data_end frame ≤ end
        → EndBy end stream.stream_data_in.frames_tailq
        → EndBy end r.1.frames_tailq)
    → Accepts stream conn (after_insert stream conn frame r)
unfolding after_insert Accepts
after_insert-Accepts stream conn frame (edup_frame, d) w h k e = λ _. (w, same stream conn)
after_insert-Accepts stream conn frame (Status.ok, d) w h k e =
    let filled = record stream { stream_data_in = d } in
    let c = counted filled conn (data_end frame) h k in
    let m : ℕ = (count_recv filled conn (data_end frame)).0.stream_max_recv_offset in
    let all : EndBy m d.frames_tailq =
      e m c.1 (EndBy-le stream.stream_max_recv_offset m _ c.0.further w.of_frames) in
    check_limits-Accepts stream conn (count_recv filled conn (data_end frame)).0
      (count_recv filled conn (data_end frame)).1 (EndBy-of-eq m d _ c.2 all)
      (record {
        counter = c.0.counter;
        further = c.0.further;
        stream_limit = c.0.stream_limit;
        conn_limit = c.0.conn_limit;
      })

take_frame-Accepts :
    (clock : Clock) (stream : Stream) (conn : Conn) (frame : StreamFrame)
    → WithinLimits stream conn
    → conn.conn_flow_ctl.fc_data_recved < 2 ^ 62
    → data_end frame < 2 ^ 63
    → Accepts stream conn (take_frame clock stream conn frame)
unfolding take_frame Accepts
take_frame-Accepts clock stream conn frame w h k = λ taken. ground (
  arith,
  discarded-Accepts clock stream conn w,
  same stream conn,
  after_insert-Accepts stream conn frame (insert_stream_frame stream.stream_data_in frame) w h k
      (inserted-EndBy stream.stream_data_in frame),
)

-- A branch that ends, one that refuses, and one of a test
ends :
    (stream : Stream) (conn conn' : Conn)
    → WithinLimits stream conn
    → conn'.conn_flow_ctl ≡ conn.conn_flow_ctl
    → Accepts stream conn (ok, stream, conn')
unfolding Accepts
ends stream conn conn' w e = λ _. ground (arith, same stream conn)

refuses :
    (stream : Stream) (conn : Conn) (stream' : Stream) (conn' : Conn)
    → Accepts stream conn (eproto, stream', conn')
unfolding Accepts
refuses stream conn stream' conn' = λ taken. absurd (cc taken)

branch :
    (stream : Stream) (conn : Conn) (b : Bool) (x y : Result × Stream × Conn)
    → Accepts stream conn x
    → Accepts stream conn y
    → Accepts stream conn (if b then x else y)
branch stream conn true x y k l = k
branch stream conn false x y k l = l

-- The frame is taken, once its FIN is noted and its bytes are counted.
takes :
    (clock : Clock) (stream : Stream) (conn conn' : Conn) (frame : StreamFrame)
    → WithinLimits stream conn
    → conn.conn_flow_ctl.fc_data_recved < 2 ^ 62
    → data_end frame < 2 ^ 63
    → conn'.conn_flow_ctl ≡ conn.conn_flow_ctl
    → Accepts stream conn (take_frame clock (note_fin stream frame) conn' frame)
unfolding Accepts
takes clock stream conn conn' frame w h k e =
    let n = noted stream frame w.of_frames in
    λ taken. ground (
      arith,
      n,
      take_frame-Accepts clock (note_fin stream frame) conn' frame
          (record {
            of_frames = n.2;
            of_stream = omega (arith, n.0, n.1, w.of_stream);
            of_conn = ground (arith, w.of_conn, e);
          })
          (ground (arith, h, e)) k,
    )

process_stream_frame-Accepts :
    (clock : Clock) (stream : Stream) (conn : Conn) (frame : StreamFrame)
    → WithinLimits stream conn
    → conn.conn_flow_ctl.fc_data_recved < 2 ^ 62
    → data_end frame < 2 ^ 63
    → Accepts stream conn (process_stream_frame clock stream conn frame)
unfolding process_stream_frame
process_stream_frame-Accepts clock stream conn frame w h k =
    let bytes = record conn { recv_bytes = (conn.recv_bytes + frame.data_length) % 2 ^ 64 } in
    let ended = ends stream conn bytes w refl in
    let refused = refuses stream conn stream in
    let taken = takes clock stream conn bytes frame w h k refl in
    search (branch, ended, refused, taken)

-- When a stream and its connection are within the limits, with all that waits counted, less than
-- 2 ^ 62 bytes counted for the connection, and rqc_process_stream_frame accepts a frame that ends below
-- 2 ^ 63, then the same holds afterwards: every frame that waits ends within what is counted for the
-- stream, and that is within the limit of the stream; and the connection, which stays within its own
-- limit, has counted exactly as many bytes more as the stream, whose limit stays the same.
pub process_stream_frame-WithinLimits :
    (clock : Clock) (stream : Stream) (conn : Conn) (frame : StreamFrame)
    → WithinLimits stream conn
    → conn.conn_flow_ctl.fc_data_recved < 2 ^ 62
    → data_end frame < 2 ^ 63
    → (process_stream_frame clock stream conn frame).0 ≡ ok
    → WithinLimits
        (process_stream_frame clock stream conn frame).1
        (process_stream_frame clock stream conn frame).2
      × Grown stream conn
          (process_stream_frame clock stream conn frame).1
          (process_stream_frame clock stream conn frame).2
process_stream_frame-WithinLimits clock stream conn frame w h k taken =
    unfold Accepts in process_stream_frame-Accepts clock stream conn frame w h k taken

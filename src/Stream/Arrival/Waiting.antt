-- ===== src/Stream/Arrival/Waiting.antt =====
-- What a STREAM frame does to the data that waits to be read.
use rquic.Base.{
  ℕ, ◌+◌, ◌%◌, ◌^◌, ◌≡◌, ◌∙◌, arith, Bool, true, false, if◌then◌else◌, Bool-cases, inl, inr,
}
use rquic.StreamData.{StreamFrame, StreamDataIn, Status, edup_frame, data_end, insert_stream_frame}
use rquic.StreamData.Read.Arrive.{Waits, IsNew, insert_stream_frame-Waits, insert_stream_frame-next}
use rquic.Stream.{Stream, Conn, Clock}
use rquic.Stream.Close.{stream_ready_to_read, stream_close_discarded_stream, start_close}
use rquic.Stream.Arrival.{
  Result, ok, note_fin, count_recv, wake_reader, check_limits, after_insert, take_frame,
  process_stream_frame,
}

-- The data waits ready to be read from the same place on.
unfoldable pub Kept : (ℕ → ℕ) → ℕ → StreamDataIn → Type 0
Kept g next d = Waits g d × (d.next_read_offset ≡ next)

Kept-of-eq : (g : ℕ → ℕ) (next : ℕ) (d d' : StreamDataIn) → d' ≡ d → Kept g next d → Kept g next d'
Kept-of-eq g next d d' e k = rw e k

check_limits-data_in :
    (stream : Stream) (conn : Conn)
    → (check_limits stream conn).1.stream_data_in ≡ stream.stream_data_in
unfolding check_limits wake_reader stream_ready_to_read
check_limits-data_in stream conn = ground arith

count_recv-data_in :
    (stream : Stream) (conn : Conn) (end : ℕ)
    → (count_recv stream conn end).0.stream_data_in ≡ stream.stream_data_in
unfolding count_recv
count_recv-data_in stream conn end = ground arith

discarded-data_in :
    (clock : Clock) (stream : Stream) (conn : Conn)
    → (stream_close_discarded_stream clock stream conn).0.stream_data_in ≡ stream.stream_data_in
unfolding stream_close_discarded_stream start_close
discarded-data_in clock stream conn = ground arith

note_fin-Kept :
    (g : ℕ → ℕ) (next : ℕ) (stream : Stream) (frame : StreamFrame)
    → Kept g next stream.stream_data_in
    → Kept g next (note_fin stream frame).stream_data_in
unfolding note_fin Kept
note_fin-Kept g next stream frame k = elim (Bool-cases frame.fin) [
  | inl t ↦ rw t (record { set = k.0.set; wide = k.0.wide }, k.1)
  | inr t ↦ rw t k
]

inserted-Kept :
    (g : ℕ → ℕ) (next : ℕ) (d : StreamDataIn) (frame : StreamFrame)
    → Kept g next d
    → IsNew g frame
    → Kept g next (insert_stream_frame d frame).1
unfolding Kept
inserted-Kept g next d frame k n =
    (insert_stream_frame-Waits g d frame k.0 n, insert_stream_frame-next d frame ∙ k.1)

-- The stream that a handler leaves, and on both branches of a test.
Leaves : (ℕ → ℕ) → ℕ → Result × Stream × Conn → Type 0
Leaves g next after = Kept g next after.1.stream_data_in

leaves :
    (g : ℕ → ℕ) (next : ℕ) (r : Result) (stream : Stream) (conn : Conn)
    → Kept g next stream.stream_data_in
    → Leaves g next (r, stream, conn)
unfolding Leaves
leaves g next r stream conn k = k

after_insert-Leaves :
    (g : ℕ → ℕ) (next : ℕ) (stream : Stream) (conn : Conn) (frame : StreamFrame)
    (r : Status × StreamDataIn)
    → Kept g next stream.stream_data_in
    → Kept g next r.1
    → Leaves g next (after_insert stream conn frame r)
unfolding Leaves after_insert
after_insert-Leaves g next stream conn frame (edup_frame, d) k k' = k
after_insert-Leaves g next stream conn frame (Status.ok, d) k k' =
    let filled = record stream { stream_data_in = d } in
    let counted = count_recv filled conn (data_end frame) in
    Kept-of-eq g next d (check_limits counted.0 counted.1).1.stream_data_in
      (check_limits-data_in counted.0 counted.1 ∙ count_recv-data_in filled conn (data_end frame))
      k'

branch :
    (g : ℕ → ℕ) (next : ℕ) (b : Bool) (x y : Result × Stream × Conn)
    → Leaves g next x
    → Leaves g next y
    → Leaves g next (if b then x else y)
branch g next true x y k l = k
branch g next false x y k l = l

take_frame-Leaves :
    (g : ℕ → ℕ) (next : ℕ) (clock : Clock) (stream : Stream) (conn : Conn) (frame : StreamFrame)
    → Kept g next stream.stream_data_in
    → IsNew g frame
    → Leaves g next (take_frame clock stream conn frame)
unfolding take_frame
take_frame-Leaves g next clock stream conn frame k n =
    let d = stream.stream_data_in in
    let closed = stream_close_discarded_stream clock stream conn in
    let still =
      Kept-of-eq g next d closed.0.stream_data_in (discarded-data_in clock stream conn) k in
    let unchanged = λ (r : Result) (c : Conn). leaves g next r stream c k in
    let dropped = leaves g next ok closed.0 closed.1 still in
    let taken =
      after_insert-Leaves g next stream conn frame (insert_stream_frame d frame) k
        (inserted-Kept g next d frame k n) in
    search (branch, unchanged, dropped, taken)

process_stream_frame-Leaves :
    (g : ℕ → ℕ) (next : ℕ) (clock : Clock) (stream : Stream) (conn : Conn) (frame : StreamFrame)
    → Kept g next stream.stream_data_in
    → IsNew g frame
    → Leaves g next (process_stream_frame clock stream conn frame)
unfolding process_stream_frame
process_stream_frame-Leaves g next clock stream conn frame k n =
    let counted = record conn { recv_bytes = (conn.recv_bytes + frame.data_length) % 2 ^ 64 } in
    let unchanged = λ (r : Result) (c : Conn). leaves g next r stream c k in
    let taken =
      take_frame-Leaves g next clock (note_fin stream frame) counted frame
        (note_fin-Kept g next stream frame k) n in
    search (branch, unchanged, taken)

-- Whether the frame is taken, dropped or refused.
pub process_stream_frame-Kept :
    (g : ℕ → ℕ) (next : ℕ) (clock : Clock) (stream : Stream) (conn : Conn) (frame : StreamFrame)
    → Kept g next stream.stream_data_in
    → IsNew g frame
    → Kept g next (process_stream_frame clock stream conn frame).1.stream_data_in
unfolding Leaves
process_stream_frame-Kept g next clock stream conn frame k n =
    process_stream_frame-Leaves g next clock stream conn frame k n

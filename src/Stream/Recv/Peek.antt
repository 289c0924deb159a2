-- ===== src/Stream/Recv/Peek.antt =====
-- rqc_stream_peek and rqc_stream_recv give the same bytes.
use rquic.Base.{
  ℕ, ◌-◌, ◌^◌, ◌<◌, ◌≡◌, min, minus, refl, ap, arith, Bool, ◌&&◌, not, List, ◌==◌, if◌then◌else◌,
  length, lt→leb, le→ltb,
}
use rquic.StreamData.{StreamFrame}
use rquic.StreamData.Read.{peek_frames}
use rquic.StreamData.Read.Content.{content, length-content}
use rquic.StreamData.Read.Turns.{Ready}
use rquic.StreamData.Read.Deliver.{ahead}
use rquic.StreamData.Read.Peek.{peek_frames-content}
use rquic.StreamData.Read.Arrive.{Waits}
use rquic.Stream.{recv_rank, Stream, Conn, Clock}
use rquic.Stream.Close.{stream_shutdown_read}
use rquic.Stream.Recv.{peeked, nothing_to_peek, after_peek, stream_peek}

after_peek_lem :
    (g : ℕ → ℕ) (next readable size : ℕ) (fin : Bool) (bytes : List ℕ)
    → bytes ≡ content g next (min size readable)
    → after_peek readable size fin bytes ≡ (
        if readable == 0 && not fin
        then nothing_to_peek
        else peeked (content g next (min size readable)) readable fin)
unfolding after_peek
after_peek_lem g next readable size fin bytes e =
    rw
      (
        e,
        le→ltb (length (content g next (min size readable))) (min readable size)
            (omega (arith, length-content g next (min size readable))),
      )
      refl

peek_all :
    (g : ℕ → ℕ) (merged size next : ℕ) (l : List StreamFrame)
    → Ready g merged next l
    → merged < 2 ^ 64
    → peek_frames size next 0 l ≡ content g next (min size (minus merged next))
peek_all g merged size next l v wide =
    let a = ahead g merged next l v in
    let e : min (size - 0) (merged - next) ≡ min size (minus merged next) =
      omega (arith, a, wide) in
    rw (← e) (peek_frames-content g merged size next 0 l v wide (omega arith) (omega arith))

-- On a stream that was not reset and whose frames wait ready to be read, rqc_stream_peek copies as many
-- bytes of the stream from next_read_offset on as fit and have come in one piece, reports how many have
-- come and whether they end the stream, or -RQC_EAGAIN when there are none, never -RQC_ESTATE, and only
-- takes the stream off the list of those to be read.
pub stream_peek_lem :
    (g : ℕ → ℕ) (clock : Clock) (stream : Stream) (conn : Conn) (size : ℕ)
    → recv_rank stream.stream_state_recv < 4
    → Waits g stream.stream_data_in
    → let d = stream.stream_data_in in
      let readable = minus d.merged_offset_end d.next_read_offset in
      let fin = d.stream_determined && d.merged_offset_end == d.stream_length in
      stream_peek clock stream conn size ≡ (
        if readable == 0 && not fin
            then nothing_to_peek
            else peeked (content g d.next_read_offset (min size readable)) readable fin,
        stream_shutdown_read stream,
        conn,
      )
unfolding stream_peek
stream_peek_lem g clock stream conn size unreset w =
    let d = stream.stream_data_in in
    let a = ahead g d.merged_offset_end d.next_read_offset d.frames_tailq w.set in
    rw (lt→leb _ _ unreset, le→ltb _ _ a)
      (ap (λ p. (p, stream_shutdown_read stream, conn))
        (after_peek_lem g d.next_read_offset _ size _ _
          (peek_all g d.merged_offset_end size d.next_read_offset d.frames_tailq w.set w.wide)))

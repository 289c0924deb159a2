-- ===== src/Stream/Delivery/Tests.antt =====
-- A concrete stream: bytes 0 to 3 and 6 to 7 have come; then 3 to 5 come, and it is read.
use rquic.Base.{
  ◌+◌, ◌-◌, ◌/◌, ◌%◌, ◌^◌, ◌≤◌, ◌<◌, ◌≡◌, min, refl, arith, false, ◌&&◌, not, List, [], ◌∷◌, ◌==◌,
  if◌then◌else◌, minus,
}
use rquic.StreamData.{data_end, within, contains}
use rquic.StreamData.Cover.{Fits, Sorted}
use rquic.StreamData.Read.Content.{content, Carries, IsRead}
use rquic.StreamData.Read.Turns.{Ready}
use rquic.StreamData.Read.Arrive.{Waits, IsNew}
use rquic.Stream.{recv_rank, Clock, Stream, Conn, max_data, max_stream_data}
use rquic.Stream.Recv.{
  received, again, stream_recv, stream_do_recv_flow_ctl, peeked, nothing_to_peek, stream_peek,
}
use rquic.Stream.Close.{stream_shutdown_read}
use rquic.Stream.Recv.Peek.{stream_peek_lem}
use rquic.Stream.Recv.Laws.{stream_recv_lem}
use rquic.Stream.Recv.Window.{told, do_recv_flow_ctl_lem}
use rquic.Stream.Delivery.{Event, arrives, reads, run, Honest, run_lem}
use rquic.Stream.Sample.{byte, frame, stream, conn, clock}

stream-Ready : Ready byte 4 0 stream.stream_data_in.frames_tailq
unfolding Ready Sorted Fits contains within data_end Carries content IsRead
stream-Ready = (
  (omega arith, omega arith, (omega arith, omega arith, tt)),
  omega arith,
  λ n a b. ground (arith, a, b),
  refl,
  (refl, (refl, tt)),
  (λ p. absurd (omega (arith, p)), ((λ p. absurd (omega (arith, p))), tt)),
)

stream-Waits : Waits byte stream.stream_data_in
stream-Waits = record { set = stream-Ready; wide = omega arith }

filler-IsNew : IsNew byte (frame (13 ∷ 14 ∷ 15 ∷ []) 3)
unfolding Fits Carries content
filler-IsNew = record { fits = omega arith; carries = refl; unread = refl }

abbrev events : List (Clock × Event)
events = (clock, reads 3) ∷ (clock, arrives (frame (13 ∷ 14 ∷ 15 ∷ []) 3)) ∷ (clock, reads 100) ∷ []

events-Honest : Honest byte events
unfolding Honest
events-Honest = (filler-IsNew, tt)

run_lem_example :
    Waits byte (run events stream conn).1.stream_data_in
    × (0 ≤ (run events stream conn).1.stream_data_in.next_read_offset)
    × ((run events stream conn).0
        ≡ content byte 0 ((run events stream conn).1.stream_data_in.next_read_offset - 0))
run_lem_example = run_lem byte events stream conn stream-Waits events-Honest

open_stream : recv_rank stream.stream_state_recv < 4
open_stream = omega arith

stream_recv_lem_example :
    ((stream_recv clock stream conn 3).0 ≡ (
      if min 3 (4 - 0) == 0 && not (false && 0 + min 3 (4 - 0) == 0)
      then again
      else received (content byte 0 (min 3 (4 - 0))) (false && 0 + min 3 (4 - 0) == 0)))
    × Waits byte (stream_recv clock stream conn 3).1.stream_data_in
    × ((stream_recv clock stream conn 3).1.stream_data_in.next_read_offset ≡ 0 + min 3 (4 - 0))
    × ((stream_recv clock stream conn 3).1.stream_data_in.merged_offset_end ≡ 4)
    × ((stream_recv clock stream conn 3).2.conn_flow_ctl.fc_data_read
        ≡ (0 + min 3 (4 - 0)) % 2 ^ 64)
stream_recv_lem_example = stream_recv_lem byte clock stream conn 3 open_stream stream-Waits

-- Eight bytes were read of a limit of 10, and 16 of a limit of 20.
abbrev read_on : Stream
read_on = record stream {
  stream_data_in = record stream.stream_data_in { next_read_offset = 8; merged_offset_end = 8 };
}

abbrev conn_read : Conn
conn_read = record conn { conn_flow_ctl = record conn.conn_flow_ctl { fc_data_read = 16 } }

do_recv_flow_ctl_lem_example :
    let after = stream_do_recv_flow_ctl clock read_on conn_read in
    let fc = after.0.stream_flow_ctl in
    let all = after.1.conn_flow_ctl in
    (10 ≤ fc.fc_max_stream_data_can_recv)
    × (fc.fc_stream_recv_window_size / 2 + 8 ≤ fc.fc_max_stream_data_can_recv)
    × (20 ≤ all.fc_max_data_can_recv)
    × (all.fc_recv_windows_size / 2 + 16 ≤ all.fc_max_data_can_recv)
    × (after.1.written
        ≡ told 20 all.fc_max_data_can_recv (max_data all.fc_max_data_can_recv) (
            told 10 fc.fc_max_stream_data_can_recv
              (max_stream_data 0 fc.fc_max_stream_data_can_recv)
              []))
do_recv_flow_ctl_lem_example =
    do_recv_flow_ctl_lem clock read_on conn_read (omega arith) (omega arith) (omega arith)
      (omega arith) (omega arith) (omega arith)

stream_peek_lem_example : stream_peek clock stream conn 3 ≡ (
  if minus 4 0 == 0 && not (false && 4 == 0)
      then nothing_to_peek
      else peeked (content byte 0 (min 3 (minus 4 0))) (minus 4 0) (false && 4 == 0),
  stream_shutdown_read stream,
  conn,
)
stream_peek_lem_example = stream_peek_lem byte clock stream conn 3 open_stream stream-Waits

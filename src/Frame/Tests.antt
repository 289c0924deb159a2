-- ===== src/Frame/Tests.antt =====
-- Runs of the frame writers and parsers, and their theorems at concrete inputs.
use rquic.Base.{
  ℕ, ◌+◌, ◌-◌, ◌/◌, ◌*◌, ◌%◌, ◌^◌, ◌≡◌, ◌≤◌, refl, arith, ltb, List, [], ◌∷◌, ◌++◌, length, false,
  minus,
}
use rquic.Vint.{vint_read, vint_get_2bit, vint_write}
use rquic.RecvRecord.{RecvRecord, recv_record_largest}
use rquic.RecvRecord.Inv.{Descending, IsValid}
use rquic.Frame.{
  PacketOut, PacketIn, ok, mark_out, advance, vint_size, next, get_po_remained_size,
  get_po_remained_size_with_ack_spc, ack, reset_stream, frame_bit, connection_close,
}
use rquic.Frame.Control.{
  gen_reset_stream_frame, parse_reset_stream_frame, parse_conn_close_frame, gen_conn_close_frame,
  int_bytes,
}
use rquic.Frame.Control.RoundTrip.{parse-gen_reset_stream_frame, parse-gen_conn_close_frame}
use rquic.Frame.Ack.{gen_ack_frame, parse_ack_frame}
use rquic.Frame.Ack.Ranges.{Narrow}
use rquic.Frame.Ack.RoundTrip.{IsNarrow, parse-gen_ack_frame}

abbrev packet_out : PacketOut
packet_out = record { po_buf_size = 1200; po_used_size = 20; po_frame_types = 0 }

abbrev packet_in : PacketIn
packet_in = record { unread = []; overrun = 0; pi_frame_types = 0 }

-- The reason of a CONNECTION_CLOSE frame is skipped beyond the end of the packet.
conn_close_run :
    parse_conn_close_frame (record packet_in { unread = 0x1d ∷ 0 ∷ 9 ∷ [] })
    ≡ ok (0, record { unread = []; overrun = 9; pi_frame_types = 2 ^ 15 })
unfolding parse_conn_close_frame next vint_read advance frame_bit
conn_close_run = refl

parse-gen_reset_stream_frame_example :
    (frame : List ℕ) × (gen_reset_stream_frame packet_out 4 70 9
      ≡ ok (frame, mark_out reset_stream packet_out))
    × (length frame ≡ 1 + vint_size 4 + vint_size 70 + vint_size 9)
    × (parse_reset_stream_frame (record packet_in { unread = frame ++ 1 ∷ [] })
        ≡ ok (4, 70, 9, advance reset_stream (1 ∷ []) packet_in))
unfolding vint_size vint_get_2bit get_po_remained_size
parse-gen_reset_stream_frame_example =
    parse-gen_reset_stream_frame packet_in (1 ∷ []) (omega arith, tt) packet_out 4 70 9
      (omega arith) (omega arith) (omega arith) (omega arith)

abbrev rec : RecvRecord
rec = record {
  ranges = record { low = 9; high = 12 } ∷ record { low = 3; high = 7 } ∷ [];
  rr_del_from = 2;
  node_count = 2;
}

rec-IsValid : IsValid rec
unfolding IsValid Descending
rec-IsValid = omega arith

rec-IsNarrow : IsNarrow rec
unfolding IsNarrow Narrow
rec-IsNarrow = omega arith

parse-gen_ack_frame_example :
    (frame : List ℕ) × (gen_ack_frame packet_out 5000 3 rec 1000
      ≡ ok (frame, ltb 1 2, recv_record_largest rec, mark_out ack packet_out))
    × (parse_ack_frame 3 (record packet_in { unread = frame ++ 1 ∷ [] })
        ≡ ok (
          record {
            path_id = 0;
            ranges = rec.ranges;
            ack_delay = minus 5000 1000 / 2 ^ 3 * 2 ^ 3 % 2 ^ 64;
            largest_acked = recv_record_largest rec;
          },
          advance ack (1 ∷ []) packet_in,
        ))
unfolding get_po_remained_size_with_ack_spc
parse-gen_ack_frame_example =
    parse-gen_ack_frame packet_out packet_in rec 5000 1000 3 3 (1 ∷ []) rec-IsValid rec-IsNarrow
      (omega arith) (omega arith) (omega arith, tt)

-- Of a frame type that is -1 as an int the last byte of a word of ones is written.
negative_type : int_bytes (2 ^ 32 - 1) ≡ vint_write (2 ^ 64 - 1) 0 1
unfolding int_bytes
negative_type = refl

parse-gen_conn_close_frame_example :
    (frame : List ℕ) × (gen_conn_close_frame packet_out 10 false 6
      ≡ ok (frame, mark_out connection_close packet_out))
    × (length frame ≤ 1 + vint_size 10 + vint_size 6 + vint_size 0 + 0)
    × (parse_conn_close_frame (record packet_in { unread = frame ++ 1 ∷ [] })
        ≡ ok (10, record (advance connection_close (1 ∷ []) packet_in) { overrun = 0 }))
unfolding vint_size vint_get_2bit get_po_remained_size
parse-gen_conn_close_frame_example =
    parse-gen_conn_close_frame packet_in (1 ∷ []) (omega arith, tt) packet_out 10 6 false
      (omega arith) (omega arith) (omega arith)

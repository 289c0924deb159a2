-- ===== src/Frame/Control/RoundTrip.antt =====
-- What the parsers of the control frames read back from what the writers write.
use rquic.Base.{ℕ, ◌+◌, ◌^◌, ◌<◌, ◌≤◌, ◌≡◌, refl, arith, ◌-◌, Bool, true, false, List, ◌∷◌, ◌++◌}
use rquic.Base.{◌==◌, ◌%◌, length, All, le→ltb, lt→ltb, ltb}
use rquic.Vint.{IsByte}
use rquic.Frame.{
  PacketOut, PacketIn, ok, mark_out, advance, vint_bytes, vint_size, get_po_remained_size,
}
use rquic.Frame.{
  connection_close, reset_stream, stop_sending, data_blocked, stream_data_blocked, streams_blocked,
  max_data, max_stream_data, max_streams, FrameType,
}
use rquic.Frame.Values.{length_two, length_three, read_one, read_two, read_three}
use rquic.Frame.Control.{
  Generated, within, gen_conn_close_frame, parse_conn_close_frame, gen_reset_stream_frame, int_word,
  int_2bit, int_bytes, int_size, parse_reset_stream_frame, parse_one, parse_two, parse_limit,
}
use rquic.Frame.Control.{gen_stop_sending_frame, parse_stop_sending_frame}
use rquic.Frame.Control.{
  gen_data_blocked_frame, parse_data_blocked_frame, gen_stream_data_blocked_frame,
  parse_stream_data_blocked_frame,
}
use rquic.Frame.Control.{
  gen_streams_blocked_frame, parse_streams_blocked_frame, gen_max_data_frame, parse_max_data_frame,
}
use rquic.Frame.Control.{
  gen_max_stream_data_frame, parse_max_stream_data_frame, gen_max_streams_frame,
  parse_max_streams_frame,
}

-- With room for the frame, the test of `need` passes.
fits :
    (need : ℕ) (packet_out : PacketOut) (result : Generated)
    → need ≤ get_po_remained_size packet_out
    → within need packet_out result ≡ result
unfolding within
fits need packet_out result h = rw (le→ltb (get_po_remained_size packet_out) need h) refl

-- A number that is not negative as an int is written as itself.
int_lem : (n : ℕ) → n < 2 ^ 31 → (int_bytes n ≡ vint_bytes n) × (int_size n ≡ vint_size n)
unfolding int_bytes int_size int_word int_2bit vint_bytes vint_size
int_lem n h =
    let word : n % 2 ^ 32 ≡ n = omega (arith, h) in
    let plain : ltb n (2 ^ 31) ≡ true = lt→ltb n (2 ^ 31) h in
    (rw (word, plain) refl, rw (word, plain) refl)

module _ (packet_in : PacketIn) (rest : List ℕ) (bytes : All IsByte rest) where
  -- The packet in which the frame comes next, before the bytes `rest`.
  abbrev holding : List ℕ → PacketIn
  holding frame = record packet_in { unread = frame ++ rest }

  parse_one_lem :
      (type : FrameType) (b v : ℕ)
      → v < 2 ^ 62
      → parse_one type (holding (b ∷ vint_bytes v)) ≡ ok (v, advance type rest packet_in)
  unfolding parse_one advance
  parse_one_lem type b v h = rw (read_one v rest h bytes) refl

  parse_two_lem :
      (type : FrameType) (b v w : ℕ)
      → v < 2 ^ 62
      → w < 2 ^ 62
      → parse_two type (holding (b ∷ vint_bytes v ++ vint_bytes w))
        ≡ ok (v, w, advance type rest packet_in)
  unfolding parse_two advance
  parse_two_lem type b v w h k = rw (read_two v w rest h k bytes, read_one w rest k bytes) refl

  parse_limit_lem :
      (type : FrameType) (bidirectional_type b v : ℕ)
      → v < 2 ^ 62
      → parse_limit type bidirectional_type (holding (b ∷ vint_bytes v))
        ≡ ok (v, b == bidirectional_type, advance type rest packet_in)
  unfolding parse_limit advance
  parse_limit_lem type bidirectional_type b v h = rw (read_one v rest h bytes) refl

  -- The frames of one value, below 2 ^ 62: DATA_BLOCKED and MAX_DATA, and with the kind of streams
  -- STREAMS_BLOCKED and MAX_STREAMS. What is written is read back, before whatever bytes follow.
  pub parse-gen_limit_frames :
      (packet_out : PacketOut) (v : ℕ) (bidirectional : Bool)
      → v < 2 ^ 62
      → (parse_data_blocked_frame (holding (gen_data_blocked_frame packet_out v).0)
          ≡ ok (v, advance data_blocked rest packet_in))
        × (parse_max_data_frame (holding (gen_max_data_frame packet_out v).0)
            ≡ ok (v, advance max_data rest packet_in))
        × (parse_streams_blocked_frame
              (holding (gen_streams_blocked_frame packet_out v bidirectional).0)
            ≡ ok (v, bidirectional, advance streams_blocked rest packet_in))
        × (parse_max_streams_frame (holding (gen_max_streams_frame packet_out v bidirectional).0)
            ≡ ok (v, bidirectional, advance max_streams rest packet_in))
  unfolding parse_data_blocked_frame gen_data_blocked_frame parse_max_data_frame gen_max_data_frame
      parse_streams_blocked_frame gen_streams_blocked_frame parse_max_streams_frame
      gen_max_streams_frame
  parse-gen_limit_frames packet_out v true h = (
    parse_one_lem data_blocked 0x14 v h,
    parse_one_lem max_data 0x10 v h,
    parse_limit_lem streams_blocked 0x16 0x16 v h,
    parse_limit_lem max_streams 0x12 0x12 v h,
  )
  parse-gen_limit_frames packet_out v false h = (
    parse_one_lem data_blocked 0x14 v h,
    parse_one_lem max_data 0x10 v h,
    parse_limit_lem streams_blocked 0x16 0x17 v h,
    parse_limit_lem max_streams 0x12 0x13 v h,
  )

  -- The frames of a stream and one value, both below 2 ^ 62: STREAM_DATA_BLOCKED and MAX_STREAM_DATA.
  -- What is written is read back, before whatever bytes follow.
  pub parse-gen_stream_limit_frames :
      (packet_out : PacketOut) (stream_id v : ℕ)
      → stream_id < 2 ^ 62
      → v < 2 ^ 62
      → (parse_stream_data_blocked_frame
            (holding (gen_stream_data_blocked_frame packet_out stream_id v).0)
          ≡ ok (stream_id, v, advance stream_data_blocked rest packet_in))
        × (parse_max_stream_data_frame
              (holding (gen_max_stream_data_frame packet_out stream_id v).0)
            ≡ ok (stream_id, v, advance max_stream_data rest packet_in))
  unfolding parse_stream_data_blocked_frame gen_stream_data_blocked_frame
      parse_max_stream_data_frame gen_max_stream_data_frame
  parse-gen_stream_limit_frames packet_out stream_id v h k = (
    parse_two_lem stream_data_blocked 0x15 stream_id v h k,
    parse_two_lem max_stream_data 0x11 stream_id v h k,
  )

  -- With room for it, a STOP_SENDING frame of values below 2 ^ 62 is written in as many bytes as the
  -- writer asks for, and read back, before whatever bytes follow.
  pub parse-gen_stop_sending_frame :
      (packet_out : PacketOut) (stream_id err_code : ℕ)
      → stream_id < 2 ^ 62
      → err_code < 2 ^ 62
      → 1 + vint_size stream_id + vint_size err_code ≤ get_po_remained_size packet_out
      → (frame : List ℕ) × (gen_stop_sending_frame packet_out stream_id err_code
          ≡ ok (frame, mark_out stop_sending packet_out))
        × (length frame ≡ 1 + vint_size stream_id + vint_size err_code)
        × (parse_stop_sending_frame (holding frame)
            ≡ ok (stream_id, err_code, advance stop_sending rest packet_in))
  unfolding gen_stop_sending_frame parse_stop_sending_frame
  parse-gen_stop_sending_frame packet_out stream_id err_code h k room = (
    0x05 ∷ vint_bytes stream_id ++ vint_bytes err_code,
    fits _ packet_out _ room,
    omega (arith, length_two stream_id err_code h k),
    parse_two_lem stop_sending 0x05 stream_id err_code h k,
  )

  -- With room for it, a RESET_STREAM frame of values below 2 ^ 62 is written in as many bytes as the
  -- writer asks for, and read back, before whatever bytes follow.
  pub parse-gen_reset_stream_frame :
      (packet_out : PacketOut) (stream_id err_code final_size : ℕ)
      → stream_id < 2 ^ 62
      → err_code < 2 ^ 62
      → final_size < 2 ^ 62
      → 1 + vint_size stream_id + vint_size err_code + vint_size final_size
        ≤ get_po_remained_size packet_out
      → (frame : List ℕ) × (gen_reset_stream_frame packet_out stream_id err_code final_size
          ≡ ok (frame, mark_out reset_stream packet_out))
        × (length frame ≡ 1 + vint_size stream_id + vint_size err_code + vint_size final_size)
        × (parse_reset_stream_frame (holding frame)
            ≡ ok (stream_id, err_code, final_size, advance reset_stream rest packet_in))
  unfolding gen_reset_stream_frame parse_reset_stream_frame advance
  parse-gen_reset_stream_frame packet_out stream_id err_code final_size h k l room = (
    0x04 ∷ vint_bytes stream_id ++ vint_bytes err_code ++ vint_bytes final_size,
    fits _ packet_out _ room,
    omega (arith, length_three stream_id err_code final_size h k l),
    rw
        (
          read_three stream_id err_code final_size rest h k l bytes,
          read_two err_code final_size rest k l bytes,
          read_one final_size rest l bytes,
        )
        refl,
  )

  -- With room for it, a CONNECTION_CLOSE frame of a code below 2 ^ 62 and a frame type that is not
  -- negative as an int, below 2 ^ 31, is written in at most as many bytes as the writer asks for, with
  -- an empty reason, and its code is read back, before whatever bytes follow.
  pub parse-gen_conn_close_frame :
      (packet_out : PacketOut) (err_code frame_type : ℕ) (is_app : Bool)
      → err_code < 2 ^ 62
      → frame_type < 2 ^ 31
      → 1 + vint_size err_code + vint_size frame_type + vint_size 0 + 0
        ≤ get_po_remained_size packet_out
      → (frame : List ℕ) × (gen_conn_close_frame packet_out err_code is_app frame_type
          ≡ ok (frame, mark_out connection_close packet_out))
        × (length frame ≤ 1 + vint_size err_code + vint_size frame_type + vint_size 0 + 0)
        × (parse_conn_close_frame (holding frame)
            ≡ ok (err_code, record (advance connection_close rest packet_in) { overrun = 0 }))
  unfolding gen_conn_close_frame parse_conn_close_frame advance
  parse-gen_conn_close_frame packet_out err_code frame_type true h k room =
      let int = int_lem frame_type k in
      let empty : 0 - length rest ≡ 0 = omega arith in
      (
        0x1d ∷ vint_bytes err_code ++ vint_bytes 0,
        rw (int.1) (fits _ packet_out _ room),
        omega (arith, length_two err_code 0 h (omega arith)),
        rw
            (
              read_two err_code 0 rest h (omega arith) bytes,
              read_one 0 rest (omega arith) bytes,
              empty,
            )
            refl,
      )
  parse-gen_conn_close_frame packet_out err_code frame_type false h k room =
      let int = int_lem frame_type k in
      let wide : frame_type < 2 ^ 62 = omega (arith, k) in
      let empty : 0 - length rest ≡ 0 = omega arith in
      (
        0x1c ∷ vint_bytes err_code ++ vint_bytes frame_type ++ vint_bytes 0,
        rw (int.0, int.1) (fits _ packet_out _ room),
        omega (arith, length_three err_code frame_type 0 h wide (omega arith)),
        rw
            (
              read_three err_code frame_type 0 rest h wide (omega arith) bytes,
              read_two frame_type 0 rest wide (omega arith) bytes,
              read_one 0 rest (omega arith) bytes,
              empty,
            )
            refl,
      )

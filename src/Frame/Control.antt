-- ===== src/Frame/Control.antt =====
-- src/transport/rqc_frame_parser.c: the frames of flow control, of streams that end, of paths and
-- of the end of a connection. A parser is called with `pos < last`; where nothing is left behind the
-- first byte, or there is no first byte, the first read fails.
pub mod RoundTrip
use rquic.Base.{
  ℕ, ◌+◌, ◌-◌, ◌%◌, ◌^◌, Bool, List, [], ◌∷◌, ◌++◌, ltb, ◌==◌, if◌then◌else◌, drop, take, length,
  zero, suc,
}
use rquic.Vint.{vint_get_2bit, vint_len, vint_write}
use rquic.Frame.{
  get_po_remained_size, PacketOut, PacketIn, Error, enobuf, evintread, Result, ok, err, ◌>>=◌,
  mark_out, advance, vint_bytes, vint_size, next,
}
use rquic.Frame.{
  FrameType, padding, ping, reset_stream, stop_sending, max_data, max_stream_data, max_streams,
}
use rquic.Frame.{
  data_blocked, stream_data_blocked, streams_blocked, path_challenge, path_response,
  connection_close,
}

-- RQC_PATH_CHALLENGE_DATA_LEN
abbrev pub path_challenge_data_len : ℕ
path_challenge_data_len = 8

-- What a writer returns: the bytes written, and the packet.
abbrev pub Generated : Type 0
Generated = Result (List ℕ × PacketOut)

-- The test of `need`, before anything is written.
pub within : ℕ → PacketOut → Generated → Generated
within need packet_out result =
    if ltb (get_po_remained_size packet_out) need then err enobuf else result

pub gen_ping_frame : PacketOut → Generated
gen_ping_frame packet_out = within 1 packet_out (ok (0x01 ∷ [], mark_out ping packet_out))

pub parse_ping_frame : PacketIn → Result PacketIn
parse_ping_frame packet_in = ok (advance ping (drop 1 packet_in.unread) packet_in)

pub zeros : ℕ → List ℕ
zeros zero = []
zeros (suc n) = 0 ∷ zeros n

-- RQC_PACKET_INITIAL_MIN_LENGTH
abbrev pub packet_initial_min_length : ℕ
packet_initial_min_length = 1200

-- `rqc_gen_padding_frame`: the zeros written behind the bytes in use, and the packet.
pub gen_padding_frame : PacketOut → List ℕ × PacketOut
gen_padding_frame packet_out =
    if ltb packet_out.po_used_size packet_initial_min_length
    then (
      zeros (packet_initial_min_length - packet_out.po_used_size),
      record (mark_out padding packet_out) { po_used_size = packet_initial_min_length },
    )
    else ([], packet_out)

-- The loop of `rqc_parse_padding_frame`
pub skip_zeros : List ℕ → List ℕ
skip_zeros [] = []
skip_zeros (zero ∷ p) = skip_zeros p
skip_zeros (suc b ∷ p) = suc b ∷ p

pub parse_padding_frame : PacketIn → Result PacketIn
parse_padding_frame packet_in =
    ok (advance padding (skip_zeros (drop 1 packet_in.unread)) packet_in)

-- An argument of type int stands here by its 32 bits. This is what it becomes as a uint64_t, where a
-- negative one is extended by ones; and its rqc_vint_get_2bit, which compares it as a signed number.
pub int_word : ℕ → ℕ
int_word n = let w = n % 2 ^ 32 in if ltb w (2 ^ 31) then w else w + (2 ^ 64 - 2 ^ 32)

pub int_2bit : ℕ → ℕ
int_2bit n = let w = n % 2 ^ 32 in if ltb w (2 ^ 31) then vint_get_2bit w else 0

unfoldable pub int_bytes : ℕ → List ℕ
unfolding int_word int_2bit
int_bytes n = vint_write (int_word n) (int_2bit n) (vint_len (int_2bit n))

unfoldable pub int_size : ℕ → ℕ
unfolding int_2bit
int_size n = vint_len (int_2bit n)

-- `frame_type` is an int. The reason is empty. `need` counts the frame type even where it is not written.
pub gen_conn_close_frame : PacketOut → ℕ → Bool → ℕ → Generated
gen_conn_close_frame packet_out err_code is_app frame_type =
    within (1 + vint_size err_code + int_size frame_type + vint_size 0 + 0) packet_out (
      ok (
        (if is_app
            then 0x1d ∷ vint_bytes err_code ++ vint_bytes 0
            else 0x1c ∷ vint_bytes err_code ++ int_bytes frame_type ++ vint_bytes 0),
        mark_out connection_close packet_out,
      ))

-- The reason is skipped, whether or not the packet holds it.
unfoldable pub parse_conn_close_frame : PacketIn → Result (ℕ × PacketIn)
parse_conn_close_frame packet_in = elim packet_in.unread [
  | [] ↦ err evintread
  | first_byte ∷ p ↦ do
    (err_code, p) ← next p
    (_, p) ← (if first_byte == 0x1c then next p else ok (0, p))
    (reason_len, p) ← next p
    ok (
      err_code,
      record (advance connection_close (drop reason_len p) packet_in) {
        overrun = reason_len - length p;
      },
    )
]

pub gen_reset_stream_frame : PacketOut → ℕ → ℕ → ℕ → Generated
gen_reset_stream_frame packet_out stream_id err_code final_size =
    within (1 + vint_size stream_id + vint_size err_code + vint_size final_size) packet_out (
      ok (
        0x04 ∷ vint_bytes stream_id ++ vint_bytes err_code ++ vint_bytes final_size,
        mark_out reset_stream packet_out,
      ))

pub parse_reset_stream_frame : PacketIn → Result (ℕ × ℕ × ℕ × PacketIn)
parse_reset_stream_frame packet_in = do
  (stream_id, p) ← next (drop 1 packet_in.unread)
  (err_code, p) ← next p
  (final_size, p) ← next p
  ok (stream_id, err_code, final_size, advance reset_stream p packet_in)

pub gen_stop_sending_frame : PacketOut → ℕ → ℕ → Generated
gen_stop_sending_frame packet_out stream_id err_code =
    within (1 + vint_size stream_id + vint_size err_code) packet_out
      (ok (0x05 ∷ vint_bytes stream_id ++ vint_bytes err_code, mark_out stop_sending packet_out))

-- Two values behind the type: the parser of STOP_SENDING, STREAM_DATA_BLOCKED and MAX_STREAM_DATA.
pub parse_two : FrameType → PacketIn → Result (ℕ × ℕ × PacketIn)
parse_two type packet_in = do
  (stream_id, p) ← next (drop 1 packet_in.unread)
  (val, p) ← next p
  ok (stream_id, val, advance type p packet_in)

pub parse_stop_sending_frame : PacketIn → Result (ℕ × ℕ × PacketIn)
parse_stop_sending_frame packet_in = parse_two stop_sending packet_in

-- One value behind the type: the parser of DATA_BLOCKED and MAX_DATA.
pub parse_one : FrameType → PacketIn → Result (ℕ × PacketIn)
parse_one type packet_in = do
  (val, p) ← next (drop 1 packet_in.unread)
  ok (val, advance type p packet_in)

-- One value, and whether the type is the one of bidirectional streams.
pub parse_limit : FrameType → ℕ → PacketIn → Result (ℕ × Bool × PacketIn)
parse_limit type bidirectional_type packet_in = elim packet_in.unread [
  | [] ↦ err evintread
  | first_byte ∷ p ↦ do
    (val, p) ← next p
    ok (val, first_byte == bidirectional_type, advance type p packet_in)
]

-- The next six writers do not look at the space that is left.
pub gen_data_blocked_frame : PacketOut → ℕ → List ℕ × PacketOut
gen_data_blocked_frame packet_out data_limit =
    (0x14 ∷ vint_bytes data_limit, mark_out data_blocked packet_out)

pub parse_data_blocked_frame : PacketIn → Result (ℕ × PacketIn)
parse_data_blocked_frame packet_in = parse_one data_blocked packet_in

pub gen_stream_data_blocked_frame : PacketOut → ℕ → ℕ → List ℕ × PacketOut
gen_stream_data_blocked_frame packet_out stream_id stream_data_limit = (
  0x15 ∷ vint_bytes stream_id ++ vint_bytes stream_data_limit,
  mark_out stream_data_blocked packet_out,
)

pub parse_stream_data_blocked_frame : PacketIn → Result (ℕ × ℕ × PacketIn)
parse_stream_data_blocked_frame packet_in = parse_two stream_data_blocked packet_in

pub gen_streams_blocked_frame : PacketOut → ℕ → Bool → List ℕ × PacketOut
gen_streams_blocked_frame packet_out stream_limit bidirectional = (
  (if bidirectional then 0x16 else 0x17) ∷ vint_bytes stream_limit,
  mark_out streams_blocked packet_out,
)

pub parse_streams_blocked_frame : PacketIn → Result (ℕ × Bool × PacketIn)
parse_streams_blocked_frame packet_in = parse_limit streams_blocked 0x16 packet_in

pub gen_max_data_frame : PacketOut → ℕ → List ℕ × PacketOut
gen_max_data_frame packet_out max_bytes =
    (0x10 ∷ vint_bytes max_bytes, mark_out max_data packet_out)

pub parse_max_data_frame : PacketIn → Result (ℕ × PacketIn)
parse_max_data_frame packet_in = parse_one max_data packet_in

pub gen_max_stream_data_frame : PacketOut → ℕ → ℕ → List ℕ × PacketOut
gen_max_stream_data_frame packet_out stream_id max_bytes =
    (0x11 ∷ vint_bytes stream_id ++ vint_bytes max_bytes, mark_out max_stream_data packet_out)

pub parse_max_stream_data_frame : PacketIn → Result (ℕ × ℕ × PacketIn)
parse_max_stream_data_frame packet_in = parse_two max_stream_data packet_in

pub gen_max_streams_frame : PacketOut → ℕ → Bool → List ℕ × PacketOut
gen_max_streams_frame packet_out limit bidirectional =
    ((if bidirectional then 0x12 else 0x13) ∷ vint_bytes limit, mark_out max_streams packet_out)

pub parse_max_streams_frame : PacketIn → Result (ℕ × Bool × PacketIn)
parse_max_streams_frame packet_in = parse_limit max_streams 0x12 packet_in

-- PATH_CHALLENGE and PATH_RESPONSE: the type and 8 bytes, of at least so many given.
pub gen_path_challenge_frame : PacketOut → List ℕ → Generated
gen_path_challenge_frame packet_out bytes =
    within (vint_size 0x1a + path_challenge_data_len) packet_out (
      ok
        (vint_bytes 0x1a ++ take path_challenge_data_len bytes, mark_out path_challenge packet_out))

pub gen_path_response_frame : PacketOut → List ℕ → Generated
gen_path_response_frame packet_out bytes =
    within (vint_size 0x1b + path_challenge_data_len) packet_out (
      ok (vint_bytes 0x1b ++ take path_challenge_data_len bytes, mark_out path_response packet_out))

pub parse_path : FrameType → PacketIn → Result (List ℕ × PacketIn)
parse_path type packet_in =
    let p = drop 1 packet_in.unread in
    if ltb (length p) path_challenge_data_len
    then err evintread
    else ok
        (take path_challenge_data_len p, advance type (drop path_challenge_data_len p) packet_in)

pub parse_path_challenge_frame : PacketIn → Result (List ℕ × PacketIn)
parse_path_challenge_frame packet_in = parse_path path_challenge packet_in

pub parse_path_response_frame : PacketIn → Result (List ℕ × PacketIn)
parse_path_response_frame packet_in = parse_path path_response packet_in

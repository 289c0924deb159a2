-- ===== src/TransportParams/RoundTrip.antt =====
-- `rqc_decode_transport_params` returns the parameters that `rqc_encode_transport_params` was given.
use native.Mathlib.Nat.{le_refl}
use rquic.Base.{ℕ, ◌+◌, ◌^◌, ◌≤◌, ◌<◌, ◌≡◌, refl, arith}
use rquic.Base.{◌*◌, ◌-◌, List, [], ◌∷◌, ◌++◌, append-nil, some, Bool-cases, inl, inr}
use rquic.Base.{length, length-append, All, ◌==◌, if◌then◌else◌, le→ltb, ==_self}
use rquic.Vint.{put_varint_len}
use rquic.Vint.Write.{put_varint_len-le, put_varint_len_small}
use rquic.TransportParams.{
  TransportParams, Entry, ok, at, encoded, entries, entries_len, finish, put_varint_param,
}
use rquic.TransportParams.{max_datagram_frame_size_id, max_ack_delay_exponent, defaults}
use rquic.TransportParams.{
  transport_params_calc_length, encode_transport_params, decode_transport_params,
}
use rquic.TransportParams.Codec.{put_varint_param-bytes, length-param_bytes}
use rquic.TransportParams.Entries.{
  Writable, entries_bytes, length-entries_bytes, put_entries-bytes, decode_loop-entries,
}
use rquic.TransportParams.Entries.{
  datagram_bytes, datagram_bytes-IsByte, decode_loop-datagram, store_entries-entries,
}

-- Every value fits a variable-length integer, and the exponent is one that a peer accepts.
pub record IsValid (params : TransportParams) : Type 0 where
  pub idle : params.max_idle_timeout < 2 ^ 62
  pub udp : params.max_udp_payload_size < 2 ^ 62
  pub datagram : params.max_datagram_frame_size < 2 ^ 62
  pub max_data : params.initial_max_data < 2 ^ 62
  pub bidi_local : params.initial_max_stream_data_bidi_local < 2 ^ 62
  pub bidi_remote : params.initial_max_stream_data_bidi_remote < 2 ^ 62
  pub uni : params.initial_max_stream_data_uni < 2 ^ 62
  pub streams_bidi : params.initial_max_streams_bidi < 2 ^ 62
  pub streams_uni : params.initial_max_streams_uni < 2 ^ 62
  pub exponent : params.ack_delay_exponent ≤ max_ack_delay_exponent
  pub ack_delay : params.max_ack_delay < 2 ^ 62

entries-Writable : (params : TransportParams) → IsValid params → All Writable (entries params)
unfolding entries
entries-Writable params v = omega arith

pub params_bytes : TransportParams → List ℕ
params_bytes params =
    entries_bytes (entries params) ++ datagram_bytes params.max_datagram_frame_size

length-datagram_bytes :
    (v : ℕ)
    → length (datagram_bytes v) ≡ (if v == 0 then 0 else put_varint_len 0x20 + 1 + put_varint_len v)
unfolding datagram_bytes
length-datagram_bytes v = elim (Bool-cases (v == 0)) [
  | inl e ↦ rw e refl
  | inr e ↦ rw e (
      omega (
        arith,
        length-param_bytes 32 v,
        put_varint_len_small (put_varint_len v),
        put_varint_len-le v,
      ))
]

length-params_bytes :
    (params : TransportParams)
    → IsValid params
    → length (params_bytes params) ≡ transport_params_calc_length params
unfolding params_bytes transport_params_calc_length
length-params_bytes params v = omega (
  arith,
  length-append (entries_bytes (entries params)) (datagram_bytes params.max_datagram_frame_size),
  length-entries_bytes (entries params) (entries-Writable params v),
  length-datagram_bytes params.max_datagram_frame_size,
)

put_datagram :
    (w : List ℕ) (v : ℕ)
    → v < 2 ^ 62
    → (if v == 0 then some (at w) else put_varint_param (at w) max_datagram_frame_size_id v)
      ≡ some (at (w ++ datagram_bytes v))
unfolding datagram_bytes
put_datagram w v h = elim (Bool-cases (v == 0)) [
  | inl e ↦ rw (e, append-nil)
  | inr e ↦ rw e (put_varint_param-bytes w 32 v (omega arith) h)
]

encode-params_bytes :
    (params : TransportParams) (out_cap : ℕ)
    → IsValid params
    → transport_params_calc_length params ≤ out_cap
    → encode_transport_params params out_cap ≡ encoded (params_bytes params)
unfolding encode_transport_params finish params_bytes
encode-params_bytes params out_cap v room =
    rw
      (
        le→ltb (2 ^ 62 - 1) params.max_datagram_frame_size (omega arith),
        le→ltb out_cap (transport_params_calc_length params) room,
        put_entries-bytes [] (entries params) (entries-Writable params v),
      )
      (rw (put_datagram (entries_bytes (entries params)) params.max_datagram_frame_size v.datagram)
        (rw (length-params_bytes params v, ==_self) refl))

decode-params_bytes :
    (params : TransportParams)
    → IsValid params
    → decode_transport_params (params_bytes params) ≡ ok params
unfolding decode_transport_params params_bytes
decode-params_bytes params v =
    decode_loop-entries (entries params) _ defaults params (datagram_bytes size)
      (entries-Writable params v) (datagram_bytes-IsByte size) (le_refl _)
      (λ fuel enough. rw (store_entries-entries params) (
        decode_loop-datagram size fuel (record params { max_datagram_frame_size = 0 }) v.datagram
          refl enough))
  where
    size : ℕ
    size = params.max_datagram_frame_size

-- For valid parameters and a buffer that holds the length computed beforehand,
-- `rqc_encode_transport_params` succeeds, writes exactly that many bytes, and
-- `rqc_decode_transport_params` returns the parameters from them, defaults included.
pub decode-encode_transport_params :
    (params : TransportParams) (out_cap : ℕ)
    → IsValid params
    → transport_params_calc_length params ≤ out_cap
    → (out : List ℕ) × (encode_transport_params params out_cap ≡ encoded out)
      × (length out ≡ transport_params_calc_length params)
      × (decode_transport_params out ≡ ok params)
decode-encode_transport_params params out_cap v room = (
  params_bytes params,
  encode-params_bytes params out_cap v room,
  length-params_bytes params v,
  decode-params_bytes params v,
)

entries_len_bound : (es : List Entry) → All Writable es → entries_len es ≤ 10 * length es
unfolding entries_len
entries_len_bound [] h = omega arith
entries_len_bound (e ∷ es) h = ground (
  arith,
  entries_len_bound es h.1,
  put_varint_len_small e.id (omega arith),
  put_varint_len_small (put_varint_len e.value),
  put_varint_len-le e.value,
)

-- RQC_MAX_TRANSPORT_PARAM_BUF_LEN
abbrev pub max_transport_param_buf_len : ℕ
max_transport_param_buf_len = 256

-- Valid parameters always fit the buffer of RQC_MAX_TRANSPORT_PARAM_BUF_LEN bytes that the library
-- encodes them into: they take 110 bytes at most, and the encoder succeeds.
pub encode_transport_params_fits :
    (params : TransportParams)
    → IsValid params
    → (transport_params_calc_length params ≤ 110)
      × (encode_transport_params params max_transport_param_buf_len ≡ encoded (params_bytes params))
encode_transport_params_fits params v =
    (short, encode-params_bytes params max_transport_param_buf_len v (omega (arith, short)))
  where
    short : transport_params_calc_length params ≤ 110
    short =
        unfold transport_params_calc_length entries in
        ground (
          arith,
          entries_len_bound (entries params) (entries-Writable params v),
          put_varint_len_small 32 (omega arith),
          put_varint_len-le params.max_datagram_frame_size,
        )

-- ===== src/TransportParams.antt =====
-- src/transport/rqc_transport_params.c and .h: the transport parameters of a handshake, as a list
-- of (id, length, value) entries. Buffers are lists of bytes; a pointer `p` with its `end` is the
-- list of the bytes between them.
pub mod Codec
pub mod Entries
pub mod RoundTrip
pub mod Decode
mod Tests
use rquic.Base.{
  ℕ, zero, suc, ◌+◌, ◌-◌, ◌^◌, Bool, true, false, ◌&&◌, ◌||◌, not, List, [], ◌∷◌, ◌++◌,
}
use rquic.Base.{Option, none, some, ltb, leb, ◌==◌, if◌then◌else◌, length, take, drop}
use rquic.Vint.{vint_read, put_varint, put_varint_len}

-- rqc_transport_params_t
pub record TransportParams : Type 0 where
  pub max_idle_timeout : ℕ
  pub max_udp_payload_size : ℕ
  pub max_datagram_frame_size : ℕ
  pub initial_max_data : ℕ
  pub initial_max_stream_data_bidi_local : ℕ
  pub initial_max_stream_data_bidi_remote : ℕ
  pub initial_max_stream_data_uni : ℕ
  pub initial_max_streams_bidi : ℕ
  pub initial_max_streams_uni : ℕ
  pub ack_delay_exponent : ℕ
  pub max_ack_delay : ℕ

abbrev pub default_max_ack_delay : ℕ
default_max_ack_delay = 25

abbrev pub default_ack_delay_exponent : ℕ
default_ack_delay_exponent = 3

abbrev pub default_max_udp_payload_size : ℕ
default_max_udp_payload_size = 1500

-- RQC_MAX_ACK_DELAY_EXPONENT
abbrev pub max_ack_delay_exponent : ℕ
max_ack_delay_exponent = 20

-- RQC_TRANSPORT_PARAM_MAX_DATAGRAM_FRAME_SIZE; the ids of the ten other parameters are 0 to 9.
abbrev pub max_datagram_frame_size_id : ℕ
max_datagram_frame_size_id = 0x20

-- The parameters before anything is decoded.
abbrev pub defaults : TransportParams
defaults = record {
  max_idle_timeout = 0;
  max_udp_payload_size = default_max_udp_payload_size;
  max_datagram_frame_size = 0;
  initial_max_data = 0;
  initial_max_stream_data_bidi_local = 0;
  initial_max_stream_data_bidi_remote = 0;
  initial_max_stream_data_uni = 0;
  initial_max_streams_bidi = 0;
  initial_max_streams_uni = 0;
  ack_delay_exponent = default_ack_delay_exponent;
  max_ack_delay = default_max_ack_delay;
}

-- RQC_EILLTP and RQC_ENOBUF
pub data Error : Type 0 where
  illtp nobuf : Error

-- What the decoder returns. `stuck` is no value of the program: the loop ran out of fuel.
pub data Result {ℓ} (A : Type ℓ) : Type ℓ where
  ok : A → Result A
  err : Error → Result A
  stuck : Result A

infixl 5 ◌>>=◌
abbrev pub ◌>>=◌ {ℓ κ} : {A : Type ℓ} {B : Type κ} → Result A → (A → Result B) → Result B
ok a >>= f = f a
err e >>= f = err e
stuck >>= f = stuck

-- The ten parameters that are written by one pattern: whether one is written, its id, its value.
pub record Entry : Type 0 where
  pub present : Bool
  pub id : ℕ
  pub value : ℕ

abbrev pub entry : Bool → ℕ → ℕ → Entry
entry present id value = record { present = present; id = id; value = value }

-- The tests and values of `rqc_encode_transport_params` and of the length before it, in their order.
pub entries : TransportParams → List Entry
entries params =
    entry (not (params.max_idle_timeout == 0)) 0 params.max_idle_timeout
    ∷ entry (not (params.max_udp_payload_size == default_max_udp_payload_size)) 1
        params.max_udp_payload_size
    ∷ entry (not (params.initial_max_data == 0)) 2 params.initial_max_data
    ∷ entry (not (params.initial_max_stream_data_bidi_local == 0)) 3
        params.initial_max_stream_data_bidi_local
    ∷ entry (not (params.initial_max_stream_data_bidi_remote == 0)) 4
        params.initial_max_stream_data_bidi_remote
    ∷ entry (not (params.initial_max_stream_data_uni == 0)) 5 params.initial_max_stream_data_uni
    ∷ entry (not (params.initial_max_streams_bidi == 0)) 6 params.initial_max_streams_bidi
    ∷ entry (not (params.initial_max_streams_uni == 0)) 7 params.initial_max_streams_uni
    ∷ entry (not (params.ack_delay_exponent == default_ack_delay_exponent)) 8
        params.ack_delay_exponent
    ∷ entry (not (params.max_ack_delay == default_max_ack_delay)) 9 params.max_ack_delay
    ∷ []

pub entries_len : List Entry → ℕ
entries_len [] = 0
entries_len (e ∷ es) =
    (if e.present
      then put_varint_len e.id + put_varint_len (put_varint_len e.value) + put_varint_len e.value
      else 0)
    + entries_len es

-- `rqc_transport_params_calc_length`. The datagram entry has a summand of its own.
pub transport_params_calc_length : TransportParams → ℕ
transport_params_calc_length params =
    entries_len (entries params)
    + (if params.max_datagram_frame_size == 0
        then 0
        else put_varint_len 0x20 + 1 + put_varint_len params.max_datagram_frame_size)

-- The pointer `p` of the encoder: behind the bytes written from `out` on, or NULL.
pub data Pointer : Type 0 where
  at : List ℕ → Pointer
  null : Pointer

-- `p = rqc_put_varint(p, n)`; `none` is a write through NULL, which C leaves undefined.
pub put : Pointer → ℕ → Option Pointer
put (at written) n = elim (put_varint n) [ none ↦ some null | some bs ↦ some (at (written ++ bs)) ]
put null n = none

infixl 5 ◌>>=?◌
abbrev pub ◌>>=?◌ : Option Pointer → (Pointer → Option Pointer) → Option Pointer
none >>=? f = none
some p >>=? f = f p

-- rqc_put_varint_param
pub put_varint_param : Pointer → ℕ → ℕ → Option Pointer
unfolding put
put_varint_param p id v = put p id >>=? λ p₁. put p₁ (put_varint_len v) >>=? λ p₂. put p₂ v

pub put_entries : Pointer → List Entry → Option Pointer
unfolding put_varint_param
put_entries p [] = some p
put_entries p (e ∷ es) =
    (if e.present then put_varint_param p e.id e.value else some p) >>=? λ q. put_entries q es

-- What the encoder returns; `fault` is undefined behaviour.
pub data Encoded : Type 0 where
  encoded : List ℕ → Encoded
  failed : Error → Encoded
  fault : Encoded

-- `(size_t)(p - out) != len`; NULL is no address of the buffer.
pub finish : ℕ → Option Pointer → Encoded
finish len none = fault
finish len (some null) = failed illtp
finish len (some (at written)) = if length written == len then encoded written else failed illtp

pub encode_transport_params : TransportParams → ℕ → Encoded
encode_transport_params params out_cap =
    if ltb (2 ^ 62 - 1) params.max_datagram_frame_size
    then failed illtp
    else if ltb out_cap (transport_params_calc_length params)
    then failed nobuf
    else finish (transport_params_calc_length params) (
        put_entries (at []) (entries params) >>=? λ p.
        if params.max_datagram_frame_size == 0
        then some p
        else put_varint_param p max_datagram_frame_size_id params.max_datagram_frame_size)

-- `rqc_trans_param_get_index`; `none` is RQC_TP_DECODER_UNKNOWN.
pub trans_param_get_index : ℕ → Option ℕ
trans_param_get_index param_type = if leb param_type 9 then some param_type else none

-- The field that decoder `index` of `rqc_trans_param_decode_func_list` stores into.
pub store_param : ℕ → ℕ → TransportParams → TransportParams
store_param index v params =
    if index == 0
    then record params { max_idle_timeout = v }
    else if index == 1
    then record params { max_udp_payload_size = v }
    else if index == 2
    then record params { initial_max_data = v }
    else if index == 3
    then record params { initial_max_stream_data_bidi_local = v }
    else if index == 4
    then record params { initial_max_stream_data_bidi_remote = v }
    else if index == 5
    then record params { initial_max_stream_data_uni = v }
    else if index == 6
    then record params { initial_max_streams_bidi = v }
    else if index == 7
    then record params { initial_max_streams_uni = v }
    else if index == 8
    then record params { ack_delay_exponent = v }
    else record params { max_ack_delay = v }

-- The decoders themselves: each reads up to the end of the input, not of its parameter.
pub trans_param_decode : ℕ → TransportParams → List ℕ → Result TransportParams
unfolding store_param
trans_param_decode index params p = elim (vint_read p) [
  | none ↦ err illtp
  | some (_, v) ↦
      if index == 8 && ltb max_ack_delay_exponent v
      then err illtp
      else ok (store_param index v params)
]

-- The datagram parameter is read inside its boundary, and only once.
pub decode_datagram_size : TransportParams → List ℕ → ℕ → Result TransportParams
decode_datagram_size params p param_len = elim (vint_read (take param_len p)) [
  | none ↦ err illtp
  | some (n, value) ↦
      if not (n == param_len) || not (params.max_datagram_frame_size == 0)
      then err illtp
      else ok (record params { max_datagram_frame_size = value })
]

decode_known : ℕ → TransportParams → List ℕ → Result TransportParams
unfolding trans_param_get_index trans_param_decode
decode_known param_type params p = elim (trans_param_get_index param_type) [
  | none ↦ ok params
  | some index ↦ trans_param_decode index params p
]

-- A read of the type or of the length: the value, and `p` behind it.
read_vint : List ℕ → Result (ℕ × List ℕ)
read_vint p = elim (vint_read p) [ none ↦ err illtp | some (n, v) ↦ ok (v, drop n p) ]

-- `rqc_decode_one_transport_param`: the parameters and the new `*start`.
pub decode_one_transport_param : TransportParams → List ℕ → Result (TransportParams × List ℕ)
unfolding read_vint decode_datagram_size decode_known
decode_one_transport_param params start = do
  (param_type, p) ← read_vint start
  (param_len, p) ← read_vint p
  if ltb (length p) param_len then err illtp else do
    params ←
        (if param_type == max_datagram_frame_size_id
          then decode_datagram_size params p param_len
          else ok params)
    params ← decode_known param_type params p
    ok (params, drop param_len p)

-- The loop of `rqc_decode_transport_params`; every round takes two bytes at least.
pub decode_loop : ℕ → Bool → TransportParams → List ℕ → Result TransportParams
decode_loop fuel seen params [] = ok params
decode_loop zero seen params (b ∷ p) = stuck
decode_loop (suc fuel) seen params (b ∷ p) = elim (vint_read (b ∷ p)) [
  | none ↦ err illtp
  | some (_, type) ↦
      let is_datagram = type == max_datagram_frame_size_id in
      if is_datagram && seen
      then err illtp
      else (decode_one_transport_param params (b ∷ p) >>= λ r.
          decode_loop fuel (is_datagram || seen) r.0 r.1)
]

-- `rqc_decode_transport_params`: the defaults, then the loop. It ends at `p == end`.
pub decode_transport_params : List ℕ → Result TransportParams
decode_transport_params input = decode_loop (length input) false defaults input

-- rqc_init_transport_params
pub init_transport_params : TransportParams
init_transport_params = defaults

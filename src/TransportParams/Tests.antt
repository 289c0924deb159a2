-- ===== src/TransportParams/Tests.antt =====
-- Runs of the transport parameters, and their theorems at concrete inputs.
use rquic.Base.{ℕ, ◌≤◌, ◌≡◌, refl, arith, List, [], ◌∷◌, length}
use rquic.Vint.{vint_read, put_varint, put_varint_len}
use rquic.TransportParams.{
  TransportParams, defaults, entries, entries_len, encoded, ok, err, illtp, put_entries, finish,
}
use rquic.TransportParams.{
  transport_params_calc_length, encode_transport_params, decode_transport_params,
}
use rquic.TransportParams.{decode_loop, decode_one_transport_param, max_ack_delay_exponent}
use rquic.TransportParams.RoundTrip.{
  IsValid, decode-encode_transport_params, encode_transport_params_fits,
}
use rquic.TransportParams.RoundTrip.{params_bytes, max_transport_param_buf_len}
use rquic.TransportParams.Decode.{Returns, decode_transport_params-Returns}

abbrev params : TransportParams
params = record defaults { max_idle_timeout = 30000; max_datagram_frame_size = 1200 }

params-IsValid : IsValid params
params-IsValid = omega arith

abbrev params_encoded : List ℕ
params_encoded = 0 ∷ 4 ∷ 0x80 ∷ 0 ∷ 0x75 ∷ 0x30 ∷ 0x20 ∷ 2 ∷ 0x44 ∷ 0xb0 ∷ []

encode_run : encode_transport_params params 256 ≡ encoded params_encoded
unfolding encode_transport_params transport_params_calc_length entries entries_len put_entries
    finish put_varint put_varint_len
encode_run = refl

decode_run : decode_transport_params params_encoded ≡ ok params
unfolding decode_transport_params decode_loop decode_one_transport_param vint_read
decode_run = refl

-- The exponent 21 is refused.
decode_exponent : decode_transport_params (8 ∷ 1 ∷ 21 ∷ []) ≡ err illtp
unfolding decode_transport_params decode_loop decode_one_transport_param vint_read
decode_exponent = refl

-- A value is read past the end of its parameter: the entry says one byte, the value takes two.
decode_past_entry :
    decode_transport_params (2 ∷ 1 ∷ 0x40 ∷ 0x21 ∷ 0 ∷ [])
    ≡ ok (record defaults { initial_max_data = 33 })
unfolding decode_transport_params decode_loop decode_one_transport_param vint_read
decode_past_entry = refl

decode-encode_transport_params_example :
    (out : List ℕ) × (encode_transport_params params 256 ≡ encoded out)
    × (length out ≡ transport_params_calc_length params)
    × (decode_transport_params out ≡ ok params)
unfolding transport_params_calc_length entries entries_len put_varint_len
decode-encode_transport_params_example =
    decode-encode_transport_params params 256 params-IsValid (omega arith)

encode_transport_params_fits_example :
    (transport_params_calc_length params ≤ 110)
    × (encode_transport_params params max_transport_param_buf_len ≡ encoded (params_bytes params))
encode_transport_params_fits_example = encode_transport_params_fits params params-IsValid

decode_transport_params-Returns_example :
    Returns
      (λ p. p.ack_delay_exponent ≤ max_ack_delay_exponent)
      (decode_transport_params (8 ∷ 1 ∷ 20 ∷ []))
decode_transport_params-Returns_example = decode_transport_params-Returns (8 ∷ 1 ∷ 20 ∷ [])

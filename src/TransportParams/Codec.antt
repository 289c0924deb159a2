-- ===== src/TransportParams/Codec.antt =====
-- One entry of the transport parameters: what the encoder writes, and what the decoder makes of it.
use rquic.Base.{ℕ, ◌+◌, ◌^◌, ◌≤◌, ◌<◌, ◌≡◌, refl, sym, ap, ◌∙◌, arith}
use rquic.Base.{false, List, [], ◌++◌, append_assoc, append-nil, some}
use rquic.Base.{
  length, length-append, take, drop, take-append, drop-append, All, All-append, ltb, le→ltb, ne→==,
}
use rquic.Vint.{IsByte, vint_read, put_varint_len, vint_get_2bit}
use rquic.Vint.Write.{encode_as, encode_as-IsByte, length-encode_as, vint_read-encode_as}
use rquic.Vint.Write.{
  vint_get_2bit-Fits, put_varint-encode_as, put_varint_len-vint_len, put_varint_len-le,
}
use rquic.TransportParams.{TransportParams, ok, at, put, put_varint_param}
use rquic.TransportParams.{
  max_datagram_frame_size_id, max_ack_delay_exponent, store_param, read_vint,
}
use rquic.TransportParams.{
  trans_param_get_index, trans_param_decode, decode_datagram_size, decode_one_transport_param,
  decode_known,
}

-- The encoding of one number.
pub varint : ℕ → List ℕ
varint n = encode_as (vint_get_2bit n) n

-- The encoding of a parameter.
pub param_bytes : ℕ → ℕ → List ℕ
unfolding varint
param_bytes id v = varint id ++ (varint (put_varint_len v) ++ varint v)

pub length-varint : (n : ℕ) → length (varint n) ≡ put_varint_len n
unfolding varint
length-varint n = length-encode_as _ n ∙ sym (put_varint_len-vint_len n)

pub varint-IsByte : (n : ℕ) → All IsByte (varint n)
unfolding varint
varint-IsByte n = encode_as-IsByte _ n

pub vint_read-varint :
    (n : ℕ) (rest : List ℕ)
    → n < 2 ^ 62
    → All IsByte rest
    → vint_read (varint n ++ rest) ≡ some (put_varint_len n, n)
unfolding varint
vint_read-varint n rest h bytes =
    vint_read-encode_as _ n rest (vint_get_2bit-Fits n h) bytes
    ∙ ap (λ (k : ℕ). some (k, n)) (sym (put_varint_len-vint_len n))

read_vint-varint :
    (n : ℕ) (rest : List ℕ)
    → n < 2 ^ 62
    → All IsByte rest
    → read_vint (varint n ++ rest) ≡ ok (n, rest)
unfolding read_vint
read_vint-varint n rest h bytes =
    rw (vint_read-varint n rest h bytes, read_vint)
      (ap (λ r. ok (n, r))
        (ap (λ k. drop k (varint n ++ rest)) (sym (length-varint n)) ∙ drop-append (varint n) rest))

put-varint : (w : List ℕ) (n : ℕ) → n < 2 ^ 62 → put (at w) n ≡ some (at (w ++ varint n))
unfolding put varint
put-varint w n h = rw (put_varint-encode_as n h, put)

pub put_varint_param-bytes :
    (w : List ℕ) (id v : ℕ)
    → id < 64
    → v < 2 ^ 62
    → put_varint_param (at w) id v ≡ some (at (w ++ param_bytes id v))
unfolding put_varint_param param_bytes
put_varint_param-bytes w id v hid hv =
    rw
      (
        put-varint w id (omega arith),
        put-varint (w ++ varint id) (put_varint_len v) (omega (arith, put_varint_len-le v)),
        put-varint _ v hv,
      )
      (simp append_assoc)

pub param_bytes-IsByte : (id v : ℕ) → All IsByte (param_bytes id v)
unfolding param_bytes
param_bytes-IsByte id v =
    All-append IsByte _ _ (varint-IsByte id)
      (All-append IsByte _ _ (varint-IsByte (put_varint_len v)) (varint-IsByte v))

-- A decoder that is given the value in front of `rest` stores it.
decode-varint :
    (id v : ℕ) (params : TransportParams) (rest : List ℕ)
    → id ≤ 9
    → v < 2 ^ 62
    → (id ≡ 8 → v ≤ max_ack_delay_exponent)
    → All IsByte rest
    → decode_known id params (varint v ++ rest) ≡ ok (store_param id v params)
unfolding decode_known trans_param_get_index trans_param_decode
decode-varint id v params rest hid hv h8 bytes =
    ground (arith, vint_read-varint v rest hv bytes, h8)

-- The two reads in front of a value.
read_header :
    (id v : ℕ) (rest : List ℕ)
    → id < 64
    → v < 2 ^ 62
    → All IsByte rest
    → (read_vint (param_bytes id v ++ rest)
        ≡ ok (id, varint (put_varint_len v) ++ (varint v ++ rest)))
      × (read_vint (varint (put_varint_len v) ++ (varint v ++ rest))
          ≡ ok (put_varint_len v, varint v ++ rest))
unfolding param_bytes
read_header id v rest hid hv bytes = (
  ap read_vint (simp append_assoc)
      ∙ read_vint-varint id (varint (put_varint_len v) ++ (varint v ++ rest)) (omega arith)
          (All-append IsByte _ _ (varint-IsByte (put_varint_len v)) value),
  read_vint-varint (put_varint_len v) (varint v ++ rest) (omega (arith, put_varint_len-le v)) value,
)
  where
    value : All IsByte (varint v ++ rest)
    value = All-append IsByte (varint v) rest (varint-IsByte v) bytes

drop-varint : (v : ℕ) (rest : List ℕ) → drop (put_varint_len v) (varint v ++ rest) ≡ rest
drop-varint v rest =
    ap (λ k. drop k (varint v ++ rest)) (sym (length-varint v)) ∙ drop-append (varint v) rest

take-varint : (v : ℕ) (rest : List ℕ) → take (put_varint_len v) (varint v ++ rest) ≡ varint v
take-varint v rest =
    ap (λ k. take k (varint v ++ rest)) (sym (length-varint v)) ∙ take-append (varint v) rest

enough : (v : ℕ) (rest : List ℕ) → ltb (length (varint v ++ rest)) (put_varint_len v) ≡ false
enough v rest = le→ltb _ _ (omega (arith, length-varint v, length-append (varint v) rest))

-- Decoding one of the ten parameters stores its value and stops behind it.
pub decode_one-param :
    (id v : ℕ) (params : TransportParams) (rest : List ℕ)
    → id ≤ 9
    → v < 2 ^ 62
    → (id ≡ 8 → v ≤ max_ack_delay_exponent)
    → All IsByte rest
    → decode_one_transport_param params (param_bytes id v ++ rest)
      ≡ ok (store_param id v params, rest)
unfolding decode_one_transport_param
decode_one-param id v params rest hid hv h8 bytes =
    let head = read_header id v rest (omega arith) hv bytes in
    rw (head.0) (
      rw (head.1) (
        rw
          (
            enough v rest,
            ne→== id 32 (omega arith),
            decode-varint id v params rest hid hv h8 bytes,
            drop-varint v rest,
          )
          refl))

datagram-varint :
    (v : ℕ) (params : TransportParams) (rest : List ℕ)
    → v < 2 ^ 62
    → params.max_datagram_frame_size ≡ 0
    → decode_datagram_size params (varint v ++ rest) (put_varint_len v)
      ≡ ok (record params { max_datagram_frame_size = v })
unfolding decode_datagram_size
datagram-varint v params rest hv fresh = ground (arith, ap vint_read (take-varint v rest), whole)
  where
    whole : vint_read (varint v) ≡ some (put_varint_len v, v)
    whole = ap vint_read (sym (append-nil (varint v))) ∙ vint_read-varint v [] hv tt

-- Decoding the datagram parameter, the first time.
pub decode_one-datagram :
    (v : ℕ) (params : TransportParams) (rest : List ℕ)
    → v < 2 ^ 62
    → params.max_datagram_frame_size ≡ 0
    → All IsByte rest
    → decode_one_transport_param params (param_bytes max_datagram_frame_size_id v ++ rest)
      ≡ ok (record params { max_datagram_frame_size = v }, rest)
unfolding decode_one_transport_param
decode_one-datagram v params rest hv fresh bytes =
    let head = read_header 32 v rest (omega arith) hv bytes in
    rw (head.0) (
      rw (head.1)
        (rw (enough v rest, datagram-varint v params rest hv fresh) (rw (drop-varint v rest) refl)))

-- The id is what the loop reads first.
pub vint_read-param :
    (id v : ℕ) (rest : List ℕ)
    → id < 64
    → All IsByte rest
    → vint_read (param_bytes id v ++ rest) ≡ some (put_varint_len id, id)
unfolding param_bytes
vint_read-param id v rest hid bytes =
    ap vint_read (simp append_assoc)
    ∙ vint_read-varint id ((varint (put_varint_len v) ++ varint v) ++ rest) (omega arith) (
        All-append IsByte _ rest
          (All-append IsByte _ _ (varint-IsByte (put_varint_len v)) (varint-IsByte v)) bytes)

pub length-param_bytes :
    (id v : ℕ)
    → length (param_bytes id v)
      ≡ put_varint_len id + (put_varint_len (put_varint_len v) + put_varint_len v)
unfolding param_bytes
length-param_bytes id v = omega (
  arith,
  length-append (varint id) (varint (put_varint_len v) ++ varint v),
  length-append (varint (put_varint_len v)) (varint v),
  length-varint id,
  length-varint v,
  length-varint (put_varint_len v),
)

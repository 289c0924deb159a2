-- ===== src/TransportParams/Entries.antt =====
-- The entries of the transport parameters, one after the other: encoding and decoding them.
use rquic.Base.{ℕ, zero, suc, ◌^◌, ◌≤◌, ◌<◌, ◌≡◌, refl, sym, ap, ◌∙◌, arith}
use rquic.Base.{
  Bool, true, false, List, [], ◌∷◌, ◌++◌, append_assoc, append-nil, some, Bool-cases, inl, inr,
  ◌&&◌, ◌||◌, not,
}
use rquic.Base.{length, length-append, All, All-append, ◌==◌, if◌then◌else◌, ne→==, ==_iff}
use rquic.Vint.{IsByte, vint_read, put_varint_len}
use rquic.Vint.Read.{vint_read-nil}
use rquic.Vint.Write.{put_varint_len-le}
use rquic.TransportParams.{TransportParams, ok, at}
use rquic.TransportParams.{Entry, entry, entries, entries_len, put_entries}
use rquic.TransportParams.{
  max_datagram_frame_size_id, max_ack_delay_exponent, store_param, defaults,
}
use rquic.TransportParams.{
  default_max_ack_delay, default_ack_delay_exponent, default_max_udp_payload_size,
}
use rquic.TransportParams.{decode_one_transport_param, decode_loop}
use rquic.TransportParams.Codec.{
  param_bytes, param_bytes-IsByte, put_varint_param-bytes, vint_read-param,
}
use rquic.TransportParams.Codec.{decode_one-param, decode_one-datagram, length-param_bytes}

-- An entry that the encoder can write and the decoder accepts.
abbrev pub Writable : Entry → Type 0
Writable e = (e.id ≤ 9) × (e.value < 2 ^ 62) × (e.id ≡ 8 → e.value ≤ max_ack_delay_exponent)

pub entries_bytes : List Entry → List ℕ
entries_bytes [] = []
entries_bytes (e ∷ es) = (if e.present then param_bytes e.id e.value else []) ++ entries_bytes es

entries_bytes-IsByte : (es : List Entry) → All IsByte (entries_bytes es)
unfolding entries_bytes
entries_bytes-IsByte [] = tt
entries_bytes-IsByte (e ∷ es) = elim (Bool-cases e.present) [
  | inl p ↦ rw p (All-append IsByte _ _ (param_bytes-IsByte e.id e.value) (entries_bytes-IsByte es))
  | inr p ↦ rw p (entries_bytes-IsByte es)
]

pub length-entries_bytes :
    (es : List Entry) → All Writable es → length (entries_bytes es) ≡ entries_len es
unfolding entries_bytes entries_len
length-entries_bytes [] h = refl
length-entries_bytes (e ∷ es) h = elim (Bool-cases e.present) [
  | inl p ↦ rw p (
      omega (
        arith,
        length-append (param_bytes e.id e.value) (entries_bytes es),
        length-param_bytes e.id e.value,
        length-entries_bytes es h.1,
      ))
  | inr p ↦ rw p (omega (arith, length-entries_bytes es h.1))
]

pub put_entries-bytes :
    (w : List ℕ) (es : List Entry)
    → All Writable es
    → put_entries (at w) es ≡ some (at (w ++ entries_bytes es))
unfolding put_entries entries_bytes
put_entries-bytes w [] h = rw append-nil
put_entries-bytes w (e ∷ es) h = elim (Bool-cases e.present) [
  | inl p ↦
      rw (p, put_varint_param-bytes w e.id e.value (omega arith) h.0.1)
        (put_entries-bytes (w ++ param_bytes e.id e.value) es h.1 ∙ simp append_assoc)
  | inr p ↦ rw p (put_entries-bytes w es h.1)
]

-- What the decoder stores for the entries that are present.
pub store_entries : List Entry → TransportParams → TransportParams
store_entries [] params = params
store_entries (e ∷ es) params =
    store_entries es (if e.present then store_param e.id e.value params else params)

decode_loop_step :
    (fuel : ℕ) (seen : Bool) (params params' : TransportParams) (p rest : List ℕ) (n type : ℕ)
    → vint_read p ≡ some (n, type)
    → decode_one_transport_param params p ≡ ok (params', rest)
    → ((type == max_datagram_frame_size_id) && seen) ≡ false
    → decode_loop (suc fuel) seen params p
      ≡ decode_loop fuel ((type == max_datagram_frame_size_id) || seen) params' rest
unfolding decode_loop
decode_loop_step fuel seen params params' [] rest n type e d s = cc (e, vint_read-nil)
decode_loop_step fuel seen params params' (b ∷ p) rest n type e d s =
    rw (e, decode_loop) (rw s (rw d refl))

-- One entry in front of `tail`.
decode_loop-param :
    (id v fuel : ℕ) (params result : TransportParams) (tail : List ℕ)
    → Writable (entry true id v)
    → All IsByte tail
    → length (param_bytes id v ++ tail) ≤ fuel
    → ((fuel' : ℕ)
        → length tail ≤ fuel'
        → decode_loop fuel' false (store_param id v params) tail ≡ ok result)
    → decode_loop fuel false params (param_bytes id v ++ tail) ≡ ok result
decode_loop-param id v zero params result tail h bytes enough last = absurd (
    omega
      (arith, length-append (param_bytes id v) tail, length-param_bytes id v, put_varint_len-le id))
decode_loop-param id v (suc fuel) params result tail h bytes enough last =
    decode_loop_step fuel false params (store_param id v params) (param_bytes id v ++ tail) tail
      (put_varint_len id) id (vint_read-param id v tail (omega arith) bytes)
      (decode_one-param id v params tail h.0 h.1 h.2 bytes) (rw (ne→== id 32 (omega arith)) refl)
    ∙ rw (ne→== id 32 (omega arith)) (
        last fuel (
          omega (
            arith,
            length-append (param_bytes id v) tail,
            length-param_bytes id v,
            put_varint_len-le id,
          )))

-- Decoding the entries and then `rest` is decoding `rest` with the entries stored.
pub decode_loop-entries :
    (es : List Entry) (fuel : ℕ) (params result : TransportParams) (rest : List ℕ)
    → All Writable es
    → All IsByte rest
    → length (entries_bytes es ++ rest) ≤ fuel
    → ((fuel' : ℕ)
        → length rest ≤ fuel'
        → decode_loop fuel' false (store_entries es params) rest ≡ ok result)
    → decode_loop fuel false params (entries_bytes es ++ rest) ≡ ok result
unfolding entries_bytes store_entries
decode_loop-entries [] fuel params result rest h bytes enough last = last fuel enough
decode_loop-entries (e ∷ es) fuel params result rest h bytes enough last =
    elim (Bool-cases e.present) [
      | inl p ↦ rw p (
          rw append_assoc (
            decode_loop-param e.id e.value fuel params result (entries_bytes es ++ rest) h.0
              (All-append IsByte _ rest (entries_bytes-IsByte es) bytes)
              (rw append_assoc at (rw p at enough))
              (λ fuel' more.
                decode_loop-entries es fuel' (store_param e.id e.value params) result rest h.1 bytes
                  more (rw p at last))))
      | inr p ↦
          rw p (
            decode_loop-entries es fuel params result rest h.1 bytes (rw p at enough)
              (rw p at last))
    ]

-- The datagram parameter stands last, and only where it is not 0.
unfoldable pub datagram_bytes : ℕ → List ℕ
datagram_bytes v = if v == 0 then [] else param_bytes max_datagram_frame_size_id v

pub datagram_bytes-IsByte : (v : ℕ) → All IsByte (datagram_bytes v)
unfolding datagram_bytes
datagram_bytes-IsByte v = elim (Bool-cases (v == 0)) [
  | inl e ↦ rw e tt
  | inr e ↦ rw e (param_bytes-IsByte max_datagram_frame_size_id v)
]

decode_loop-nil :
    (fuel : ℕ) (seen : Bool) (params : TransportParams)
    → decode_loop fuel seen params [] ≡ ok params
unfolding decode_loop
decode_loop-nil zero seen params = refl
decode_loop-nil (suc fuel) seen params = refl

decode_loop-datagram_param :
    (v fuel : ℕ) (params : TransportParams)
    → v < 2 ^ 62
    → params.max_datagram_frame_size ≡ 0
    → length (param_bytes max_datagram_frame_size_id v) ≤ fuel
    → decode_loop fuel false params (param_bytes max_datagram_frame_size_id v ++ [])
      ≡ ok (record params { max_datagram_frame_size = v })
decode_loop-datagram_param v zero params hv fresh enough =
    absurd (omega (arith, length-param_bytes 32 v, put_varint_len-le 32))
decode_loop-datagram_param v (suc fuel) params hv fresh enough =
    decode_loop_step fuel false params (record params { max_datagram_frame_size = v }) _ []
      (put_varint_len 32) 32 (vint_read-param 32 v [] (omega arith) tt)
      (decode_one-datagram v params [] hv fresh tt) refl
    ∙ decode_loop-nil fuel true _

pub decode_loop-datagram :
    (v fuel : ℕ) (params : TransportParams)
    → v < 2 ^ 62
    → params.max_datagram_frame_size ≡ 0
    → length (datagram_bytes v) ≤ fuel
    → decode_loop fuel false params (datagram_bytes v)
      ≡ ok (record params { max_datagram_frame_size = v })
unfolding datagram_bytes
decode_loop-datagram v fuel params hv fresh enough = elim (Bool-cases (v == 0)) [
  | inl e ↦
      let same : params.max_datagram_frame_size ≡ v = omega (arith, fresh, (==_iff v 0).0 e) in
      rw e (
        decode_loop-nil fuel false params ∙ λ i.
        ok (record params { max_datagram_frame_size = same i }))
  | inr e ↦ rw e (
      ap (decode_loop fuel false params) (sym (append-nil _))
      ∙ decode_loop-datagram_param v fuel params hv fresh (rw e at enough))
]

-- An entry that is absent holds the default, so that storing it anyway changes nothing.
store_anyway :
    (id v default : ℕ) (params : TransportParams)
    → store_param id default params ≡ params
    → (if not (v == default) then store_param id v params else params) ≡ store_param id v params
store_anyway id v default params same = elim (Bool-cases (v == default)) [
  | inl e ↦ rw e (sym same ∙ ap (λ (u : ℕ). store_param id u params) (sym ((==_iff v default).0 e)))
  | inr e ↦ rw e refl
]

-- The defaults with all entries stored are the parameters, but for the datagram size.
pub store_entries-entries :
    (params : TransportParams)
    → store_entries (entries params) defaults ≡ record params { max_datagram_frame_size = 0 }
unfolding store_entries entries store_param
store_entries-entries params =
    let p0 : TransportParams = record defaults { max_idle_timeout = params.max_idle_timeout } in
    let p1 : TransportParams = record p0 { max_udp_payload_size = params.max_udp_payload_size } in
    let p2 : TransportParams = record p1 { initial_max_data = params.initial_max_data } in
    let p3 : TransportParams = record p2 {
      initial_max_stream_data_bidi_local = params.initial_max_stream_data_bidi_local;
    } in
    let p4 : TransportParams = record p3 {
      initial_max_stream_data_bidi_remote = params.initial_max_stream_data_bidi_remote;
    } in
    let p5 : TransportParams = record p4 {
      initial_max_stream_data_uni = params.initial_max_stream_data_uni;
    } in
    let p6 : TransportParams = record p5 {
      initial_max_streams_bidi = params.initial_max_streams_bidi;
    } in
    let p7 : TransportParams = record p6 {
      initial_max_streams_uni = params.initial_max_streams_uni;
    } in
    let p8 : TransportParams = record p7 { ack_delay_exponent = params.ack_delay_exponent } in
    rw
      (
        store_anyway 0 params.max_idle_timeout 0 defaults refl,
        store_anyway 1 params.max_udp_payload_size default_max_udp_payload_size p0 refl,
        store_anyway 2 params.initial_max_data 0 p1 refl,
        store_anyway 3 params.initial_max_stream_data_bidi_local 0 p2 refl,
        store_anyway 4 params.initial_max_stream_data_bidi_remote 0 p3 refl,
        store_anyway 5 params.initial_max_stream_data_uni 0 p4 refl,
        store_anyway 6 params.initial_max_streams_bidi 0 p5 refl,
        store_anyway 7 params.initial_max_streams_uni 0 p6 refl,
        store_anyway 8 params.ack_delay_exponent default_ack_delay_exponent p7 refl,
        store_anyway 9 params.max_ack_delay default_max_ack_delay p8 refl,
      )
      refl

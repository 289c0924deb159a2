-- ===== src/TransportParams/Decode.antt =====
-- `rqc_decode_transport_params` on any input: it ends, and what it accepts is within its limits.
use rquic.Base.{ℕ, zero, suc, ◌≤◌, ◌<◌, ◌≡◌, arith}
use rquic.Base.{
  Bool, false, ◌||◌, ◌&&◌, not, List, [], ◌∷◌, some, Option-cases, Bool-cases, inl, inr,
}
use rquic.Base.{length, length-drop, drop, take, ltb, leb, ◌==◌, if◌then◌else◌}
use rquic.Vint.{vint_read}
use rquic.Vint.Read.{vint_read-nil, vint_read_pos}
use rquic.TransportParams.{
  TransportParams, Result, illtp, nobuf, ok, err, stuck, ◌>>=◌, defaults, max_ack_delay_exponent,
}
use rquic.TransportParams.{
  max_datagram_frame_size_id, store_param, read_vint, trans_param_decode, trans_param_get_index,
}
use rquic.TransportParams.{
  decode_datagram_size, decode_known, decode_one_transport_param, decode_loop,
  decode_transport_params,
}

abbrev IsAccepted : TransportParams → Type 0
IsAccepted params = params.ack_delay_exponent ≤ max_ack_delay_exponent

-- An error of the one kind, or a value of which `P` holds.
abbrev pub Returns {ℓ} : {A : Type ℓ} → (A → Type 0) → Result A → Type 0
Returns P (ok a) = P a
Returns P (err illtp) = Unit
Returns P (err nobuf) = ⊥
Returns P stuck = ⊥

store_param-IsAccepted :
    (index v : ℕ) (params : TransportParams)
    → IsAccepted params
    → (index ≡ 8 → v ≤ max_ack_delay_exponent)
    → IsAccepted (store_param index v params)
unfolding store_param
store_param-IsAccepted index v params h h8 = ground (arith, h8)

trans_param_decode-Returns :
    (index : ℕ) (params : TransportParams) (p : List ℕ)
    → IsAccepted params
    → Returns IsAccepted (trans_param_decode index params p)
unfolding trans_param_decode
trans_param_decode-Returns index params p h = elim (Option-cases (vint_read p)) [
  | inl e ↦ rw (e, trans_param_decode, Returns) tt
  | inr ((n, v), e) ↦
      rw (e, trans_param_decode, Returns)
        (elim (Bool-cases (index == 8 && ltb max_ack_delay_exponent v)) [
          | inl over ↦ rw over tt
          | inr fine ↦ rw fine (store_param-IsAccepted index v params h (λ at8. ground arith))
        ])
]

decode_known-Returns :
    (type : ℕ) (params : TransportParams) (p : List ℕ)
    → IsAccepted params
    → Returns IsAccepted (decode_known type params p)
unfolding decode_known trans_param_get_index
decode_known-Returns type params p h = elim (Bool-cases (leb type 9)) [
  | inl e ↦ rw (e, decode_known) (trans_param_decode-Returns type params p h)
  | inr e ↦ rw (e, decode_known) h
]

decode_datagram_size-Returns :
    (params : TransportParams) (p : List ℕ) (len : ℕ)
    → IsAccepted params
    → Returns IsAccepted (decode_datagram_size params p len)
unfolding decode_datagram_size
decode_datagram_size-Returns params p len h = elim (Option-cases (vint_read (take len p))) [
  | inl e ↦ rw (e, decode_datagram_size, Returns) tt
  | inr ((n, v), e) ↦
      rw (e, decode_datagram_size, Returns)
        (elim (Bool-cases (not (n == len) || not (params.max_datagram_frame_size == 0))) [
          | inl bad ↦ rw bad tt
          | inr good ↦ rw good h
        ])
]

-- The rule for a step that goes on.
Returns->>= {ℓ κ} :
    {A : Type ℓ} {B : Type κ} (P : A → Type 0) (Q : B → Type 0) (m : Result A) (f : A → Result B)
    → Returns P m
    → ((a : A) → P a → Returns Q (f a))
    → Returns Q (m >>= f)
Returns->>= P Q (ok a) f h k = k a h
Returns->>= P Q (err illtp) f h k = tt
Returns->>= P Q (err nobuf) f h k = absurd h
Returns->>= P Q stuck f h k = absurd h

read_vint-Returns : (p : List ℕ) → Returns (λ (r : ℕ × List ℕ). length r.1 < length p) (read_vint p)
unfolding read_vint
read_vint-Returns p = elim (Option-cases (vint_read p)) [
  | inl e ↦ rw (e, read_vint, Returns) tt
  | inr ((n, v), e) ↦
      rw (e, read_vint, Returns)
        (omega (arith, length-drop n p, vint_read_pos p n v e, not_empty p e))
]
  where
    not_empty : (p : List ℕ) {n v : ℕ} → vint_read p ≡ some (n, v) → 0 < length p
    not_empty [] e = cc (e, vint_read-nil)
    not_empty (b ∷ p) e = omega arith

-- One parameter: what is left is shorter, and the parameters stay within the limits.
abbrev Shorter : List ℕ → TransportParams × List ℕ → Type 0
Shorter p r = IsAccepted r.0 × (length r.1 < length p)

decode_one-Returns :
    (params : TransportParams) (start : List ℕ)
    → IsAccepted params
    → Returns (Shorter start) (decode_one_transport_param params start)
unfolding decode_one_transport_param
decode_one-Returns params start h =
    Returns->>= (λ r. length r.1 < length start) _ (read_vint start) _ (read_vint-Returns start)
      λ head shorter.
        Returns->>= (λ r. length r.1 < length head.1) _ (read_vint head.1) _
          (read_vint-Returns head.1) λ body shorter'. bounded head.0 body.0 body.1 (omega arith)
  where
    bounded :
        (type len : ℕ) (p : List ℕ)
        → length p < length start
        → Returns (Shorter start) (
            if ltb (length p) len
            then err illtp
            else ((if type == max_datagram_frame_size_id
                  then decode_datagram_size params p len
                  else ok params)
                >>= λ params'. decode_known type params' p >>= λ q. ok (q, drop len p)))
    bounded type len p shorter = elim (Bool-cases (ltb (length p) len)) [
      | inl e ↦ rw e tt
      | inr e ↦ rw e (
          Returns->>= IsAccepted _ _ _ (datagram type len p) λ params' h'.
            Returns->>= IsAccepted _ _ _ (decode_known-Returns type params' p h')
              λ q hq. (hq, omega (arith, length-drop len p)))
    ]
      where
        datagram :
            (type len : ℕ) (p : List ℕ)
            → Returns IsAccepted (
                if type == max_datagram_frame_size_id
                then decode_datagram_size params p len
                else ok params)
        datagram type len p = elim (Bool-cases (type == max_datagram_frame_size_id)) [
          | inl e ↦ rw e (decode_datagram_size-Returns params p len h)
          | inr e ↦ rw e h
        ]

decode_loop-Returns :
    (fuel : ℕ) (seen : Bool) (params : TransportParams) (p : List ℕ)
    → IsAccepted params
    → length p ≤ fuel
    → Returns IsAccepted (decode_loop fuel seen params p)
unfolding decode_loop
decode_loop-Returns zero seen params [] h enough = h
decode_loop-Returns (suc fuel) seen params [] h enough = h
decode_loop-Returns zero seen params (b ∷ p) h enough = absurd (omega arith)
decode_loop-Returns (suc fuel) seen params (b ∷ p) h enough =
    elim (Option-cases (vint_read (b ∷ p))) [
      | inl e ↦ rw (e, decode_loop) tt
      | inr ((n, type), e) ↦
          rw (e, decode_loop)
            (elim (Bool-cases ((type == max_datagram_frame_size_id) && seen)) [
              | inl twice ↦ rw twice tt
              | inr first ↦ rw first (
                  Returns->>= (Shorter (b ∷ p)) _ _ _ (decode_one-Returns params (b ∷ p) h)
                    λ r shorter.
                      decode_loop-Returns fuel ((type == max_datagram_frame_size_id) || seen) r.0
                        r.1 shorter.0 (omega arith))
            ])
    ]

-- On every input `rqc_decode_transport_params` ends: it returns RQC_EILLTP, or it succeeds, and then
-- the decoded ack_delay_exponent is at most 20.
pub decode_transport_params-Returns :
    (input : List ℕ)
    → Returns
        (λ params. params.ack_delay_exponent ≤ max_ack_delay_exponent)
        (decode_transport_params input)
unfolding decode_transport_params
decode_transport_params-Returns input =
    decode_loop-Returns (length input) false defaults input (omega arith) (omega arith)

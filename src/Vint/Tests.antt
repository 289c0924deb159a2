-- ===== src/Vint/Tests.antt =====
-- Runs of the variable-length integers, and their theorems at concrete inputs.
use rquic.Base.{ℕ, ◌≡◌, refl, arith, List, [], ◌∷◌, ◌++◌, length, All, some, none, true}
use rquic.Vint.{IsByte, vint_read, vint_write, put_varint, put_varint_len}
use rquic.Vint.Read.{decode, vint_read-decode}
use rquic.Vint.RoundTrip.{vint_read-put_varint}
use rquic.Vint.Discrete.{Pctx, discrete_vint_parse}
use rquic.Vint.Discrete.Whole.{discrete_vint_parse-vint_read}

-- The sample encodings of RFC 9000, appendix A.1.
read_eight_bytes :
    vint_read (0xc2 ∷ 0x19 ∷ 0x7c ∷ 0x5e ∷ 0xff ∷ 0x14 ∷ 0xe8 ∷ 0x8c ∷ [])
    ≡ some (8, 151288809941952652)
unfolding vint_read
read_eight_bytes = refl

read_four_bytes : vint_read (0x9d ∷ 0x7f ∷ 0x3e ∷ 0x7d ∷ 1 ∷ []) ≡ some (4, 494878333)
unfolding vint_read
read_four_bytes = refl

read_cut : vint_read (0x9d ∷ 0x7f ∷ 0x3e ∷ []) ≡ none
unfolding vint_read
read_cut = refl

put_two_bytes : put_varint 15293 ≡ some (0x7b ∷ 0xbd ∷ [])
unfolding put_varint
put_two_bytes = refl

write_two_bytes : vint_write 37 1 2 ≡ 0x40 ∷ 0x25 ∷ []
unfolding vint_write
write_two_bytes = refl

abbrev sample : List ℕ
sample = 0x7b ∷ 0xbd ∷ 9 ∷ []

sample_bytes : All IsByte sample
sample_bytes = omega arith

abbrev clear : Pctx
clear = record { vi = 0; left = 0 }

vint_read-decode_example : vint_read sample ≡ decode sample
vint_read-decode_example = vint_read-decode sample sample_bytes

vint_read-put_varint_example :
    (out : List ℕ) × (put_varint 15293 ≡ some out)
    × (length out ≡ put_varint_len 15293)
    × All IsByte out
    × (vint_read (out ++ (9 ∷ [])) ≡ some (put_varint_len 15293, 15293))
vint_read-put_varint_example = vint_read-put_varint 15293 (9 ∷ []) (omega arith) (omega arith)

discrete_vint_parse-vint_read_example :
    discrete_vint_parse sample clear
    ≡ record { taken = 2; pctx = record { vi = 15293; left = 0 }; fin = true }
unfolding vint_read
discrete_vint_parse-vint_read_example =
    discrete_vint_parse-vint_read sample clear 2 15293 sample_bytes refl refl

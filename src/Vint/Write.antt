-- ===== src/Vint/Write.antt =====
-- `rqc_put_varint` and `rqc_vint_write` write one and the same encoding, which `rqc_vint_read` reads.
use rquic.Base.{ℕ, zero, suc, ◌+◌, ◌-◌, ◌*◌, ◌/◌, ◌%◌, ◌^◌, ◌≤◌, ◌<◌, ◌≡◌, ap, ◌∙◌, arith}
use rquic.Base.{List, ◌++◌, length, All, All-append, none, some}
use rquic.Base.{lt→leb, le→leb, dec_lt}
use rquic.Base.Bits.{bit_or-above}
use rquic.Vint.{IsByte, be_value, be_bytes, vint_len, vint_read, vint_write, vint_get_2bit}
use rquic.Vint.{vint_len_by_val, put_varint, put_varint_len}
use rquic.Vint.Bytes.{length-be_bytes, be_bytes-IsByte}
use rquic.Vint.Read.{decode, vint_read-decode}

-- The encoding of `n` in `2 ^ two_bit` bytes.
pub encode_as : ℕ → ℕ → List ℕ
unfolding be_bytes
encode_as two_bit n = be_bytes (2 ^ two_bit) (n + two_bit * 2 ^ (8 * 2 ^ two_bit - 2))

-- `n` fits the encoding with the length bits `two_bit`.
abbrev pub Fits : ℕ → ℕ → Type 0
Fits two_bit n = (two_bit ≤ 3) × (n < 2 ^ (8 * 2 ^ two_bit - 2))

decode-encode_as :
    (t n : ℕ) (rest : List ℕ) → Fits t n → decode (encode_as t n ++ rest) ≡ some (2 ^ t, n)
unfolding decode encode_as be_value
decode-encode_as zero n rest h = ground arith
decode-encode_as (suc zero) n rest h = ground arith
decode-encode_as (suc (suc zero)) n rest h = ground arith
decode-encode_as (suc (suc (suc zero))) n rest h = ground arith
decode-encode_as (suc (suc (suc (suc t)))) n rest h = absurd (omega arith)

pub encode_as-IsByte : (t n : ℕ) → All IsByte (encode_as t n)
unfolding encode_as
encode_as-IsByte t n = be_bytes-IsByte _ _

pub length-encode_as : (t n : ℕ) → length (encode_as t n) ≡ 2 ^ t
unfolding encode_as
length-encode_as t n = length-be_bytes _ _

-- What is read back from an encoding, whatever bytes follow it.
pub vint_read-encode_as :
    (t n : ℕ) (rest : List ℕ)
    → Fits t n
    → All IsByte rest
    → vint_read (encode_as t n ++ rest) ≡ some (2 ^ t, n)
vint_read-encode_as t n rest h bytes =
    vint_read-decode _ (All-append IsByte (encode_as t n) rest (encode_as-IsByte t n) bytes)
    ∙ decode-encode_as t n rest h

-- `rqc_vint_write` with the length that goes with `two_bit`.
pub vint_write-encode_as : (t n : ℕ) → Fits t n → vint_write n t (vint_len t) ≡ encode_as t n
unfolding vint_write encode_as
vint_write-encode_as zero n h = ap (be_bytes 1) (bit_or-above 6 n 0 (omega arith))
vint_write-encode_as (suc zero) n h = ap (be_bytes 2) (bit_or-above 14 n 1 (omega arith))
vint_write-encode_as (suc (suc zero)) n h = ap (be_bytes 4) (bit_or-above 30 n 2 (omega arith))
vint_write-encode_as (suc (suc (suc zero))) n h =
    ap (be_bytes 8) (bit_or-above 62 n 3 (omega arith))
vint_write-encode_as (suc (suc (suc (suc t)))) n h = absurd (omega arith)

-- The four ranges that the macro tells apart.
data Class (n : ℕ) : ℕ → Type 0 where
  one_byte : n < 2 ^ 6 → Class n 0
  two_bytes : 2 ^ 6 ≤ n → n < 2 ^ 14 → Class n 1
  four_bytes : 2 ^ 14 ≤ n → n < 2 ^ 30 → Class n 2
  eight_bytes : 2 ^ 30 ≤ n → Class n 3

vint_get_2bit-Class : (n : ℕ) → Class n (vint_get_2bit n)
unfolding vint_get_2bit
vint_get_2bit-Class n = elim (dec_lt n (2 ^ 6)) [
  | yes a ↦
      rw (lt→leb n (2 ^ 6) a, lt→leb n (2 ^ 14) (omega arith), lt→leb n (2 ^ 30) (omega arith))
        (one_byte a)
  | no a ↦ elim (dec_lt n (2 ^ 14)) [
    | yes b ↦
        rw (le→leb (2 ^ 6) n (omega arith), lt→leb n (2 ^ 14) b, lt→leb n (2 ^ 30) (omega arith))
          (two_bytes (omega arith) b)
    | no b ↦ elim (dec_lt n (2 ^ 30)) [
      | yes c ↦
          rw (le→leb (2 ^ 6) n (omega arith), le→leb (2 ^ 14) n (omega arith), lt→leb n (2 ^ 30) c)
            (four_bytes (omega arith) c)
      | no c ↦
          rw
            (
              le→leb (2 ^ 6) n (omega arith),
              le→leb (2 ^ 14) n (omega arith),
              le→leb (2 ^ 30) n (omega arith),
            )
            (eight_bytes (omega arith))
    ]
  ]
]

Class-Fits : (n : ℕ) {t : ℕ} → Class n t → n < 2 ^ 62 → Fits t n
Class-Fits n (one_byte a) h = omega arith
Class-Fits n (two_bytes a b) h = omega arith
Class-Fits n (four_bytes a b) h = omega arith
Class-Fits n (eight_bytes a) h = omega arith

pub vint_get_2bit-Fits : (n : ℕ) → n < 2 ^ 62 → Fits (vint_get_2bit n) n
vint_get_2bit-Fits n h = Class-Fits n (vint_get_2bit-Class n) h

-- `rqc_put_varint` and the macro choose the same length.
put_varint-Class : (n : ℕ) {t : ℕ} → Class n t → n < 2 ^ 62 → put_varint n ≡ some (encode_as t n)
unfolding put_varint encode_as
put_varint-Class n (one_byte a) h = ground arith
put_varint-Class n (two_bytes a b) h = ground (arith, bit_or-above 6 (n % 2 ^ 16 / 256 % 256) 1)
put_varint-Class n (four_bytes a b) h =
    ground (arith, bit_or-above 6 (n % 2 ^ 32 / 256 ^ 3 % 256) 2)
put_varint-Class n (eight_bytes a) h = ground (arith, bit_or-above 6 (n / 256 ^ 7 % 256) 3)

pub put_varint-encode_as :
    (n : ℕ) → n < 2 ^ 62 → put_varint n ≡ some (encode_as (vint_get_2bit n) n)
put_varint-encode_as n h = put_varint-Class n (vint_get_2bit-Class n) h

put_varint_len-Class : (n : ℕ) {t : ℕ} → Class n t → put_varint_len n ≡ 2 ^ t
unfolding put_varint_len
put_varint_len-Class n (one_byte a) = ground arith
put_varint_len-Class n (two_bytes a b) = ground arith
put_varint_len-Class n (four_bytes a b) = ground arith
put_varint_len-Class n (eight_bytes a) = ground arith

pub put_varint_len-vint_len : (n : ℕ) → put_varint_len n ≡ vint_len_by_val n
put_varint_len-vint_len n = put_varint_len-Class n (vint_get_2bit-Class n)

pub put_varint_null_of : (n : ℕ) → 2 ^ 62 ≤ n → put_varint n ≡ none
unfolding put_varint
put_varint_null_of n h = ground arith

pub put_varint_len-le : (n : ℕ) → (1 ≤ put_varint_len n) × (put_varint_len n ≤ 8)
unfolding put_varint_len
put_varint_len-le n = ground arith

pub put_varint_len_small : (n : ℕ) → n < 64 → put_varint_len n ≡ 1
unfolding put_varint_len
put_varint_len_small n h = ground arith

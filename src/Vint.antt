-- ===== src/Vint.antt =====
-- src/common/utils/vint/rqc_variable_len_int.c and .h: variable-length integers of 1, 2, 4 or 8
-- bytes. A pointer `p` with its `end` is the list of the bytes from `p` up to `end`; what is
-- written through a pointer is the list of the bytes written.
pub mod Bytes
pub mod Write
pub mod Read
pub mod RoundTrip
pub mod Discrete
mod Tests
use rquic.Base.{ℕ, zero, suc, ◌+◌, ◌-◌, ◌*◌, ◌/◌, ◌%◌, ◌^◌, ◌<◌, bit_and, bit_or}
use rquic.Base.{Bool, true, false, Option, none, some, List, [], ◌∷◌}
use rquic.Base.{ltb, leb, ◌==◌, if◌then◌else◌}

abbrev pub IsByte : ℕ → Type 0
IsByte b = b < 256

-- RQC_VINT_MASK
abbrev pub vint_mask : ℕ
vint_mask = 2 ^ 6 - 1

-- The number that bytes stand for, most significant first, behind the value `acc`.
unfoldable pub be_value : ℕ → List ℕ → ℕ
be_value acc [] = acc
be_value acc (b ∷ bs) = be_value (acc * 256 + b) bs

-- The `len` low bytes of `n`, most significant first: what a swapped word leaves in memory.
pub be_bytes : ℕ → ℕ → List ℕ
be_bytes zero n = []
be_bytes (suc len) n = (n / 256 ^ len % 256) ∷ be_bytes len n

-- rqc_vint_get_2bit
unfoldable pub vint_get_2bit : ℕ → ℕ
vint_get_2bit val =
    (if leb (2 ^ 6) val then 1 else 0)
    + (if leb (2 ^ 14) val then 1 else 0)
    + (if leb (2 ^ 30) val then 1 else 0)

-- rqc_vint_usable_bits
abbrev pub vint_usable_bits : ℕ → ℕ
vint_usable_bits two_bit = 2 ^ (3 + two_bit) - 2

-- rqc_vint_len
abbrev pub vint_len : ℕ → ℕ
vint_len two_bit = 2 ^ two_bit

-- rqc_vint_len_by_val
abbrev pub vint_len_by_val : ℕ → ℕ
vint_len_by_val val = 2 ^ vint_get_2bit val

-- rqc_vint_write: the last `len` bytes of the 64-bit word.
pub vint_write : ℕ → ℕ → ℕ → List ℕ
unfolding be_bytes
vint_write val two_bit len =
    be_bytes len (bit_or val (two_bit * 2 ^ vint_usable_bits two_bit % 2 ^ 64))

-- The four cases of `switch (*p >> 6u)`. Each holds its test of `end`.
read_two : ℕ → List ℕ → Option (ℕ × ℕ)
read_two p0 [] = none
read_two p0 (p1 ∷ _) = some (2, bit_or (bit_and p0 vint_mask * 2 ^ 8) p1)

read_four : ℕ → List ℕ → Option (ℕ × ℕ)
read_four p0 (p1 ∷ p2 ∷ p3 ∷ _) =
    some (4, bit_or (bit_or (bit_or (bit_and p0 vint_mask * 2 ^ 24) (p1 * 2 ^ 16)) (p2 * 2 ^ 8)) p3)
read_four p0 _ = none

read_eight : ℕ → List ℕ → Option (ℕ × ℕ)
unfolding be_value
read_eight p0 (p1 ∷ p2 ∷ p3 ∷ p4 ∷ p5 ∷ p6 ∷ p7 ∷ _) =
    let val = be_value 0 (p0 ∷ p1 ∷ p2 ∷ p3 ∷ p4 ∷ p5 ∷ p6 ∷ p7 ∷ []) in
    some (8, bit_and val (2 ^ 62 - 1))
read_eight p0 _ = none

-- `rqc_vint_read`: the length read and the value, or `none` for -1.
unfoldable pub vint_read : List ℕ → Option (ℕ × ℕ)
unfolding read_two read_four read_eight
vint_read [] = none
vint_read (p0 ∷ rest) =
    if p0 / 2 ^ 6 == 0
    then some (1, p0)
    else if p0 / 2 ^ 6 == 1
    then read_two p0 rest
    else if p0 / 2 ^ 6 == 2
    then read_four p0 rest
    else read_eight p0 rest

-- rqc_put_varint_len
unfoldable pub put_varint_len : ℕ → ℕ
put_varint_len n =
    if ltb n 64 then 1 else if ltb n 16384 then 2 else if ltb n 1073741824 then 4 else 8

-- rqc_put_uint16be, rqc_put_uint32be, rqc_put_uint64be, on an argument of their type.
put_uint16be : ℕ → List ℕ
unfolding be_bytes
put_uint16be n = be_bytes 2 n

put_uint32be : ℕ → List ℕ
unfolding be_bytes
put_uint32be n = be_bytes 4 n

put_uint64be : ℕ → List ℕ
unfolding be_bytes
put_uint64be n = be_bytes 8 n

-- `*p |= bits`
or_first : List ℕ → ℕ → List ℕ
or_first [] bits = []
or_first (b ∷ bs) bits = bit_or b bits ∷ bs

-- `rqc_put_varint`: the bytes written, or `none` for NULL.
unfoldable pub put_varint : ℕ → Option (List ℕ)
unfolding put_uint16be put_uint32be put_uint64be or_first
put_varint n =
    if ltb n 64
    then some ((n % 2 ^ 8) ∷ [])
    else if ltb n 16384
    then some (or_first (put_uint16be (n % 2 ^ 16)) 0x40)
    else if ltb n 1073741824
    then some (or_first (put_uint32be (n % 2 ^ 32)) 0x80)
    else if leb 4611686018427387904 n
    then none
    else some (or_first (put_uint64be n) 0xc0)

-- ===== src/Frame/Values.antt =====
-- Values that frames hold: what is written with rqc_vint_write is read back with rqc_vint_read.
use rquic.Base.{
  ℕ, ◌+◌, ◌^◌, ◌<◌, ◌≤◌, ◌≡◌, refl, sym, arith, ap, List, ◌++◌, drop, length, All, All-append,
  length-append, drop-append, append_assoc, some,
}
use rquic.Vint.{IsByte, vint_read, vint_write, vint_get_2bit}
use rquic.Vint.Write.{
  encode_as, encode_as-IsByte, length-encode_as, vint_read-encode_as, vint_write-encode_as,
  vint_get_2bit-Fits,
}
use rquic.Frame.{ok, vint_bytes, vint_size, next}

vint_bytes-encode_as : (v : ℕ) → v < 2 ^ 62 → vint_bytes v ≡ encode_as (vint_get_2bit v) v
unfolding vint_bytes
vint_bytes-encode_as v h = vint_write-encode_as (vint_get_2bit v) v (vint_get_2bit-Fits v h)

pub vint_bytes-IsByte : (v : ℕ) → v < 2 ^ 62 → All IsByte (vint_bytes v)
vint_bytes-IsByte v h = rw (vint_bytes-encode_as v h) (encode_as-IsByte (vint_get_2bit v) v)

pub length-vint_bytes : (v : ℕ) → v < 2 ^ 62 → length (vint_bytes v) ≡ vint_size v
unfolding vint_size
length-vint_bytes v h = rw (vint_bytes-encode_as v h) (length-encode_as (vint_get_2bit v) v)

encoded :
    (t v : ℕ) (rest : List ℕ)
    → vint_read (encode_as t v ++ rest) ≡ some (2 ^ t, v)
    → drop (2 ^ t) (encode_as t v ++ rest) ≡ rest
    → next (encode_as t v ++ rest) ≡ ok (v, rest)
unfolding next
encoded t v rest read behind = rw (read, next) (ap (λ (l : List ℕ). ok (v, l)) behind)

-- A written value is read back, whatever bytes follow.
pub next-vint_bytes :
    (v : ℕ) (rest : List ℕ)
    → v < 2 ^ 62
    → All IsByte rest
    → next (vint_bytes v ++ rest) ≡ ok (v, rest)
unfolding next
next-vint_bytes v rest h bytes =
    let t = vint_get_2bit v in
    let read = vint_read-encode_as t v rest (vint_get_2bit-Fits v h) bytes in
    let behind : drop (2 ^ t) (encode_as t v ++ rest) ≡ rest =
      rw (sym (length-encode_as t v)) (drop-append (encode_as t v) rest) in
    rw (vint_bytes-encode_as v h) (encoded t v rest read behind)

-- The bytes behind a written value are bytes.
pub more :
    (v : ℕ) (rest : List ℕ) → v < 2 ^ 62 → All IsByte rest → All IsByte (vint_bytes v ++ rest)
more v rest h bytes = All-append IsByte (vint_bytes v) rest (vint_bytes-IsByte v h) bytes

-- One, two and three values.
pub read_one :
    (a : ℕ) (rest : List ℕ)
    → a < 2 ^ 62
    → All IsByte rest
    → next (vint_bytes a ++ rest) ≡ ok (a, rest)
read_one a rest h bytes = next-vint_bytes a rest h bytes

pub read_two :
    (a b : ℕ) (rest : List ℕ)
    → a < 2 ^ 62
    → b < 2 ^ 62
    → All IsByte rest
    → next ((vint_bytes a ++ vint_bytes b) ++ rest) ≡ ok (a, vint_bytes b ++ rest)
read_two a b rest h k bytes =
    rw (append_assoc (vint_bytes a) (vint_bytes b) rest)
      (next-vint_bytes a (vint_bytes b ++ rest) h (more b rest k bytes))

pub read_three :
    (a b c : ℕ) (rest : List ℕ)
    → a < 2 ^ 62
    → b < 2 ^ 62
    → c < 2 ^ 62
    → All IsByte rest
    → next ((vint_bytes a ++ vint_bytes b ++ vint_bytes c) ++ rest)
      ≡ ok (a, (vint_bytes b ++ vint_bytes c) ++ rest)
read_three a b c rest h k l bytes = simp append_assoc (
    next-vint_bytes a (vint_bytes b ++ (vint_bytes c ++ rest)) h
      (more b (vint_bytes c ++ rest) k (more c rest l bytes)))

pub length_two :
    (a b : ℕ)
    → a < 2 ^ 62
    → b < 2 ^ 62
    → length (vint_bytes a ++ vint_bytes b) ≡ vint_size a + vint_size b
length_two a b h k = omega (
  arith,
  length-append (vint_bytes a) (vint_bytes b),
  length-vint_bytes a h,
  length-vint_bytes b k,
)

pub length_three :
    (a b c : ℕ)
    → a < 2 ^ 62
    → b < 2 ^ 62
    → c < 2 ^ 62
    → length (vint_bytes a ++ vint_bytes b ++ vint_bytes c)
      ≡ vint_size a + vint_size b + vint_size c
length_three a b c h k l = omega (
  arith,
  length-append (vint_bytes a ++ vint_bytes b) (vint_bytes c),
  length-vint_bytes c l,
  length_two a b h k,
)

pub vint_size-le : (v : ℕ) → vint_size v ≤ 8
unfolding vint_size vint_get_2bit
vint_size-le v = ground arith

-- A number below 64 takes the one byte that the writers of short counts reserve.
pub vint_write_byte : (v : ℕ) → v < 64 → vint_write v 0 1 ≡ vint_bytes v
unfolding vint_bytes
vint_write_byte v h =
    let short : vint_get_2bit v ≡ 0 = unfold vint_get_2bit in ground (arith, h) in rw short refl

-- ===== src/Vint/RoundTrip.antt =====
-- The two writers of variable-length integers and their reader together.
use rquic.Base.{ℕ, ◌≤◌, ◌<◌, ◌^◌, ◌≡◌, sym, ap, ◌∙◌, arith, ◌↔◌}
use rquic.Base.{List, ◌++◌, length, All, none, some, dec_lt}
use rquic.Vint.{IsByte, vint_read, vint_write, vint_get_2bit, vint_len_by_val}
use rquic.Vint.{put_varint, put_varint_len}
use rquic.Vint.Write.{encode_as, encode_as-IsByte, length-encode_as, vint_read-encode_as}
use rquic.Vint.Write.{vint_write-encode_as, vint_get_2bit-Fits, put_varint-encode_as}
use rquic.Vint.Write.{put_varint_len-vint_len, put_varint_null_of}

-- For every `n` below 2 ^ 62, `rqc_put_varint` writes `rqc_put_varint_len n` bytes, and
-- `rqc_vint_read` reads `n` and that length back, whatever bytes follow.
pub vint_read-put_varint :
    (n : ℕ) (rest : List ℕ)
    → n < 2 ^ 62
    → All IsByte rest
    → (out : List ℕ) × (put_varint n ≡ some out)
      × (length out ≡ put_varint_len n)
      × All IsByte out
      × (vint_read (out ++ rest) ≡ some (put_varint_len n, n))
vint_read-put_varint n rest h bytes =
    let t : ℕ = vint_get_2bit n in
    let len : put_varint_len n ≡ 2 ^ t = put_varint_len-vint_len n in
    (
      encode_as t n,
      put_varint-encode_as n h,
      length-encode_as t n ∙ sym len,
      encode_as-IsByte t n,
      vint_read-encode_as t n rest (vint_get_2bit-Fits n h) bytes
          ∙ ap (λ (k : ℕ). some (k, n)) (sym len),
    )

-- The macro `rqc_vint_write`, called with the length bits and the length of its value as all frame
-- writers call it, writes the bytes of `rqc_put_varint`, for every value below 2 ^ 62.
pub vint_write-put_varint :
    (n : ℕ) → n < 2 ^ 62 → put_varint n ≡ some (vint_write n (vint_get_2bit n) (vint_len_by_val n))
vint_write-put_varint n h =
    put_varint-encode_as n h ∙ ap some (sym (vint_write-encode_as _ n (vint_get_2bit-Fits n h)))

-- `rqc_put_varint` returns NULL exactly for the values from 2 ^ 62 on.
pub put_varint_null : (n : ℕ) → (put_varint n ≡ none) ↔ (2 ^ 62 ≤ n)
put_varint_null n = (null_large, put_varint_null_of n)
  where
    null_large : put_varint n ≡ none → 2 ^ 62 ≤ n
    null_large e = elim (dec_lt n (2 ^ 62)) [
      | yes h ↦ cc (e, put_varint-encode_as n h)
      | no h ↦ omega arith
    ]

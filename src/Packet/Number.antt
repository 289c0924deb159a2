-- ===== src/Packet/Number.antt =====
-- A packet number that is cut to its low bytes on the wire and completed by the receiver.
use rquic.Base.{
  ℕ, zero, suc, ◌+◌, ◌-◌, ◌*◌, ◌/◌, ◌%◌, ◌^◌, ◌≤◌, ◌<◌, ◌≡◌, refl, sym, ap, ◌∙◌, arith,
}
use rquic.Base.{bit_and, bit_or, ltb, leb, ◌&&◌, if◌then◌else◌, List, ◌++◌, ◌⊎◌, inl, inr}
use rquic.Base.{dec_lt}
use rquic.Base.Bits.{bit_and-high, bit_or-shift, bit_and-mask, pow_split}
use native.Mathlib.Nat.{div-add-mod', mod-lt, mod-eq_of_lt, one-le-pow, div-lt_iff_lt-mul, mul_comm}
use native.Mathlib.Nat.{mul-le-mul_right, pow-le-pow_right, mul-sub, pow-suc}
use rquic.Packet.{
  calc_packet_number, decode_packet_number, parse_packet_number, parse_bytes, write_packet_number,
  pktno_class_bytes,
}

-- `2 ^ 64` in two factors.
two_parts : (w : ℕ) → w ≤ 32 → 2 ^ (64 - w) * 2 ^ w ≡ 2 ^ 64
two_parts w h =
    let e : 64 - w + w ≡ 64 = omega (arith, h) in
    sym (pow_split (64 - w) w) ∙ ap (λ (n : ℕ). 2 ^ n) e

-- The candidate takes its high bits from the expected number.
candidate :
    (w e t : ℕ)
    → w ≤ 32
    → e < 2 ^ 64
    → t < 2 ^ w
    → bit_or (bit_and e (2 ^ 64 - 1 - (2 ^ w - 1))) t ≡ e / 2 ^ w * 2 ^ w + t
candidate w e t h he ht =
    let win : ℕ = 2 ^ w in
    let top : ℕ = 2 ^ (64 - w) in
    let parts : top * win ≡ 2 ^ 64 = two_parts w h in
    let one : 1 ≤ win = one-le-pow w 2 (omega arith) in
    let below : e / win < top = (div-lt_iff_lt-mul one).1 (rw parts he) in
    let mask : 2 ^ 64 - 1 - (win - 1) ≡ (top - 1) * win =
      omega (arith, one, parts, mul-sub win top 1, mul_comm win top, mul_comm win (top - 1)) in
    rw (mask, bit_and-high w e (top - 1), bit_and-mask (64 - w) (e / win), mod-eq_of_lt below)
      (bit_or-shift w (e / win) t ht)

-- How two multiples of `win` can lie.
multiples :
    (win p q : ℕ)
    → (p * win ≡ q * win)
      ⊎ ((p * win ≡ q * win + win)
          ⊎ ((q * win ≡ p * win + win)
              ⊎ ((q * win + 2 * win ≤ p * win) ⊎ (p * win + 2 * win ≤ q * win))))
multiples win p q =
    let up = λ (h : q + 2 ≤ p). mul-le-mul_right win h in
    let down = λ (h : p + 2 ≤ q). mul-le-mul_right win h in
    elim (dec_lt p q) [
      | yes l ↦ elim (dec_lt (p + 1) q) [
        | yes k ↦ inr (inr (inr (inr (omega (arith, down (omega (arith, k)))))))
        | no k ↦ let e : q ≡ p + 1 = omega arith in rw e (inr (inr (inl (omega arith))))
      ]
      | no l ↦ elim (dec_lt q p) [
        | no k ↦ let e : q ≡ p = omega arith in rw e (inl refl)
        | yes k ↦ elim (dec_lt (q + 1) p) [
          | yes m ↦ inr (inr (inr (inl (omega (arith, up (omega (arith, m)))))))
          | no m ↦ let e : p ≡ q + 1 = omega arith in rw e (inr (inl (omega arith)))
        ]
      ]
    ]

-- The test for the window around the expected number finds the number that was meant.
choose :
    (win expected_pn candidate_pn pn : ℕ)
    → 2 ≤ win
    → win % 2 ≡ 0
    → win ≤ 2 ^ 32
    → expected_pn ≤ 2 ^ 62
    → pn < 2 ^ 62
    → expected_pn < pn + win / 2
    → pn ≤ expected_pn + win / 2
    → (candidate_pn ≡ pn) ⊎ ((candidate_pn + win ≡ pn) ⊎ (candidate_pn ≡ pn + win))
    → (if leb ((candidate_pn + win / 2) % 2 ^ 64) expected_pn && ltb candidate_pn (2 ^ 62 - win)
        then (candidate_pn + win) % 2 ^ 64
        else (if ltb ((expected_pn + win / 2) % 2 ^ 64) candidate_pn && leb win candidate_pn
            then candidate_pn - win
            else candidate_pn))
      ≡ pn
choose win expected_pn candidate_pn pn h even small he hp low high near = ground arith

-- From the low bits of a packet number in the window around the number after the largest one
-- received, rqc_packet_calc_packet_number finds that packet number: for every width of 1 to 32
-- bits, packet numbers below 2 ^ 62, and a number that is at most half a window above the expected
-- one and less than half a window below it.
pub calc_packet_number_lem :
    (largest_pn pn w : ℕ)
    → 1 ≤ w
    → w ≤ 32
    → largest_pn < 2 ^ 62
    → pn < 2 ^ 62
    → largest_pn + 1 < pn + 2 ^ w / 2
    → pn ≤ largest_pn + 1 + 2 ^ w / 2
    → calc_packet_number largest_pn (pn % 2 ^ w) w ≡ pn
unfolding calc_packet_number
calc_packet_number_lem largest_pn pn zero one h hl hp low high = absurd (omega arith)
calc_packet_number_lem largest_pn pn (suc v) one h hl hp low high =
    let w : ℕ = suc v in
    let e : ℕ = largest_pn + 1 in
    let wrap : (largest_pn + 1) % 2 ^ 64 ≡ e = omega arith in
    let some_bits : 1 ≤ 2 ^ w = one-le-pow w 2 (omega arith) in
    let fits : 2 ^ w ≤ 2 ^ 32 = pow-le-pow_right (omega arith) h in
    let t : pn % 2 ^ w < 2 ^ w = mod-lt pn some_bits in
    let c = candidate w e (pn % 2 ^ w) h (omega arith) t in
    rw (wrap, c)
      (choose (2 ^ w) e (e / 2 ^ w * 2 ^ w + pn % 2 ^ w) pn
        (omega (arith, pow-suc 2 v, one-le-pow v 2)) (omega (arith, pow-suc 2 v)) fits (omega arith)
        hp low high (near (multiples (2 ^ w) (pn / 2 ^ w) (e / 2 ^ w))))
  where
    w : ℕ
    w = suc v

    e : ℕ
    e = largest_pn + 1

    near :
        (pn / 2 ^ w * 2 ^ w ≡ e / 2 ^ w * 2 ^ w)
          ⊎ ((pn / 2 ^ w * 2 ^ w ≡ e / 2 ^ w * 2 ^ w + 2 ^ w)
              ⊎ ((e / 2 ^ w * 2 ^ w ≡ pn / 2 ^ w * 2 ^ w + 2 ^ w)
                  ⊎ ((e / 2 ^ w * 2 ^ w + 2 * 2 ^ w ≤ pn / 2 ^ w * 2 ^ w)
                      ⊎ (pn / 2 ^ w * 2 ^ w + 2 * 2 ^ w ≤ e / 2 ^ w * 2 ^ w))))
        → (e / 2 ^ w * 2 ^ w + pn % 2 ^ w ≡ pn)
          ⊎ ((e / 2 ^ w * 2 ^ w + pn % 2 ^ w + 2 ^ w ≡ pn)
              ⊎ (e / 2 ^ w * 2 ^ w + pn % 2 ^ w ≡ pn + 2 ^ w))
    near m = ground (
      arith,
      div-add-mod' pn (2 ^ w),
      div-add-mod' e (2 ^ w),
      mod-lt e (one-le-pow w 2 (omega arith)),
      mod-lt pn (one-le-pow w 2 (omega arith)),
      m,
    )

-- The bytes that rqc_write_packet_number writes are the low bytes of the number.
parse-write :
    (pn c : ℕ) (rest : List ℕ)
    → c < 4
    → parse_packet_number (write_packet_number pn c ++ rest) (pktno_class_bytes c)
      ≡ pn % 2 ^ (pktno_class_bytes c * 8)
unfolding parse_packet_number parse_bytes write_packet_number pktno_class_bytes
parse-write pn zero rest h = omega arith
parse-write pn (suc zero) rest h = omega arith
parse-write pn (suc (suc zero)) rest h = omega arith
parse-write pn (suc (suc (suc zero))) rest h = omega arith
parse-write pn (suc (suc (suc (suc c)))) rest h = absurd (omega arith)

-- A packet number below 2 ^ 62 that rqc_write_packet_number writes in `c + 1` bytes, and the
-- receiver decodes with rqc_packet_decode_packet_number, whatever bytes follow, is the same number,
-- when it is at most half a window above the number after the largest one received and less than
-- half a window below it.
pub decode-write_packet_number :
    (largest_pn pn c : ℕ) (rest : List ℕ)
    → c < 4
    → largest_pn < 2 ^ 62
    → pn < 2 ^ 62
    → largest_pn + 1 < pn + 2 ^ (pktno_class_bytes c * 8) / 2
    → pn ≤ largest_pn + 1 + 2 ^ (pktno_class_bytes c * 8) / 2
    → decode_packet_number largest_pn (write_packet_number pn c ++ rest) (pktno_class_bytes c) ≡ pn
unfolding decode_packet_number
decode-write_packet_number largest_pn pn c rest h hl hp low high = rw (parse-write pn c rest h) (
    calc_packet_number_lem largest_pn pn (pktno_class_bytes c * 8) (bits h).0 (bits h).1 hl hp low
      high)
  where
    bits : c < 4 → (1 ≤ pktno_class_bytes c * 8) × (pktno_class_bytes c * 8 ≤ 32)
    bits h =
        (unfold pktno_class_bytes in omega (arith, h), unfold pktno_class_bytes in omega (arith, h))

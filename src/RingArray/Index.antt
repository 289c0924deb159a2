-- ===== src/RingArray/Index.antt =====
-- The slots of a valid ring array: `& mask` goes around the capacity.
use rquic.Base.{ℕ, ◌+◌, ◌-◌, ◌*◌, ◌%◌, ◌^◌, ◌≤◌, ◌<◌, ◌≡◌, sym, ap, ◌∙◌, arith}
use rquic.Base.{ltb, ◌==◌, if◌then◌else◌, lt→ltb, le→ltb, ne→==, dec_lt}
use rquic.Base.Bits.{bit_and-mask, pow_split}
use rquic.RingArray.{RingArray, masked}
use native.Mathlib.Nat.{
  mod-eq_of_lt, mul-sub, mod-eq-sub-mod, add-mul-mod_self_left, one-le-pow, pow-le-pow_right,
}

-- The last number of 64 bits has the low bits of every power of two.
low_ones : (k : ℕ) → k ≤ 64 → (2 ^ 64 - 1) % 2 ^ k ≡ 2 ^ k - 1
low_ones k h =
    let d : ℕ = 64 - k in
    let whole : 64 ≡ k + d = omega (arith, h) in
    let all : 2 ^ 64 ≡ 2 ^ k * 2 ^ d = rw (sym (pow_split k d)) (ap (λ (n : ℕ). 2 ^ n) whole) in
    let part : 2 ^ k * (2 ^ d - 1) ≡ 2 ^ k * 2 ^ d - 2 ^ k * 1 = mul-sub (2 ^ k) (2 ^ d) 1 in
    let room : 1 ≤ 2 ^ k = one-le-pow k 2 (omega arith) in
    let more : 1 ≤ 2 ^ d = one-le-pow d 2 (omega arith) in
    let fits : 2 ^ k ≤ 2 ^ 64 = pow-le-pow_right (omega arith) h in
    let split : 2 ^ 64 - 1 ≡ 2 ^ k - 1 + 2 ^ k * (2 ^ d - 1) =
      omega (arith, all, part, room, fits) in
    ap (λ (n : ℕ). n % 2 ^ k) split
    ∙ (add-mul-mod_self_left (2 ^ k - 1) (2 ^ k) (2 ^ d - 1) ∙ mod-eq_of_lt (omega (arith, room)))

module _ {ℓ} {A : Type ℓ} where
  -- A capacity that is a power of two, its mask, the first slot and the number of elements inside.
  unfoldable pub IsValid : RingArray A → Type 0
  IsValid ra =
      (k : ℕ) × (k ≤ 63)
      × (ra.cap ≡ 2 ^ k)
      × (ra.mask ≡ ra.cap - 1)
      × (ra.offset < ra.cap)
      × (ra.count ≤ ra.cap)

  -- The slot of element `i`.
  unfoldable pub slot : RingArray A → ℕ → ℕ
  slot ra i = if ltb (ra.offset + i) ra.cap then ra.offset + i else ra.offset + i - ra.cap

  pub cap_bound : (ra : RingArray A) → IsValid ra → (1 ≤ ra.cap) × (ra.cap ≤ 2 ^ 63)
  unfolding IsValid
  cap_bound ra (k, h, c, _, _, _) =
      let most : 2 ^ k ≤ 2 ^ 63 = pow-le-pow_right (omega arith) h in
      rw c (one-le-pow k 2 (omega arith), most)

  masked_mod : (ra : RingArray A) (n : ℕ) → IsValid ra → masked ra n ≡ n % 2 ^ 64 % ra.cap
  unfolding IsValid masked
  masked_mod ra n (k, _, c, m, _, _) = rw (m, c) (bit_and-mask k (n % 2 ^ 64))

  pub masked_inside : (ra : RingArray A) (n : ℕ) → IsValid ra → n < ra.cap → masked ra n ≡ n
  masked_inside ra n v h =
      let c = cap_bound ra v in
      let whole : n % 2 ^ 64 ≡ n = omega (arith, c, h) in
      masked_mod ra n v ∙ (rw whole (mod-eq_of_lt h))

  pub masked_around :
      (ra : RingArray A) (n : ℕ)
      → IsValid ra
      → ra.cap ≤ n
      → n < ra.cap + ra.cap
      → masked ra n ≡ n - ra.cap
  masked_around ra n v h l =
      let c = cap_bound ra v in
      let whole : n % 2 ^ 64 ≡ n = omega (arith, c, l) in
      masked_mod ra n v ∙ (rw whole (mod-eq-sub-mod h ∙ mod-eq_of_lt (omega (arith, h, l))))

  pub masked-slot :
      (ra : RingArray A) (i : ℕ) → IsValid ra → i ≤ ra.cap → masked ra (ra.offset + i) ≡ slot ra i
  unfolding slot
  masked-slot ra i v h = elim (dec_lt (ra.offset + i) ra.cap) [
    | yes l ↦ rw (lt→ltb (ra.offset + i) ra.cap l) (masked_inside ra (ra.offset + i) v l)
    | no l ↦ rw (le→ltb (ra.offset + i) ra.cap (omega (arith, l))) (
        masked_around ra (ra.offset + i) v (omega (arith, l))
          (unfold IsValid in omega (arith, v, h)))
  ]

  last_mod : (ra : RingArray A) → IsValid ra → (2 ^ 64 - 1) % ra.cap ≡ ra.cap - 1
  unfolding IsValid
  last_mod ra (k, h, c, _, _, _) = rw c (low_ones k (omega (arith, h)))

  -- One slot back.
  pub masked_back :
      (ra : RingArray A)
      → IsValid ra
      → masked ra (ra.offset + (2 ^ 64 - 1))
        ≡ (if ra.offset == 0 then ra.cap - 1 else ra.offset - 1)
  unfolding masked
  masked_back ra v = elim (dec_lt 0 ra.offset) [
    | yes l ↦
        let c = cap_bound ra v in
        let o : ra.offset < ra.cap = unfold IsValid in v.4 in
        let one : (ra.offset + (2 ^ 64 - 1)) % 2 ^ 64 ≡ ra.offset - 1 = omega (arith, c, o, l) in
        rw (ne→== ra.offset 0 (omega (arith, l)))
          (masked_mod ra (ra.offset + (2 ^ 64 - 1)) v ∙ (rw one (mod-eq_of_lt (omega (arith, o)))))
    | no l ↦
        let z : ra.offset ≡ 0 = omega (arith, l) in
        rw z (masked_mod ra (2 ^ 64 - 1) v ∙ last_mod ra v)
  ]

-- ===== src/RingArray/Resize.antt =====
-- rqc_pow2_upper, and the arrays that rqc_rarray_create and rqc_rarray_resize make with it.
use rquic.Base.{
  ℕ, zero, suc, ◌+◌, ◌-◌, ◌*◌, ◌%◌, ◌^◌, ◌≤◌, ◌<◌, ◌≡◌, refl, ap, ◌∙◌, arith, ◌⊎◌, inl, inr,
}
use rquic.Base.{
  true, false, ltb, leb, ◌==◌, lt→ltb, le→ltb, dec_lt, le→leb, lt→leb, ne→==, [], some,
}
use rquic.RingArray.{
  RingArray, pow2_loop, pow2_upper, rarray_create, success, masked, copied_from, copied,
  rarray_resize,
}
use rquic.RingArray.Index.{IsValid, slot, masked-slot, cap_bound}
use rquic.RingArray.Refine.{element, elements}
use rquic.RingArray.Tabulate.{tabulate, tabulate-ext}
use native.Mathlib.Nat.{one-le-pow, pow-suc, pow-le-pow_right, mul-le-mul_right}

-- The loop, from the power `j`, with the rounds that are left until 2 ^ 63.
pow2_loop_lem :
    (rounds n j : ℕ)
    → n ≤ 2 ^ 63
    → j + rounds ≡ 63
    → 2 ^ j < n + n ⊎ (j ≡ 0)
    → (k : ℕ) × (k ≤ 63)
      × (pow2_loop rounds n (2 ^ j) ≡ some (2 ^ k))
      × (n ≤ 2 ^ k)
      × (2 ^ k < n + n ⊎ (k ≡ 0))
unfolding pow2_loop
pow2_loop_lem zero n j h e l =
    let last : j ≡ 63 = omega (arith, e) in
    let all : 2 ^ j ≡ 2 ^ 63 = ap (λ (i : ℕ). 2 ^ i) last in
    (
      j,
      omega (arith, last),
      rw (le→ltb (2 ^ j) n (omega (arith, all, h))) refl,
      omega (arith, all, h),
      l,
    )
pow2_loop_lem (suc rounds) n j h e l = elim (dec_lt (2 ^ j) n) [
  | no m ↦ (j, omega (arith, e), rw (le→ltb (2 ^ j) n (omega (arith, m))) refl, omega (arith, m), l)
  | yes m ↦
      let twice : 2 ^ suc j ≡ 2 ^ j * 2 = pow-suc 2 j in
      let below : suc j ≤ 63 = omega (arith, e) in
      let small : 2 ^ suc j ≤ 2 ^ 63 = pow-le-pow_right (omega arith) below in
      let exact : 2 ^ j * 2 % 2 ^ 64 ≡ 2 ^ suc j = omega (arith, twice, small) in
      rw (lt→ltb (2 ^ j) n m, exact)
        (pow2_loop_lem rounds n (suc j) h (omega (arith, e)) (inl (omega (arith, twice, m))))
]

-- For `n` up to 2 ^ 63, `rqc_pow2_upper` ends within 63 rounds and returns a power of two: one that
-- is at least `n` and less than twice `n`, or 1.
pub pow2_upper_lem :
    (n : ℕ)
    → n ≤ 2 ^ 63
    → (k : ℕ) × (k ≤ 63) × (pow2_upper n ≡ some (2 ^ k)) × (n ≤ 2 ^ k) × (2 ^ k < n + n ⊎ (k ≡ 0))
unfolding pow2_upper
pow2_upper_lem n h = rw (le→ltb 0x8000000000000000 n h) (pow2_loop_lem 63 n 0 h refl (inr refl))

-- The power is less than twice the capacity.
below_twice : (cap k : ℕ) → 1 < cap → 2 ^ k < cap + cap ⊎ (k ≡ 0) → 2 ^ k < cap + cap
below_twice cap k h (inl l) = l
below_twice cap k h (inr z) = let one : 2 ^ k ≡ 1 = rw z refl in omega (arith, one, h)

-- The bytes of fewer elements than those of twice the capacity
product : (n esize twice : ℕ) → n < twice → twice * esize ≤ 2 ^ 64 → n * esize ≤ n * esize % 2 ^ 64
product n zero twice h fits = omega arith
product n (suc e) twice h fits = omega (arith, mul-le-mul_right (suc e) h, fits)

module _ {ℓ} {A : Type ℓ} where
  -- For elements of at least a byte and a capacity up to 2 ^ 63, `rqc_rarray_create` makes a valid
  -- array with that room and no elements.
  pub rarray_create-IsValid :
      (memory : ℕ → A) (cap esize : ℕ)
      → 1 ≤ esize
      → cap ≤ 2 ^ 63
      → (ra : RingArray A) × (rarray_create memory cap esize ≡ some ra)
        × IsValid ra
        × (cap ≤ ra.cap)
        × (elements ra ≡ [])
  unfolding rarray_create
  rarray_create-IsValid memory cap esize h l =
      let (k, small, made, room, _) = pow2_upper_lem cap l in
      let some_size : (esize == 0) ≡ false = ground (arith, h) in
      let some_cap : (2 ^ k == 0) ≡ false = ne→== (2 ^ k) 0 (omega (arith, one-le-pow k 2)) in
      let sized : ltb 0 esize ≡ true = lt→ltb 0 esize h in
      let most : 2 ^ k ≤ 2 ^ 63 = pow-le-pow_right (omega arith) small in
      (
        record {
          buf = memory;
          allocated = 2 ^ k * esize % 2 ^ 64;
          esize = esize;
          cap = 2 ^ k;
          count = 0;
          offset = 0;
          mask = (2 ^ k + (2 ^ 64 - 1)) % 2 ^ 64;
        },
        rw (some_size, made, sized, some_cap, rarray_create) refl,
        unfold IsValid in
            (
              k,
              small,
              refl,
              omega (arith, one-le-pow k 2, most),
              one-le-pow k 2 (omega arith),
              omega arith,
            ),
        room,
        unfold elements tabulate in refl,
      )

  -- The copies put every element to its number, unless the array is full and its first element is
  -- not in the first slot.
  copied_from-slot :
      (ra : RingArray A) (j : ℕ)
      → IsValid ra
      → ra.offset ≡ 0 ⊎ ra.count < ra.cap
      → j < ra.count
      → copied_from ra j ≡ some (slot ra j)
  unfolding copied_from
  copied_from-slot ra j v h l =
      let end : masked ra (ra.offset + ra.count) ≡ slot ra ra.count =
        masked-slot ra ra.count v (unfold IsValid in v.5) in
      rw end (unfold slot IsValid in ground (arith, v, h, l))

  copied-old :
      (ra : RingArray A) (memory : ℕ → A) (j old : ℕ)
      → copied_from ra j ≡ some old
      → copied ra memory j ≡ ra.buf old
  unfolding copied
  copied-old ra memory j old e = rw (e, copied) refl

  -- The memory of the array holds its capacity of elements.
  unfoldable pub HasRoom : RingArray A → Type 0
  HasRoom ra = ra.cap * ra.esize ≤ ra.allocated

  -- A larger array, with the copies in the first slots.
  resized :
      (ra : RingArray A) (memory : ℕ → A) (cap : ℕ)
      → IsValid ra
      → ra.cap < cap
      → cap ≤ 2 ^ 63
      → (ra' : RingArray A) × (rarray_resize ra memory cap ≡ some (success, ra'))
        × IsValid ra'
        × (cap ≤ ra'.cap)
        × (ra'.count ≡ ra.count)
        × ((cap + cap) * ra.esize ≤ 2 ^ 64 → HasRoom ra')
        × ((j : ℕ) → j < ra.count → element ra' j ≡ copied ra memory j)
  unfolding rarray_resize IsValid element slot
  resized ra memory cap v h l =
      let (k, small, made, room, tight) = pow2_upper_lem cap l in
      let c = cap_bound ra v in
      let fits : ltb cap ra.count ≡ false = le→ltb cap ra.count (omega (arith, v, h)) in
      let larger : leb cap ra.cap ≡ false = lt→leb ra.cap cap h in
      let some_cap : (2 ^ k == 0) ≡ false = ne→== (2 ^ k) 0 (omega (arith, one-le-pow k 2)) in
      let had_cap : (ra.cap == 0) ≡ false = ne→== ra.cap 0 (omega (arith, c)) in
      (
        record ra {
          buf = copied ra memory;
          allocated = 2 ^ k * ra.esize % 2 ^ 64;
          cap = 2 ^ k;
          mask = 2 ^ k - 1;
          offset = 0;
        },
        rw (fits, larger, made, some_cap, had_cap) refl,
        (k, small, refl, refl, one-le-pow k 2 (omega arith), omega (arith, v, h, room)),
        room,
        refl,
        λ fits.
            unfold HasRoom in
            product (2 ^ k) ra.esize (cap + cap) (below_twice cap k (omega (arith, c, h)) tight)
              fits,
        λ j m.
            let whole : 0 + j ≡ j = omega arith in
            let inside : ltb j (2 ^ k) ≡ true = lt→ltb j (2 ^ k) (omega (arith, v, h, room, m)) in
            rw (whole, inside) refl,
      )

  -- On a valid array whose memory holds its capacity, and that is not full or whose first element is
  -- in the first slot, `rqc_rarray_resize` to a capacity between the number of elements and 2 ^ 63,
  -- where twice that capacity has at most 2 ^ 64 bytes, keeps all elements, in their order, in a valid
  -- array of at least that capacity, which its memory holds.
  pub rarray_resize-elements :
      (ra : RingArray A) (memory : ℕ → A) (cap : ℕ)
      → IsValid ra
      → HasRoom ra
      → ra.offset ≡ 0 ⊎ ra.count < ra.cap
      → ra.count ≤ cap
      → cap ≤ 2 ^ 63
      → (cap + cap) * ra.esize ≤ 2 ^ 64
      → (ra' : RingArray A) × (rarray_resize ra memory cap ≡ some (success, ra'))
        × IsValid ra'
        × HasRoom ra'
        × (cap ≤ ra'.cap)
        × (elements ra' ≡ elements ra)
  unfolding rarray_resize
  rarray_resize-elements ra memory cap v had h c l fits = elim (dec_lt ra.cap cap) [
    | no m ↦ (
      ra,
      rw (le→ltb cap ra.count c, le→leb cap ra.cap (omega (arith, m))) refl,
      v,
      had,
      omega (arith, m),
      refl,
    )
    | yes m ↦
        let (ra', done, valid, room, same, enough, at_slot) = resized ra memory cap v m l in
        (
          ra',
          done,
          valid,
          enough fits,
          room,
          unfold elements in
              (ap (λ (n : ℕ). tabulate (element ra') 0 n) same
                ∙ tabulate-ext (element ra') (element ra) 0 ra.count (λ j _ i.
                  let inside : j < ra.count = omega (arith, i) in
                  at_slot j inside
                  ∙ (unfold element in
                      copied-old ra memory j _ (copied_from-slot ra j v h inside)))),
        )
  ]

  -- On a full valid array whose first element is not in the first slot, an element that stands
  -- around the end is not copied: `rqc_rarray_resize` reads behind the old buffer in its place.
  pub rarray_resize_overread :
      (ra : RingArray A) (memory : ℕ → A) (cap i : ℕ)
      → IsValid ra
      → ra.count ≡ ra.cap
      → 0 < ra.offset
      → ra.cap < cap
      → cap ≤ 2 ^ 63
      → ra.cap ≤ ra.offset + i
      → i < ra.count
      → (ra' : RingArray A) × (rarray_resize ra memory cap ≡ some (success, ra'))
        × (element ra' i ≡ ra.buf (ra.offset + i))
  unfolding rarray_resize
  rarray_resize_overread ra memory cap i v full o m l e h =
      let (ra', done, _, _, _, _, at_slot) = resized ra memory cap v m l in
      let end : masked ra (ra.offset + ra.count) ≡ slot ra ra.count =
        masked-slot ra ra.count v (omega (arith, full)) in
      let from : copied_from ra i ≡ some (ra.offset + i) =
        unfold copied_from in rw end (unfold slot IsValid in ground (arith, v, full, o, e, h)) in
      (ra', done, at_slot i h ∙ copied-old ra memory i _ from)

-- ===== src/RingArray.antt =====
-- src/common/utils/ringarray/rqc_ring_array.c: a ring array of slots, and rqc_pow2_upper of
-- src/common/rqc_common.h, which fixes its capacity. A pointer to an element is the number of its
-- slot; the callers write through it. `buf` is what memory holds in place of each slot: behind the bytes
-- that were allocated it is foreign memory, which a copy that does not fit overwrites.
pub mod Index
pub mod Tabulate
pub mod Refine
pub mod Push
pub mod Pop
pub mod Resize
mod Tests
use rquic.Base.{ℕ, zero, suc, ◌+◌, ◌-◌, ◌*◌, ◌%◌, ◌^◌, bit_and, Bool, true, false, ◌&&◌, ◌||◌}
use rquic.Base.{Option, none, some, ltb, leb, ◌==◌, if◌then◌else◌}

-- The loop of `rqc_pow2_upper`: `m = m << 1` on a uint64_t while `m < n`.
pub pow2_loop : ℕ → ℕ → ℕ → Option ℕ
pow2_loop zero n m = if ltb m n then none else some m
pow2_loop (suc rounds) n m =
    let further = pow2_loop rounds n (m * 2 % 2 ^ 64) in if ltb m n then further else some m

-- `rqc_pow2_upper`; 0 is RQC_POW2_UPPER_ERROR, and `none` a loop of more than 63 rounds.
pub pow2_upper : ℕ → Option ℕ
pow2_upper n = if ltb 0x8000000000000000 n then some 0 else pow2_loop 63 n 1

-- rqc_rarray_s; `allocated` is the number of bytes that rqc_malloc was asked for `buf`.
pub record RingArray {ℓ} (A : Type ℓ) : Type ℓ where
  pub buf : ℕ → A
  pub allocated : ℕ
  pub esize : ℕ
  pub cap : ℕ
  pub count : ℕ
  pub offset : ℕ
  pub mask : ℕ

-- RQC_OK, RQC_ERROR, -RQC_EPARAM, -RQC_EMALLOC
pub data Code : Type 0 where
  success error eparam emalloc : Code

module _ {ℓ} {A : Type ℓ} where
  -- `n & ra->mask` of a uint64_t
  pub masked : RingArray A → ℕ → ℕ
  masked ra n = bit_and (n % 2 ^ 64) ra.mask

  -- `rqc_rarray_create`, with the contents of the memory that rqc_malloc returns; `none` is NULL.
  pub rarray_create : (ℕ → A) → ℕ → ℕ → Option (RingArray A)
  rarray_create memory cap esize = elim (if esize == 0 then some 0 else pow2_upper cap) [
    | none ↦ none
    | some array_cap ↦
        if not_zero esize && array_cap == 0
        then none
        else some (record {
          buf = memory;
          allocated = array_cap * esize % 2 ^ 64;
          esize = esize;
          cap = array_cap;
          count = 0;
          offset = 0;
          mask = (array_cap + (2 ^ 64 - 1)) % 2 ^ 64;
        })
  ]
    where
      not_zero : ℕ → Bool
      not_zero n = ltb 0 n

  pub rarray_check_range : RingArray A → ℕ → Bool
  rarray_check_range ra offset =
      let eoffset = masked ra (ra.offset + ra.count) in
      if leb eoffset ra.offset
      then (if ra.count == 0 then false else leb ra.offset offset || ltb offset eoffset)
      else leb ra.offset offset && ltb offset eoffset

  pub rarray_get : RingArray A → ℕ → Option ℕ
  rarray_get ra idx =
      if leb ra.cap idx
      then none
      else (let offset = masked ra (idx + ra.offset) in
          if rarray_check_range ra offset then some offset else none)

  pub rarray_size : RingArray A → ℕ
  rarray_size ra = ra.count

  pub rarray_full : RingArray A → Bool
  rarray_full ra = leb ra.cap ra.count

  pub rarray_front : RingArray A → Option ℕ
  rarray_front ra = if ra.count == 0 then none else some ra.offset

  pub rarray_push : RingArray A → Option (ℕ × RingArray A)
  rarray_push ra =
      if leb ra.cap ra.count
      then none
      else some (masked ra (ra.offset + ra.count), record ra { count = ra.count + 1 })

  pub rarray_push_front : RingArray A → Option (ℕ × RingArray A)
  rarray_push_front ra =
      if leb ra.cap ra.count
      then none
      else (let offset = masked ra (ra.offset + (2 ^ 64 - 1)) in
          some (offset, record ra { count = ra.count + 1; offset = offset }))

  pub rarray_pop_front : RingArray A → Code × RingArray A
  rarray_pop_front ra =
      if ra.count == 0
      then (error, ra)
      else (success, record ra { offset = masked ra (ra.offset + 1); count = ra.count - 1 })

  pub rarray_pop_back : RingArray A → Code × RingArray A
  rarray_pop_back ra =
      if ra.count == 0 then (error, ra) else (success, record ra { count = ra.count - 1 })

  pub rarray_pop_from : RingArray A → ℕ → Code × RingArray A
  rarray_pop_from ra idx =
      if leb ra.count idx then (error, ra) else (success, record ra { count = idx })

  -- The old slot that `rqc_rarray_resize` copies to slot `i`, by one memcpy or by two.
  pub copied_from : RingArray A → ℕ → Option ℕ
  copied_from ra i =
      let end = masked ra (ra.offset + ra.count) in
      if leb ra.offset end
      then (if ltb i ra.count then some (ra.offset + i) else none)
      else (if ltb i (ra.cap - ra.offset)
          then some (ra.offset + i)
          else if ltb i (ra.cap - ra.offset + end)
          then some (i - (ra.cap - ra.offset))
          else none)

  pub copied : RingArray A → (ℕ → A) → ℕ → A
  copied ra memory i = elim (copied_from ra i) [ none ↦ memory i | some old ↦ ra.buf old ]

  -- With the contents of the new memory; `none` as in `pow2_upper`.
  pub rarray_resize : RingArray A → (ℕ → A) → ℕ → Option (Code × RingArray A)
  rarray_resize ra memory cap =
      if ltb cap ra.count
      then some (eparam, ra)
      else if leb cap ra.cap
      then some (success, ra)
      else elim (pow2_upper cap) [
        | none ↦ none
        | some array_cap ↦
            if array_cap == 0
            then some (emalloc, ra)
            else some (
              success,
              record ra {
                buf = if ra.cap == 0 then memory else copied ra memory;
                allocated = array_cap * ra.esize % 2 ^ 64;
                cap = array_cap;
                mask = array_cap - 1;
                offset = 0;
              },
            )
      ]

  -- `rqc_memzero` over the slots, with the element of zero bytes.
  pub rarray_reinit : A → RingArray A → RingArray A
  rarray_reinit zeroed ra = record ra {
    buf = λ i. if ltb i ra.cap then zeroed else ra.buf i;
    count = 0;
    offset = 0;
  }

  -- What a caller writes through the pointer to a slot.
  pub write : RingArray A → ℕ → A → RingArray A
  write ra slot x = record ra { buf = λ i. if i == slot then x else ra.buf i }

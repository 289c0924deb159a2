-- ===== src/RingArray/Tests.antt =====
-- Runs of the ring array, and its theorems at concrete inputs.
use rquic.Base.{ℕ, ◌+◌, ◌-◌, ◌^◌, ◌≤◌, ◌<◌, ◌≡◌, refl, arith, ◌⊎◌, inr, some, [], ◌∷◌, ◌++◌}
use rquic.RingArray.{RingArray, success, write, pow2_upper, rarray_push, rarray_push_front}
use rquic.RingArray.{rarray_create, rarray_resize, pow2_loop, masked}
use rquic.RingArray.Index.{IsValid}
use rquic.RingArray.Refine.{element, elements}
use rquic.RingArray.Push.{rarray_push_lem, rarray_push_front_lem}
use rquic.RingArray.Resize.{HasRoom, pow2_upper_lem, rarray_resize-elements, rarray_resize_overread}

-- Eight slots, of which the last one and the first two are in use.
abbrev memory : ℕ → ℕ
memory i = i + 100

abbrev three : RingArray ℕ
three = record { buf = memory; allocated = 64; esize = 8; cap = 8; count = 3; offset = 7; mask = 7 }

three-IsValid : IsValid three
unfolding IsValid
three-IsValid = (3, omega arith, refl, refl, omega arith, omega arith)

three-HasRoom : HasRoom three
unfolding HasRoom
three-HasRoom = omega arith

abbrev eight : RingArray ℕ
eight = record { buf = memory; allocated = 64; esize = 8; cap = 8; count = 8; offset = 7; mask = 7 }

eight-IsValid : IsValid eight
unfolding IsValid
eight-IsValid = (3, omega arith, refl, refl, omega arith, omega arith)

upper_run : pow2_upper 5 ≡ some 8
unfolding pow2_upper pow2_loop
upper_run = refl

push_run : rarray_push three ≡ some (2, record three { count = 4 })
unfolding rarray_push masked
push_run = refl

-- The size that is asked for wraps around: no bytes for 2 ^ 61 elements of 8 bytes.
no_bytes :
    rarray_create memory (2 ^ 61) 8
    ≡ some (record {
      buf = memory;
      allocated = 0;
      esize = 8;
      cap = 2 ^ 61;
      count = 0;
      offset = 0;
      mask = 2 ^ 61 - 1;
    })
unfolding rarray_create pow2_upper pow2_loop
no_bytes = refl

pow2_upper_lem_example :
    (k : ℕ) × (k ≤ 63) × (pow2_upper 5 ≡ some (2 ^ k)) × (5 ≤ 2 ^ k) × (2 ^ k < 5 + 5 ⊎ (k ≡ 0))
pow2_upper_lem_example = pow2_upper_lem 5 (omega arith)

rarray_push_lem_example :
    (p : ℕ) × (ra' : RingArray ℕ) × (rarray_push three ≡ some (p, ra'))
    × IsValid (write ra' p 5)
    × (elements (write ra' p 5) ≡ elements three ++ 5 ∷ [])
rarray_push_lem_example = rarray_push_lem three 5 three-IsValid (omega arith)

rarray_push_front_lem_example :
    (p : ℕ) × (ra' : RingArray ℕ) × (rarray_push_front three ≡ some (p, ra'))
    × IsValid (write ra' p 5)
    × (elements (write ra' p 5) ≡ 5 ∷ elements three)
rarray_push_front_lem_example = rarray_push_front_lem three 5 three-IsValid (omega arith)

rarray_resize-elements_example :
    (ra' : RingArray ℕ) × (rarray_resize three memory 12 ≡ some (success, ra'))
    × IsValid ra'
    × HasRoom ra'
    × (12 ≤ ra'.cap)
    × (elements ra' ≡ elements three)
rarray_resize-elements_example =
    rarray_resize-elements three memory 12 three-IsValid three-HasRoom (inr (omega arith))
      (omega arith) (omega arith) (omega arith)

rarray_resize_overread_example :
    (ra' : RingArray ℕ) × (rarray_resize eight memory 12 ≡ some (success, ra'))
    × (element ra' 1 ≡ eight.buf (eight.offset + 1))
rarray_resize_overread_example =
    rarray_resize_overread eight memory 12 1 eight-IsValid refl (omega arith) (omega arith)
      (omega arith) (omega arith) (omega arith)

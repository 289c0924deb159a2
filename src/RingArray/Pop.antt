-- ===== src/RingArray/Pop.antt =====
-- rqc_rarray_pop_front, rqc_rarray_pop_back and rqc_rarray_pop_from on the list of the elements.
use rquic.Base.{ℕ, suc, ◌+◌, ◌-◌, ◌<◌, ◌≡◌, sym, ap, ◌∙◌, arith}
use rquic.Base.{true, false, ◌==◌, lt→leb, le→leb, ne→==, dec_lt}
use rquic.Base.{take, drop}
use rquic.RingArray.{RingArray, masked}
use rquic.RingArray.{rarray_pop_front, rarray_pop_back, rarray_pop_from}
use rquic.RingArray.Index.{IsValid, slot, masked-slot}
use rquic.RingArray.Tabulate.{
  tabulate-ext, tabulate-shift, take-tabulate, take-tabulate_all, tabulate-none, drop-tabulate,
}
use rquic.RingArray.Refine.{element, elements}

module _ {ℓ} {A : Type ℓ} where
  second_slot :
      (ra : RingArray A) (j : ℕ)
      → IsValid ra
      → suc j < ra.count
      → slot (record ra { offset = slot ra 1; count = ra.count - 1 }) j ≡ slot ra (suc j)
  unfolding slot IsValid
  second_slot ra j v h = ground (arith, v, h)

  -- On a valid array `rqc_rarray_pop_front` leaves a valid array with all elements but the first, or
  -- none if there is none.
  pub rarray_pop_front_lem :
      (ra : RingArray A)
      → IsValid ra
      → IsValid (rarray_pop_front ra).1 × (elements (rarray_pop_front ra).1 ≡ drop 1 (elements ra))
  unfolding rarray_pop_front
  rarray_pop_front_lem ra v = elim (dec_lt 0 ra.count) [
    | no l ↦
        let empty : (ra.count == 0) ≡ true = ground (arith, l) in
        rw empty (v, unfold elements in tabulate-none (element ra) 0 ra.count (omega (arith, l)))
    | yes l ↦
        let next : masked ra (ra.offset + 1) ≡ slot ra 1 =
          masked-slot ra 1 v (unfold IsValid in omega (arith, v)) in
        rw (ne→== ra.count 0 (omega (arith, l)), next)
          (
            unfold IsValid slot in (v.0, v.1, v.2, v.3, ground (arith, v), omega (arith, v)),
            unfold elements element in
                sym (
                  drop-tabulate (element ra) 0 ra.count
                  ∙ (tabulate-shift (element ra) 0 (ra.count - 1)
                      ∙ tabulate-ext _ _ 0 (ra.count - 1)
                          (λ j _ m. ap ra.buf (sym (second_slot ra j v (omega (arith, m))))))),
          )
  ]

  -- On a valid array `rqc_rarray_pop_from` leaves a valid array with the elements before `idx`.
  pub rarray_pop_from_lem :
      (ra : RingArray A) (idx : ℕ)
      → IsValid ra
      → IsValid (rarray_pop_from ra idx).1
        × (elements (rarray_pop_from ra idx).1 ≡ take idx (elements ra))
  unfolding rarray_pop_from
  rarray_pop_from_lem ra idx v = elim (dec_lt idx ra.count) [
    | yes l ↦ rw (lt→leb idx ra.count l) (
      unfold IsValid in (v.0, v.1, v.2, v.3, v.4, omega (arith, v, l)),
      unfold elements element slot in
          sym (take-tabulate (element ra) 0 idx ra.count (omega (arith, l))),
    )
    | no l ↦ rw (le→leb ra.count idx (omega (arith, l))) (
      v,
      unfold elements in sym (take-tabulate_all (element ra) 0 idx ra.count (omega (arith, l))),
    )
  ]

  -- On a valid array `rqc_rarray_pop_back` leaves a valid array with all elements but the last.
  pub rarray_pop_back_lem :
      (ra : RingArray A)
      → IsValid ra
      → IsValid (rarray_pop_back ra).1
        × (elements (rarray_pop_back ra).1 ≡ take (ra.count - 1) (elements ra))
  unfolding rarray_pop_back
  rarray_pop_back_lem ra v = elim (dec_lt 0 ra.count) [
    | yes l ↦
        let some_left : (ra.count == 0) ≡ false = ground (arith, l) in
        rw some_left (
          unfold IsValid in (v.0, v.1, v.2, v.3, v.4, omega (arith, v, l)),
          unfold elements element slot in
              sym (take-tabulate (element ra) 0 (ra.count - 1) ra.count (omega (arith, l))),
        )
    | no l ↦
        let empty : (ra.count == 0) ≡ true = ground (arith, l) in
        rw empty (
          v,
          unfold elements in
              sym (take-tabulate_all (element ra) 0 (ra.count - 1) ra.count (omega (arith, l))),
        )
  ]

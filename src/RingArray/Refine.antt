-- ===== src/RingArray/Refine.antt =====
-- The ring array as a list: what each operation does to the elements from the first to the last.
use rquic.Base.{ℕ, ◌+◌, ◌<◌, ◌≡◌, refl, arith}
use rquic.Base.{true, false, ltb, ◌==◌, if◌then◌else◌, lt→ltb, le→ltb, le→leb, dec_lt, none, some}
use rquic.Base.{List, get_elem?}
use rquic.RingArray.{RingArray, masked, rarray_check_range, rarray_get}
use rquic.RingArray.Index.{IsValid, slot, masked-slot}
use rquic.RingArray.Tabulate.{tabulate, get_elem?-tabulate}

module _ {ℓ} {A : Type ℓ} where
  unfoldable pub element : RingArray A → ℕ → A
  element ra i = ra.buf (slot ra i)

  -- The elements, first to last.
  unfoldable pub elements : RingArray A → List A
  elements ra = tabulate (element ra) 0 ra.count

  -- Different elements stand in different slots.
  pub slot_apart :
      (ra : RingArray A) (i j : ℕ)
      → IsValid ra
      → i < j
      → j < ra.cap
      → (slot ra i == slot ra j) ≡ false
  slot_apart ra i j v h l = unfold slot IsValid in ground (arith, h, l, v)

  -- On a valid array, `rqc_rarray_get` finds the slot of element `idx` if there is such an element,
  -- and returns NULL for every other index.
  pub rarray_get-slot :
      (ra : RingArray A) (idx : ℕ)
      → IsValid ra
      → rarray_get ra idx ≡ (if ltb idx ra.count then some (slot ra idx) else none)
  unfolding rarray_get rarray_check_range
  rarray_get-slot ra idx v = elim (dec_lt idx ra.cap) [
    | no l ↦ rw (le→leb ra.cap idx (omega (arith, l))) (unfold IsValid in ground (arith, l, v))
    | yes l ↦
        let at_idx : masked ra (idx + ra.offset) ≡ slot ra idx =
          let flip : idx + ra.offset ≡ ra.offset + idx = omega arith in
          rw flip (masked-slot ra idx v (omega (arith, l))) in
        let at_end : masked ra (ra.offset + ra.count) ≡ slot ra ra.count =
          unfold IsValid in masked-slot ra ra.count v v.5 in
        rw (at_idx, at_end) (unfold IsValid slot in ground (arith, l, v))
  ]

  -- On a valid array, what stands behind the pointer of `rqc_rarray_get` is element `idx` of the
  -- elements, and NULL comes back exactly where there is none.
  pub rarray_get-elements :
      (ra : RingArray A) (idx : ℕ)
      → IsValid ra
      → elim (rarray_get ra idx) [ none ↦ none | some p ↦ some (ra.buf p) ]
        ≡ get_elem? (elements ra) idx
  unfolding elements
  rarray_get-elements ra idx v = elim (dec_lt idx ra.count) [
    | yes l ↦
        let inside : ltb idx ra.count ≡ true = lt→ltb idx ra.count l in
        rw (rarray_get-slot ra idx v, get_elem?-tabulate (element ra) 0 ra.count idx, inside)
          (unfold element in (let whole : 0 + idx ≡ idx = omega arith in rw whole refl))
    | no l ↦
        let outside : ltb idx ra.count ≡ false = le→ltb idx ra.count (omega (arith, l)) in
        rw (rarray_get-slot ra idx v, get_elem?-tabulate (element ra) 0 ra.count idx, outside) refl
  ]

-- ===== src/RingArray/Push.antt =====
-- rqc_rarray_push and rqc_rarray_push_front on the list of the elements.
use rquic.Base.{ℕ, suc, ◌+◌, ◌-◌, ◌^◌, ◌<◌, ◌≡◌, refl, ap, ap₂, ◌∙◌, arith}
use rquic.Base.{true, false, leb, ◌==◌, if◌then◌else◌, lt→leb, le→leb, ==_self, none, some}
use rquic.Base.{List, [], ◌∷◌, ◌++◌}
use rquic.RingArray.{RingArray, masked, write, rarray_push, rarray_push_front}
use rquic.RingArray.{rarray_full}
use rquic.RingArray.Index.{IsValid, slot, masked-slot, masked_back}
use rquic.RingArray.Tabulate.{tabulate, tabulate-ext, tabulate-shift, tabulate-last}
use rquic.RingArray.Refine.{element, elements, slot_apart}

module _ {ℓ} {A : Type ℓ} where
  push_elements :
      (ra : RingArray A) (x : A)
      → IsValid ra
      → ra.count < ra.cap
      → elements (write (record ra { count = ra.count + 1 }) (slot ra ra.count) x)
        ≡ elements ra ++ x ∷ []
  unfolding elements element write slot
  push_elements ra x v h =
      tabulate-last _ 0 ra.count
      ∙ ap₂ (λ (l : List A) (y : A). l ++ y ∷ [])
          (tabulate-ext _ (element ra) 0 ra.count
            (λ j _ l. rw (slot_apart ra j ra.count v (omega (arith, l)) h) refl))
          (let whole : 0 + ra.count ≡ ra.count = omega arith in
            rw (whole, ==_self (slot ra ra.count)) refl)

  push_at :
      (ra : RingArray A) (x : A)
      → IsValid ra
      → ra.count < ra.cap
      → elements (write (record ra { count = ra.count + 1 }) (masked ra (ra.offset + ra.count)) x)
        ≡ elements ra ++ x ∷ []
  push_at ra x v h =
      let end : masked ra (ra.offset + ra.count) ≡ slot ra ra.count =
        masked-slot ra ra.count v (omega (arith, h)) in
      rw end (push_elements ra x v h)

  -- On a full array `rqc_rarray_push` and `rqc_rarray_push_front` return NULL.
  pub rarray_push_full :
      (ra : RingArray A)
      → ra.count ≡ ra.cap
      → (rarray_push ra ≡ none) × (rarray_push_front ra ≡ none) × (rarray_full ra ≡ true)
  unfolding rarray_push rarray_push_front rarray_full
  rarray_push_full ra h =
      let full : leb ra.cap ra.count ≡ true = le→leb ra.cap ra.count (omega (arith, h)) in
      rw full (refl, refl, refl)

  -- On a valid array that is not full, `rqc_rarray_push` succeeds and leaves the array valid; what the
  -- caller writes through the pointer is the new last element, behind all others.
  pub rarray_push_lem :
      (ra : RingArray A) (x : A)
      → IsValid ra
      → ra.count < ra.cap
      → (p : ℕ) × (ra' : RingArray A) × (rarray_push ra ≡ some (p, ra'))
        × IsValid (write ra' p x)
        × (elements (write ra' p x) ≡ elements ra ++ x ∷ [])
  unfolding rarray_push
  rarray_push_lem ra x v h = (
    masked ra (ra.offset + ra.count),
    record ra { count = ra.count + 1 },
    rw (lt→leb ra.count ra.cap h) refl,
    unfold IsValid write in (v.0, v.1, v.2, v.3, v.4, omega (arith, h)),
    push_at ra x v h,
  )

  -- The slot before the first.
  before_first : RingArray A → ℕ
  before_first ra = if ra.offset == 0 then ra.cap - 1 else ra.offset - 1

  -- Seen from there every element is one further.
  front_slots :
      (ra : RingArray A) (j : ℕ)
      → IsValid ra
      → j < ra.count
      → ra.count < ra.cap
      → (slot (record ra { count = ra.count + 1; offset = before_first ra }) (suc j) ≡ slot ra j)
        × ((slot ra j == before_first ra) ≡ false)
  unfolding slot before_first IsValid
  front_slots ra j v h l = ground (arith, v, h, l)

  first_slot :
      (ra : RingArray A)
      → IsValid ra
      → ra.count < ra.cap
      → (before_first ra < ra.cap)
        × (slot (record ra { count = ra.count + 1; offset = before_first ra }) 0 ≡ before_first ra)
  unfolding slot before_first IsValid
  first_slot ra v l = ground (arith, v, l)

  push_front_elements :
      (ra : RingArray A) (x : A)
      → IsValid ra
      → ra.count < ra.cap
      → let ra' = record ra { count = ra.count + 1; offset = before_first ra } in
        IsValid (write ra' (before_first ra) x)
        × (elements (write ra' (before_first ra) x) ≡ x ∷ elements ra)
  unfolding elements element write IsValid tabulate slot
  push_front_elements ra x v h =
      let first = first_slot ra v h in
      let more : ra.count + 1 ≡ suc ra.count = omega arith in
      let f : ℕ → A = element (
        write (record ra { count = ra.count + 1; offset = before_first ra }) (before_first ra) x) in
      (
        (v.0, v.1, v.2, v.3, first.0, omega (arith, h)),
        ap (λ (n : ℕ). tabulate f 0 n) more
            ∙ ap₂ ◌∷◌ (rw (first.1, ==_self (before_first ra)) refl) (
                tabulate-shift f 0 ra.count
                ∙ tabulate-ext _ (element ra) 0 ra.count (λ j _ l.
                  let s = front_slots ra j v (omega (arith, l)) h in rw (s.0, s.1) refl)),
      )

  -- On a valid array that is not full, `rqc_rarray_push_front` succeeds and leaves the array valid;
  -- what the caller writes through the pointer is the new first element, before all others.
  pub rarray_push_front_lem :
      (ra : RingArray A) (x : A)
      → IsValid ra
      → ra.count < ra.cap
      → (p : ℕ) × (ra' : RingArray A) × (rarray_push_front ra ≡ some (p, ra'))
        × IsValid (write ra' p x)
        × (elements (write ra' p x) ≡ x ∷ elements ra)
  unfolding rarray_push_front
  rarray_push_front_lem ra x v h = (
    masked ra (ra.offset + (2 ^ 64 - 1)),
    record ra { count = ra.count + 1; offset = masked ra (ra.offset + (2 ^ 64 - 1)) },
    rw (lt→leb ra.count ra.cap h) refl,
    rw (masked_back ra v) (unfold before_first in (push_front_elements ra x v h).0),
    rw (masked_back ra v) (unfold before_first in (push_front_elements ra x v h).1),
  )

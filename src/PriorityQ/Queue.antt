-- ===== src/PriorityQ/Queue.antt =====
-- What the operations of the priority queue do: the order, and the elements, which are counted by
-- any test.
use rquic.Base.{
  ℕ, zero, suc, ◌+◌, ◌-◌, ◌^◌, ◌≤◌, ◌<◌, ◌≡◌, refl, sym, ap, ◌∙◌, arith, Bool, true, false,
}
use rquic.Base.{dec_lt, ℕ_discrete, ne→==, ◌==◌, ==_iff, some, if◌then◌else◌, ◌*◌, ◌%◌}
use rquic.Base.Count.{bit}
use rquic.PriorityQ.{
  Element, Pq, put, parent, bottom_loop, move_towards_top, move_towards_bottom, pq_push, pq_pop,
  pq_top, grow,
}
use rquic.PriorityQ.Order.{Strict, Under, IsHeap, put-at, put-other, Under-at}
use rquic.PriorityQ.Up.{Rising, top_loop-IsHeap, top_loop-follows, top_loop-bound}
use rquic.PriorityQ.Down.{Sinking, bottom_loop-IsHeap}
use rquic.PriorityQ.Tally.{
  tally, tally-beyond, tally-put, tally-top_loop, tally-bottom_loop, tally-last,
}
use native.Mathlib.Nat.{mul-le-mul_left}

-- The elements that pass a test.
unfoldable pub held : (Element → Bool) → Pq → ℕ
held p pq = tally p pq.count pq.elements

-- The memory of the array holds its capacity of elements.
unfoldable pub HasRoom : Pq → Type 0
HasRoom pq = pq.capacity * pq.element_size ≤ pq.allocated

module _ (cmp : ℕ → ℕ → Bool) where
  -- The array has room for the elements, and they form a heap.
  unfoldable pub IsValid : Pq → Type 0
  IsValid pq = (1 ≤ pq.capacity) × (pq.count ≤ pq.capacity) × IsHeap cmp pq.count pq.elements

  -- The first element of a heap is not below any.
  root_first :
      (o : Strict cmp) (fuel n : ℕ) (e : ℕ → Element) (i : ℕ)
      → i ≤ fuel
      → i < n
      → 1 ≤ i
      → IsHeap cmp n e
      → Under cmp e 0 i
  unfolding IsHeap
  root_first o zero n e i f l one h = absurd (omega (arith, f, one))
  root_first o (suc fuel) n e i f l one h = elim (ℕ_discrete (parent i) 0) [
    | yes z ↦ Under-at cmp e 0 i (e (parent i)) (e i) (ap e (sym z)) refl (h i one l)
    | no z ↦
        o.negative _ _ _
          (root_first o fuel n e (parent i) (omega (arith, f, one)) (omega (arith, l))
            (omega (arith, z)) h)
          (h i one l)
  ]

-- A new last element disturbs nothing but its own place.
last_Rising :
    (cmp : ℕ → ℕ → Bool) (o : Strict cmp) (n : ℕ) (e : ℕ → Element) (x : Element)
    → IsHeap cmp n e
    → Rising cmp o (n + 1) (put e n x) n
unfolding Rising IsHeap
last_Rising cmp o n e x h = (
  λ j one l ne.
      Under-at cmp (put e n x) (parent j) j (e (parent j)) (e j)
        (put-other e n (parent j) x (λ c. omega (arith, c, l, one))) (put-other e n j x ne)
        (h j one (omega (arith, l, ne))),
  λ j one l c. absurd (omega (arith, c, l, one)),
)

-- The array that rqc_pq_push writes the new element to.
roomy_lem :
    (pq : Pq)
    → 1 ≤ pq.capacity
    → pq.count ≤ pq.capacity
    → HasRoom pq
    → 1 ≤ pq.element_size
    → pq.capacity * 2 * pq.element_size < 2 ^ 64
    → let roomy = if pq.count == pq.capacity then grow pq else pq in
      (1 ≤ roomy.capacity) × (pq.count + 1 ≤ roomy.capacity) × HasRoom roomy
unfolding grow HasRoom
roomy_lem pq one full room sized fits =
    let least : pq.capacity * 2 ≤ pq.capacity * 2 * pq.element_size =
      omega (arith, mul-le-mul_left (pq.capacity * 2) sized) in
    let capacity : pq.capacity * 2 % 2 ^ 64 ≡ pq.capacity * 2 = omega (arith, least, fits) in
    let bytes : pq.capacity * 2 * pq.element_size % 2 ^ 64 ≡ pq.capacity * 2 * pq.element_size =
      omega (arith, fits) in
    rw (capacity, bytes) (ground (arith, one, full, room))

-- For an order that is a strict weak order: on a well-formed queue of fewer than 2 ^ 32 elements,
-- whose memory holds its capacity, of elements of at least a byte, and where twice the capacity has
-- less than 2 ^ 64 bytes, rqc_pq_push leaves a well-formed queue whose memory holds its capacity, with
-- the new element besides the old ones, whichever test counts them, and returns the place of the new
-- element.
pub pq_push_lem :
    (cmp : ℕ → ℕ → Bool) (pq : Pq) (x : Element)
    → Strict cmp
    → IsValid cmp pq
    → HasRoom pq
    → pq.count < 2 ^ 32
    → 1 ≤ pq.element_size
    → pq.capacity * 2 * pq.element_size < 2 ^ 64
    → IsValid cmp (pq_push cmp pq x).1
      × HasRoom (pq_push cmp pq x).1
      × ((p : Element → Bool) → held p (pq_push cmp pq x).1 ≡ held p pq + bit (p x))
      × ((pq_push cmp pq x).1.elements (pq_push cmp pq x).0 ≡ x)
      × ((pq_push cmp pq x).0 < (pq_push cmp pq x).1.count)
unfolding pq_push move_towards_top IsValid HasRoom held tally
pq_push_lem cmp pq x o v room small sized fits =
    let n : ℕ = pq.count in
    let e : ℕ → Element = put pq.elements n x in
    let index : pq.count % 2 ^ 32 ≡ pq.count = omega (arith, small) in
    let r = roomy_lem pq v.0 v.1 room sized fits in
    rw index (
      (
        r.0,
        r.1,
        top_loop-IsHeap cmp o n (n + 1) e n (omega arith) (omega arith)
            (last_Rising cmp o n pq.elements x v.2),
      ),
      r.2,
      λ p.
          tally-top_loop p cmp n (n + 1) e n (omega arith)
          ∙ omega (
            arith,
            tally-last p n (n + 1) e (omega arith),
            tally-beyond p n n pq.elements x (omega arith),
            ap (λ (y : Element). bit (p y)) (put-at pq.elements n x),
          ),
      top_loop-follows cmp n e n ∙ put-at pq.elements n x,
      top_loop-bound cmp n (n + 1) e n (omega arith),
    )

-- The last element in the place of the first.
first_Sinking :
    (cmp : ℕ → ℕ → Bool) (o : Strict cmp) (n m : ℕ) (e : ℕ → Element) (x : Element)
    → n ≤ m
    → IsHeap cmp m e
    → Sinking cmp o n (put e 0 x) 0
unfolding Sinking IsHeap
first_Sinking cmp o n m e x le h = (
  λ j one l ne.
      Under-at cmp (put e 0 x) (parent j) j (e (parent j)) (e j) (put-other e 0 (parent j) x ne)
        (put-other e 0 j x (λ c. omega (arith, c, one))) (h j one (omega (arith, l, le))),
  λ j one l c z. absurd (omega (arith, z)),
)

pop_one :
    (cmp : ℕ → ℕ → Bool) (pq : Pq)
    → pq.count ≡ 1
    → pq_pop cmp pq ≡ record pq { count = pq.count - 1 }
unfolding pq_pop
pop_one cmp pq h =
    let t : (pq.count == 0) ≡ false = ne→== _ _ (λ c. omega (arith, c, h)) in
    let u : (pq.count - 1 == 0) ≡ true = (==_iff _ _).1 (omega (arith, h)) in rw (t, u, pq_pop) refl

pop_more :
    (cmp : ℕ → ℕ → Bool) (pq : Pq)
    → 2 ≤ pq.count
    → pq_pop cmp pq ≡ record pq {
      elements =
          bottom_loop cmp
            (pq.count - 1)
            (pq.count - 1)
            (put pq.elements 0 (pq.elements (pq.count - 1)))
            0;
      count = pq.count - 1;
    }
unfolding pq_pop move_towards_bottom
pop_more cmp pq h =
    let t : (pq.count == 0) ≡ false = ne→== _ _ (λ c. omega (arith, c, h)) in
    let u : (pq.count - 1 == 0) ≡ false = ne→== _ _ (λ c. omega (arith, c, h)) in
    rw (t, u, pq_pop) refl

pq_top-some : (pq : Pq) → 1 ≤ pq.count → pq_top pq ≡ some (pq.elements 0)
unfolding pq_top
pq_top-some pq h =
    let t : (pq.count == 0) ≡ false = ne→== _ _ (λ c. omega (arith, c, h)) in rw (t, pq_top) refl

popped :
    (cmp : ℕ → ℕ → Bool) (pq : Pq)
    → Strict cmp
    → IsValid cmp pq
    → 1 ≤ pq.count
    → pq.count ≤ 2 ^ 31
    → IsValid cmp (pq_pop cmp pq)
      × ((pq_pop cmp pq).count + 1 ≡ pq.count)
      × ((p : Element → Bool) → held p (pq_pop cmp pq) + bit (p (pq.elements 0)) ≡ held p pq)
unfolding IsValid held
popped cmp pq o v one small =
    let n : ℕ = pq.count - 1 in
    let e : ℕ → Element = put pq.elements 0 (pq.elements n) in
    let whole : pq.count ≡ suc n = omega (arith, one) in
    elim (dec_lt 0 n) [
      | no z ↦ rw (pop_one cmp pq (omega (arith, one, z))) (
        (v.0, omega (arith, v.1), empty (pq.count - 1) (omega (arith, z))),
        omega (arith, one),
        λ p. omega (
          arith,
          tally-last p n pq.count pq.elements whole,
          ap (λ (m : ℕ). bit (p (pq.elements m))) (zero_of n z),
        ),
      )
      | yes z ↦ rw (pop_more cmp pq (omega (arith, z))) (
        (
          v.0,
          omega (arith, v.1),
          bottom_loop-IsHeap cmp o n n e 0 (omega (arith, small)) z (omega arith)
              (first_Sinking cmp o n pq.count pq.elements (pq.elements n) (omega arith) v.2),
        ),
        omega (arith, one),
        λ p. omega (
          arith,
          tally-bottom_loop p cmp o n n e 0 (omega (arith, small)) z,
          tally-put p n 0 pq.elements (pq.elements n) z,
          tally-last p n pq.count pq.elements whole,
        ),
      )
    ]
  where
    empty : (m : ℕ) → m ≡ 0 → IsHeap cmp m pq.elements
    empty m z = unfold IsHeap in λ i k l. absurd (omega (arith, l, z))

    zero_of : (m : ℕ) → ¬ (0 < m) → m ≡ 0
    zero_of m z = omega (arith, z)

-- For a strict weak order and a well-formed queue of 1 to 2 ^ 31 elements: the element that
-- rqc_pq_top returns is not below any, and rqc_pq_pop leaves a well-formed queue that holds all
-- elements but that one, whichever test counts them.
pub pq_pop_lem :
    (cmp : ℕ → ℕ → Bool) (pq : Pq)
    → Strict cmp
    → IsValid cmp pq
    → 1 ≤ pq.count
    → pq.count ≤ 2 ^ 31
    → (x : Element) × (pq_top pq ≡ some x)
      × ((i : ℕ) → i < pq.count → 1 ≤ i → cmp x.key (pq.elements i).key ≡ false)
      × IsValid cmp (pq_pop cmp pq)
      × ((pq_pop cmp pq).count + 1 ≡ pq.count)
      × ((p : Element → Bool) → held p (pq_pop cmp pq) + bit (p x) ≡ held p pq)
unfolding IsValid
pq_pop_lem cmp pq o v one small =
    let p = popped cmp pq o v one small in
    (
      pq.elements 0,
      pq_top-some pq one,
      λ i l k. root_first cmp o i pq.count pq.elements i (omega arith) l k v.2,
      p.0,
      p.1,
      p.2,
    )

-- ===== src/PriorityQ/Removal.antt =====
-- What rqc_pq_remove does to a well-formed queue.
use rquic.Base.{
  ℕ, zero, suc, ◌+◌, ◌-◌, ◌*◌, ◌%◌, ◌^◌, ◌≤◌, ◌<◌, ◌≡◌, refl, ap, ◌∙◌, arith, Bool, true, false,
}
use rquic.Base.{dec_lt, leb, ne→==, ◌==◌, lt→leb, ==_iff}
use rquic.Base.Count.{bit}
use rquic.PriorityQ.{
  Element, Pq, put, parent, at_rest, bottom_loop, top_loop, move_towards_top, move_towards_bottom,
  pq_remove,
}
use rquic.PriorityQ.Order.{Strict, Under, IsHeap, put-at, put-other, Under-at}
use rquic.PriorityQ.Tally.{
  tally, tally-beyond, tally-put, tally-top_loop, tally-bottom_loop, tally-last,
}
use rquic.PriorityQ.Queue.{IsValid, held}
use rquic.PriorityQ.Remove.{replaced-IsHeap}

remove_one :
    (cmp : ℕ → ℕ → Bool) (pq : Pq)
    → pq.count ≡ 1
    → pq_remove cmp pq 0 ≡ record pq { count = pq.count - 1 }
unfolding pq_remove
remove_one cmp pq h =
    let s : leb pq.count 0 ≡ false = lt→leb _ _ (omega (arith, h)) in
    let t : (pq.count == 0) ≡ false = ne→== _ _ (λ c. omega (arith, c, h)) in
    let u : (pq.count - 1 == 0) ≡ true = (==_iff _ _).1 (omega (arith, h)) in
    rw (s, t, u, pq_remove) refl

remove_more :
    (cmp : ℕ → ℕ → Bool) (pq : Pq) (index : ℕ)
    → 2 ≤ pq.count
    → index < pq.count
    → pq.count ≤ 2 ^ 31
    → pq_remove cmp pq index ≡ record pq {
      elements =
          (top_loop cmp index
            (bottom_loop cmp
              (pq.count - 1)
              (pq.count - 1)
              (put pq.elements index (pq.elements (pq.count - 1)))
              index)
            index).0;
      count = pq.count - 1;
    }
unfolding pq_remove move_towards_bottom move_towards_top
remove_more cmp pq index h l small =
    let word : index % 2 ^ 32 ≡ index = omega (arith, l, small) in
    let s : leb pq.count index ≡ false = lt→leb _ _ l in
    let t : (pq.count == 0) ≡ false = ne→== _ _ (λ c. omega (arith, c, h)) in
    let u : (pq.count - 1 == 0) ≡ false = ne→== _ _ (λ c. omega (arith, c, h)) in
    rw (s, t, u, word, pq_remove) refl

-- The place behind the heap has no children, and its old element is not above its parent.
behind_stays :
    (cmp : ℕ → ℕ → Bool) (k m n : ℕ) (e : ℕ → Element)
    → 1 ≤ n
    → n < 2 ^ 31
    → cmp (e (parent n)).key (e n).key ≡ false
    → (top_loop cmp k (bottom_loop cmp m n e n) n).0 ≡ e
unfolding top_loop bottom_loop at_rest
behind_stays cmp k m n e one small u = rw (low m) (high k)
  where
    low : (m : ℕ) → bottom_loop cmp m n e n ≡ e
    low zero = refl
    low (suc m) =
        let t : leb ((2 * n + 1) % 2 ^ 32) (n - 1) ≡ false =
          lt→leb _ _ (omega (arith, small, one)) in
        rw (t, bottom_loop) refl

    high : (k : ℕ) → (top_loop cmp k e n).0 ≡ e
    high zero = refl
    high (suc k) =
        let t : at_rest cmp e n ≡ true =
          rw (ne→== n 0 (λ c. omega (arith, c, one)), u, at_rest) refl in
        rw (t, top_loop) refl

-- The last element is removed: nothing moves.
remove_last :
    (cmp : ℕ → ℕ → Bool) (pq : Pq)
    → 2 ≤ pq.count
    → pq.count ≤ 2 ^ 31
    → IsHeap cmp pq.count pq.elements
    → pq_remove cmp pq (pq.count - 1) ≡ record pq {
      elements = put pq.elements (pq.count - 1) (pq.elements (pq.count - 1));
      count = pq.count - 1;
    }
unfolding IsHeap
remove_last cmp pq h small heap =
    let n : ℕ = pq.count - 1 in
    let e : ℕ → Element = put pq.elements n (pq.elements n) in
    let under : Under cmp e (parent n) n =
      Under-at cmp e (parent n) n (pq.elements (parent n)) (pq.elements n)
        (put-other pq.elements n (parent n) (pq.elements n) (λ d. omega (arith, d, h)))
        (put-at pq.elements n (pq.elements n)) (heap n (omega (arith, h)) (omega (arith, h))) in
    remove_more cmp pq n h (omega (arith, h)) small
    ∙ ap (λ (f : ℕ → Element). record pq { elements = f; count = pq.count - 1 })
        (behind_stays cmp n n n e (omega (arith, h)) (omega (arith, h, small)) under)

-- For a strict weak order and a well-formed queue of at most 2 ^ 31 elements: rqc_pq_remove of an
-- index of the queue leaves a well-formed queue that holds all elements but the one at that index,
-- whichever test counts them.
pub pq_remove_lem :
    (cmp : ℕ → ℕ → Bool) (pq : Pq) (index : ℕ)
    → Strict cmp
    → IsValid cmp pq
    → index < pq.count
    → pq.count ≤ 2 ^ 31
    → IsValid cmp (pq_remove cmp pq index)
      × ((pq_remove cmp pq index).count + 1 ≡ pq.count)
      × ((p : Element → Bool)
          → held p (pq_remove cmp pq index) + bit (p (pq.elements index)) ≡ held p pq)
unfolding IsValid held
pq_remove_lem cmp pq index o v l small =
    let n : ℕ = pq.count - 1 in
    let whole : pq.count ≡ suc n = omega (arith, l) in
    elim (dec_lt 1 pq.count) [
      | no z ↦
          let first : index ≡ 0 = omega (arith, l, z) in
          rw (first, remove_one cmp pq (omega (arith, l, z)))
            (
              (v.0, omega (arith, v.1), empty (pq.count - 1) (omega (arith, z))),
              omega (arith, l),
              λ p. omega (
                arith,
                tally-last p n pq.count pq.elements whole,
                ap (λ (m : ℕ). bit (p (pq.elements m))) (zero_of n (omega (arith, z))),
                nothing p n (omega (arith, z)) pq.elements,
              ),
            )
      | yes z ↦
          let e : ℕ → Element = put pq.elements index (pq.elements n) in
          elim (dec_lt index n) [
            | yes y ↦ rw (remove_more cmp pq index z l small) (
              (
                v.0,
                omega (arith, v.1),
                replaced-IsHeap cmp o n pq.elements index (pq.elements n) y (inner n (omega arith))
                    (omega (arith, small)),
              ),
              omega (arith, z),
              λ p. omega (
                arith,
                tally-top_loop p cmp index n (bottom_loop cmp n n e index) index y,
                tally-bottom_loop p cmp o n n e index (omega (arith, small)) y,
                tally-put p n index pq.elements (pq.elements n) y,
                tally-last p n pq.count pq.elements whole,
              ),
            )
            | no y ↦
                let last : index ≡ n = omega (arith, l, y) in
                let f : ℕ → Element = put pq.elements n (pq.elements n) in
                rw (last, remove_last cmp pq z small v.2)
                  (
                    (v.0, omega (arith, v.1), same n (omega arith)),
                    omega (arith, z),
                    λ p. omega (
                      arith,
                      tally-beyond p n n pq.elements (pq.elements n) (omega arith),
                      tally-last p n pq.count pq.elements whole,
                    ),
                  )
          ]
    ]
  where
    same : (m : ℕ) → m < pq.count → IsHeap cmp m (put pq.elements m (pq.elements m))
    same m h =
        unfold IsHeap in
        λ i k b.
          Under-at cmp (put pq.elements m (pq.elements m)) (parent i) i (pq.elements (parent i))
            (pq.elements i)
            (put-other pq.elements m (parent i) (pq.elements m) (λ d. omega (arith, d, b)))
            (put-other pq.elements m i (pq.elements m) (λ d. omega (arith, d, b)))
            (v.2 i k (omega (arith, b, h)))

    inner : (m : ℕ) → m ≤ pq.count → IsHeap cmp m pq.elements
    inner m h = unfold IsHeap in λ i k l. v.2 i k (omega (arith, l, h))

    empty : (m : ℕ) → m ≡ 0 → IsHeap cmp m pq.elements
    empty m z = inner m (omega (arith, z))

    zero_of : (m : ℕ) → m ≤ 0 → m ≡ 0
    zero_of m z = omega (arith, z)

    nothing : (p : Element → Bool) (m : ℕ) → m ≤ 0 → (e : ℕ → Element) → tally p m e ≡ 0
    nothing p m z e = unfold tally in (let q : m ≡ 0 = omega (arith, z) in rw q refl)

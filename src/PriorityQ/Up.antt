-- ===== src/PriorityQ/Up.antt =====
-- rqc_pq_move_towards_top makes a heap of one that only the element at `i` disturbs.
use rquic.Base.{ℕ, zero, suc, ◌≤◌, ◌<◌, ◌≡◌, ◌≢◌, refl, sym, ap, ◌∙◌, arith, Bool, true, false}
use rquic.Base.{Bool-cases, inl, inr, ne→==, ℕ_discrete}
use rquic.PriorityQ.{Element, put, swap, parent, at_rest, top_loop}
use rquic.PriorityQ.Order.{
  Strict, Under, IsHeap, swap-left, swap-right, swap-other, Under-at, put-at, put-other,
}

module _ (cmp : ℕ → ℕ → Bool) (o : Strict cmp) where
  -- Only the element at `i` may be above its parent, and its children are under that parent.
  unfoldable pub Rising : ℕ → (ℕ → Element) → ℕ → Type 0
  Rising count e i =
      ((j : ℕ) → 1 ≤ j → j < count → j ≢ i → Under cmp e (parent j) j)
      × ((j : ℕ) → 1 ≤ j → j < count → parent j ≡ i → 1 ≤ i → Under cmp e (parent i) j)

  -- One round.
  rise :
      (count : ℕ) (e : ℕ → Element) (i : ℕ)
      → 1 ≤ i
      → i < count
      → cmp (e (parent i)).key (e i).key ≡ true
      → Rising count e i
      → Rising count (swap e i (parent i)) (parent i)
  unfolding Rising
  rise count e i h l t r =
      let p : ℕ = parent i in
      let ne : p ≢ i = (λ c. omega (arith, c, h)) in
      let down = o.asym _ _ t in
      (
        λ j one k away. elim (ℕ_discrete j i) [
          | yes c ↦
              Under-at cmp (swap e i p) (parent j) j (e i) (e p)
                (ap (λ (n : ℕ). swap e i p (parent n)) c ∙ swap-right e i p ne)
                (ap (swap e i p) c ∙ swap-left e i p) down
          | no n ↦ elim (ℕ_discrete (parent j) p) [
            | yes c ↦
                Under-at cmp (swap e i p) (parent j) j (e i) (e j)
                  (ap (swap e i p) c ∙ swap-right e i p ne) (swap-other e i p j n away)
                  (o.negative _ _ _ down
                    (Under-at cmp e p j (e (parent j)) (e j) (ap e (sym c)) refl (r.0 j one k n)))
            | no n' ↦ elim (ℕ_discrete (parent j) i) [
              | yes c ↦
                  Under-at cmp (swap e i p) (parent j) j (e p) (e j)
                    (ap (swap e i p) c ∙ swap-left e i p) (swap-other e i p j n away)
                    (r.1 j one k c h)
              | no n'' ↦
                  Under-at cmp (swap e i p) (parent j) j (e (parent j)) (e j)
                    (swap-other e i p (parent j) n'' n') (swap-other e i p j n away) (r.0 j one k n)
            ]
          ]
        ],
        λ j one k c top.
            let above : Under cmp e (parent p) p = r.0 p top (omega (arith, l, h)) ne in
            let still =
              swap-other e i p (parent p) (λ d. omega (arith, d, h)) (λ d. omega (arith, d, top)) in
            elim (ℕ_discrete j i) [
              | yes d ↦
                  Under-at cmp (swap e i p) (parent p) j (e (parent p)) (e p) still
                    (ap (swap e i p) d ∙ swap-left e i p) above
              | no n ↦
                  Under-at cmp (swap e i p) (parent p) j (e (parent p)) (e j) still
                    (swap-other e i p j n (λ d. omega (arith, c, d, one)))
                    (o.negative _ _ _ above
                      (Under-at cmp e p j (e (parent j)) (e j) (ap e (sym c)) refl (r.0 j one k n)))
            ],
      )

  -- The loop ends with a heap.
  pub top_loop-IsHeap :
      (k count : ℕ) (e : ℕ → Element) (i : ℕ)
      → i ≤ k
      → i < count
      → Rising count e i
      → IsHeap cmp count (top_loop cmp k e i).0
  unfolding top_loop Rising IsHeap at_rest
  top_loop-IsHeap zero count e i h l r = λ j one c. r.0 j one c (λ d. omega (arith, d, h, one))
  top_loop-IsHeap (suc k) count e i h l r = elim (ℕ_discrete i 0) [
    | yes z ↦
        let t : at_rest cmp e i ≡ true = rw (z, at_rest) refl in
        rw t (λ j one c. r.0 j one c (λ d. omega (arith, d, z, one)))
    | no n ↦ elim (Bool-cases (cmp (e (parent i)).key (e i).key)) [
      | inl u ↦
          let t : at_rest cmp e i ≡ false = rw (ne→== i 0 n, u, at_rest) refl in
          rw t (
            top_loop-IsHeap k count (swap e i (parent i)) (parent i) (omega (arith, h, n))
              (omega (arith, l, n)) (rise count e i (omega (arith, n)) l u r))
      | inr u ↦
          let t : at_rest cmp e i ≡ true = rw (ne→== i 0 n, u, at_rest) refl in
          rw t (λ j one c. elim (ℕ_discrete j i) [ yes d ↦ rw d u | no d ↦ r.0 j one c d ])
    ]
  ]

module _ (cmp : ℕ → ℕ → Bool) where
  -- The element at `i` is at the place that the loop returns.
  pub top_loop-follows :
      (k : ℕ) (e : ℕ → Element) (i : ℕ) → (top_loop cmp k e i).0 (top_loop cmp k e i).1 ≡ e i
  unfolding top_loop at_rest swap
  top_loop-follows zero e i = refl
  top_loop-follows (suc k) e i = elim (ℕ_discrete i 0) [
    | yes z ↦ let t : at_rest cmp e i ≡ true = rw (z, at_rest) refl in rw (t, top_loop) refl
    | no z ↦ elim (Bool-cases (at_rest cmp e i)) [
      | inl t ↦ rw (t, top_loop) refl
      | inr t ↦
          rw (t, top_loop)
            (top_loop-follows k (swap e i (parent i)) (parent i)
              ∙ (put-other (put e (parent i) (e i)) i (parent i) (e (parent i))
                    (λ c. omega (arith, c, z))
                  ∙ put-at e (parent i) (e i)))
    ]
  ]

  pub top_loop-bound : (k n : ℕ) (e : ℕ → Element) (i : ℕ) → i < n → (top_loop cmp k e i).1 < n
  unfolding top_loop
  top_loop-bound zero n e i h = h
  top_loop-bound (suc k) n e i h = elim (Bool-cases (at_rest cmp e i)) [
    | inl t ↦ rw (t, top_loop) h
    | inr t ↦
        rw (t, top_loop) (top_loop-bound k n (swap e i (parent i)) (parent i) (omega (arith, h)))
  ]

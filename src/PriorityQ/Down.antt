-- ===== src/PriorityQ/Down.antt =====
-- rqc_pq_move_towards_bottom makes a heap of one that only the element at `i` disturbs from above.
use rquic.Base.{
  ℕ, zero, suc, ◌+◌, ◌-◌, ◌*◌, ◌%◌, ◌^◌, ◌≤◌, ◌<◌, ◌≡◌, ◌≢◌, refl, sym, ap, ◌∙◌, arith, Bool, true,
  false, ltb, leb,
}
use rquic.Base.{Bool-cases, inl, inr, dec_lt, ℕ_discrete, ltb→lt, ltb→le, lt→leb, le→leb}
use rquic.PriorityQ.{Element, swap, parent, child, bottom_loop}
use rquic.PriorityQ.Order.{Strict, Under, IsHeap, swap-left, swap-right, swap-other, Under-at}

module _ (cmp : ℕ → ℕ → Bool) (o : Strict cmp) where
  -- Only the children of `i` may be above it, and they are under its parent.
  unfoldable pub Sinking : ℕ → (ℕ → Element) → ℕ → Type 0
  Sinking count e i =
      ((j : ℕ) → 1 ≤ j → j < count → parent j ≢ i → Under cmp e (parent j) j)
      × ((j : ℕ) → 1 ≤ j → j < count → parent j ≡ i → 1 ≤ i → Under cmp e (parent i) j)

  -- The child that is chosen is in the heap, and no other child is above it.
  pub child_lem :
      (count : ℕ) (e : ℕ → Element) (i : ℕ)
      → count ≤ 2 ^ 31
      → 2 * i + 1 < count
      → (parent (child cmp count e i) ≡ i)
        × (i < child cmp count e i)
        × (child cmp count e i < count)
        × ((j : ℕ)
            → 1 ≤ j
            → j < count
            → parent j ≡ i
            → j ≢ child cmp count e i
            → Under cmp e (child cmp count e i) j)
  unfolding child
  child_lem count e i small l =
      let wrap : (2 * i + 1) % 2 ^ 32 ≡ 2 * i + 1 = omega (arith, small, l) in
      let next : (2 * i + 1 + 1) % 2 ^ 32 ≡ 2 * i + 1 + 1 = omega (arith, small, l) in
      elim (Bool-cases (ltb (2 * i + 1) (count - 1))) [
        | inr t ↦
            let is : child cmp count e i ≡ 2 * i + 1 = rw (wrap, t, child) refl in
            rw (wrap, t, child)
              (
                omega arith,
                omega arith,
                l,
                λ j one k p ne. absurd (omega (arith, ltb→le _ _ t, k, p, ne, one, l)),
              )
        | inl t ↦ elim (Bool-cases (cmp (e (2 * i + 1)).key (e (2 * i + 1 + 1)).key)) [
          | inl u ↦
              rw (wrap, next, t, u, child)
                (
                  omega arith,
                  omega arith,
                  omega (arith, ltb→lt _ _ t),
                  λ j one k p ne.
                      let at : 2 * i + 1 ≡ j = omega (arith, p, ne, one) in rw⁻¹ at (o.asym _ _ u),
                )
          | inr u ↦
              rw (wrap, next, t, u, child)
                (
                  omega arith,
                  omega arith,
                  l,
                  λ j one k p ne.
                      let at : 2 * i + 1 + 1 ≡ j = omega (arith, p, ne, one) in rw⁻¹ at u,
                )
        ]
      ]

  -- One round.
  sink :
      (count : ℕ) (e : ℕ → Element) (i c : ℕ)
      → i < c
      → c < count
      → parent c ≡ i
      → ((j : ℕ) → 1 ≤ j → j < count → parent j ≡ i → j ≢ c → Under cmp e c j)
      → cmp (e i).key (e c).key ≡ true
      → Sinking count e i
      → Sinking count (swap e i c) c
  unfolding Sinking
  sink count e i c h l pc best t s =
      let ne : c ≢ i = (λ d. omega (arith, d, h)) in
      (
        λ j one k away. elim (ℕ_discrete j i) [
          | yes d ↦
              Under-at cmp (swap e i c) (parent j) j (e (parent i)) (e c)
                (ap (λ (n : ℕ). swap e i c (parent n)) d
                  ∙ swap-other e i c (parent i) (λ x. omega (arith, x, one, d))
                      (λ x. omega (arith, x, h)))
                (ap (swap e i c) d ∙ swap-left e i c)
                (s.1 c (omega (arith, h)) l pc (omega (arith, d, one)))
          | no n ↦ elim (ℕ_discrete j c) [
            | yes d ↦
                Under-at cmp (swap e i c) (parent j) j (e c) (e i)
                  (ap (λ (n : ℕ). swap e i c (parent n)) d ∙ (ap (swap e i c) pc ∙ swap-left e i c))
                  (ap (swap e i c) d ∙ swap-right e i c ne) (o.asym _ _ t)
            | no n' ↦ elim (ℕ_discrete (parent j) i) [
              | yes d ↦
                  Under-at cmp (swap e i c) (parent j) j (e c) (e j)
                    (ap (swap e i c) d ∙ swap-left e i c) (swap-other e i c j n n')
                    (best j one k d n')
              | no n'' ↦
                  Under-at cmp (swap e i c) (parent j) j (e (parent j)) (e j)
                    (swap-other e i c (parent j) n'' away) (swap-other e i c j n n')
                    (s.0 j one k n'')
            ]
          ]
        ],
        λ j one k d top.
            Under-at cmp (swap e i c) (parent c) j (e c) (e j)
              (ap (swap e i c) pc ∙ swap-left e i c)
              (swap-other e i c j (λ x. omega (arith, x, d, h)) (λ x. omega (arith, x, d, one)))
              (Under-at cmp e c j (e (parent j)) (e j) (ap e (sym d)) refl
                (s.0 j one k (λ x. omega (arith, x, d, h)))),
      )

  -- The loop ends with a heap.
  pub bottom_loop-IsHeap :
      (k count : ℕ) (e : ℕ → Element) (i : ℕ)
      → count ≤ 2 ^ 31
      → i < count
      → count ≤ i + k
      → Sinking count e i
      → IsHeap cmp count (bottom_loop cmp k count e i)
  unfolding bottom_loop Sinking IsHeap
  bottom_loop-IsHeap zero count e i small l fuel s = absurd (omega (arith, l, fuel))
  bottom_loop-IsHeap (suc k) count e i small l fuel s = elim (dec_lt (2 * i + 1) count) [
    | no n ↦
        let t : leb ((2 * i + 1) % 2 ^ 32) (count - 1) ≡ false =
          lt→leb _ _ (omega (arith, n, small, l)) in
        rw (t, bottom_loop) (λ j one c. s.0 j one c (λ d. omega (arith, d, n, c, one)))
    | yes y ↦
        let c = child_lem count e i small y in
        let t : leb ((2 * i + 1) % 2 ^ 32) (count - 1) ≡ true =
          le→leb _ _ (omega (arith, y, small)) in
        elim (Bool-cases (cmp (e i).key (e (child cmp count e i)).key)) [
          | inl u ↦
              rw (t, u, bottom_loop)
                (bottom_loop-IsHeap k count (swap e i (child cmp count e i)) (child cmp count e i)
                  small c.2 (omega (arith, fuel, c.1))
                  (sink count e i (child cmp count e i) c.1 c.2 c.0 c.3 u s))
          | inr u ↦
              rw (t, u, bottom_loop)
                (λ j one b. elim (ℕ_discrete (parent j) i) [
                  | no n ↦ s.0 j one b n
                  | yes d ↦ elim (ℕ_discrete j (child cmp count e i)) [
                    | yes x ↦
                        Under-at cmp e (parent j) j (e i) (e (child cmp count e i)) (ap e d)
                          (ap e x) u
                    | no x ↦
                        Under-at cmp e (parent j) j (e i) (e j) (ap e d) refl
                          (o.negative _ _ _ u (c.3 j one b d x))
                  ]
                ])
        ]
  ]

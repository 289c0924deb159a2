-- ===== src/PriorityQ/Remove.antt =====
-- rqc_pq_remove: the last element comes into the place of the removed one and moves down or up.
use rquic.Base.{
  ℕ, zero, suc, ◌+◌, ◌-◌, ◌*◌, ◌%◌, ◌^◌, ◌≤◌, ◌<◌, ◌≡◌, ◌≢◌, refl, sym, ap, ◌∙◌, arith, Bool, true,
  false,
}
use rquic.Base.{Bool-cases, inl, inr, dec_lt, ℕ_discrete, leb, leb→le}
use rquic.PriorityQ.{Element, put, parent, child, bottom_loop, top_loop}
use rquic.PriorityQ.Order.{Strict, Under, IsHeap, put-at, put-other, Under-at}
use rquic.PriorityQ.Up.{Rising, top_loop-IsHeap}
use rquic.PriorityQ.Down.{Sinking, bottom_loop-IsHeap, child_lem}
use rquic.PriorityQ.Tally.{}

module _ (cmp : ℕ → ℕ → Bool) (o : Strict cmp) (n : ℕ) where
  -- An element that no child is above stays where it is.
  bottom_loop-stays :
      (k : ℕ) (e : ℕ → Element) (i : ℕ)
      → n ≤ 2 ^ 31
      → i < n
      → ((j : ℕ) → 1 ≤ j → j < n → parent j ≡ i → Under cmp e i j)
      → bottom_loop cmp k n e i ≡ e
  unfolding bottom_loop
  bottom_loop-stays zero e i small l h = refl
  bottom_loop-stays (suc k) e i small l h = elim (Bool-cases (leb ((2 * i + 1) % 2 ^ 32) (n - 1))) [
    | inr t ↦ rw (t, bottom_loop) refl
    | inl t ↦
        let c = child_lem cmp o n e i small (omega (arith, leb→le _ _ t, small, l)) in
        rw (t, h (child cmp n e i) (omega (arith, c.1)) c.2 c.0, bottom_loop) refl
  ]

  -- Of a heap each element may be taken for the disturbed one.
  heap_Rising : (e : ℕ → Element) (i : ℕ) → i < n → IsHeap cmp n e → Rising cmp o n e i
  unfolding Rising IsHeap
  heap_Rising e i l h = (
    λ j one k ne. h j one k,
    λ j one k c top.
        o.negative _ _ _ (h i top l)
          (Under-at cmp e i j (e (parent j)) (e j) (ap e (sym c)) refl (h j one k)),
  )

  module _ (e : ℕ → Element) (i : ℕ) (x : Element) (l : i < n) (h : IsHeap cmp n e) where
    -- Away from `i` and its children nothing changes.
    apart : (j : ℕ) → 1 ≤ j → j < n → j ≢ i → parent j ≢ i → Under cmp (put e i x) (parent j) j
    unfolding IsHeap
    apart j one k ne ne' =
        Under-at cmp (put e i x) (parent j) j (e (parent j)) (e j) (put-other e i (parent j) x ne')
          (put-other e i j x ne) (h j one k)

    -- The parent of `i` is not below the children of `i`.
    grand :
        (j : ℕ) → 1 ≤ j → j < n → parent j ≡ i → 1 ≤ i → cmp (e (parent i)).key (e j).key ≡ false
    unfolding IsHeap
    grand j one k c top =
        o.negative _ _ _ (h i top l)
          (Under-at cmp e i j (e (parent j)) (e j) (ap e (sym c)) refl (h j one k))

    -- A new element that is not above the parent may sink.
    replaced_Sinking :
        (1 ≤ i → cmp (e (parent i)).key x.key ≡ false) → Sinking cmp o n (put e i x) i
    unfolding Sinking
    replaced_Sinking u = (
      λ j one k ne. elim (ℕ_discrete j i) [
        | yes d ↦
            Under-at cmp (put e i x) (parent j) j (e (parent j)) x (put-other e i (parent j) x ne)
              (ap (put e i x) d ∙ put-at e i x)
              (Under-key (parent j) (parent i) (ap parent d) (u (omega (arith, d, one))))
        | no d ↦ apart j one k d ne
      ],
      λ j one k c top.
          Under-at cmp (put e i x) (parent i) j (e (parent i)) (e j)
            (put-other e i (parent i) x (λ d. omega (arith, d, top)))
            (put-other e i j x (λ d. omega (arith, d, c, one))) (grand j one k c top),
    )
      where
        Under-key : (a b : ℕ) → a ≡ b → cmp (e b).key x.key ≡ false → cmp (e a).key x.key ≡ false
        Under-key a b q u = rw q u

    -- One that is above the parent is above the children, and rises.
    above_children :
        1 ≤ i
        → cmp (e (parent i)).key x.key ≡ true
        → (j : ℕ) → 1 ≤ j
        → j < n
        → parent j ≡ i
        → Under cmp (put e i x) i j
    above_children top u j one k c =
        Under-at cmp (put e i x) i j x (e j) (put-at e i x)
          (put-other e i j x (λ d. omega (arith, d, c, one)))
          (o.negative _ _ _ (o.asym _ _ u) (grand j one k c top))

    replaced_Rising : 1 ≤ i → cmp (e (parent i)).key x.key ≡ true → Rising cmp o n (put e i x) i
    unfolding Rising
    replaced_Rising top u = (
      λ j one k ne. elim (ℕ_discrete (parent j) i) [
        | yes c ↦
            Under-at cmp (put e i x) (parent j) j (put e i x i) (put e i x j) (ap (put e i x) c)
              refl (above_children top u j one k c)
        | no c ↦ apart j one k ne c
      ],
      λ j one k c t.
          Under-at cmp (put e i x) (parent i) j (e (parent i)) (e j)
            (put-other e i (parent i) x (λ d. omega (arith, d, top)))
            (put-other e i j x (λ d. omega (arith, d, c, one))) (grand j one k c top),
    )

    -- Both loops make a heap of it.
    pub replaced-IsHeap :
        n ≤ 2 ^ 31 → IsHeap cmp n (top_loop cmp i (bottom_loop cmp n n (put e i x) i) i).0
    replaced-IsHeap small = elim (dec_lt 0 i) [
      | no z ↦ sunk (λ top. absurd (omega (arith, top, z)))
      | yes z ↦ elim (Bool-cases (cmp (e (parent i)).key x.key)) [
        | inr u ↦ sunk (λ top. u)
        | inl u ↦
            rw (bottom_loop-stays n (put e i x) i small l (above_children z u))
              (top_loop-IsHeap cmp o i n (put e i x) i (omega arith) l (replaced_Rising z u))
      ]
    ]
      where
        sunk :
            (1 ≤ i → cmp (e (parent i)).key x.key ≡ false)
            → IsHeap cmp n (top_loop cmp i (bottom_loop cmp n n (put e i x) i) i).0
        sunk u =
            let heap =
              bottom_loop-IsHeap cmp o n n (put e i x) i small l (omega arith)
                (replaced_Sinking u) in
            top_loop-IsHeap cmp o i n (bottom_loop cmp n n (put e i x) i) i (omega arith) l
              (heap_Rising (bottom_loop cmp n n (put e i x) i) i l heap)

-- ===== src/PriorityQ/Tally.antt =====
-- How many of the first elements pass a test: what is moved is neither lost nor doubled.
use rquic.Base.{
  ℕ, zero, suc, ◌+◌, ◌-◌, ◌*◌, ◌%◌, ◌^◌, ◌≤◌, ◌<◌, ◌≡◌, ◌≢◌, refl, ap, ◌∙◌, arith, Bool, true,
}
use rquic.Base.{Bool-cases, inl, inr, ℕ_discrete, leb, leb→le}
use rquic.Base.Count.{bit}
use rquic.PriorityQ.{Element, put, swap, parent, child, at_rest, top_loop, bottom_loop}
use rquic.PriorityQ.Order.{Strict, put-at, put-other}
use rquic.PriorityQ.Down.{child_lem}

module _ (p : Element → Bool) where
  unfoldable pub tally : ℕ → (ℕ → Element) → ℕ
  tally zero e = 0
  tally (suc n) e = tally n e + bit (p (e n))

  pub tally-beyond :
      (n i : ℕ) (e : ℕ → Element) (x : Element) → n ≤ i → tally n (put e i x) ≡ tally n e
  unfolding tally
  tally-beyond zero i e x h = refl
  tally-beyond (suc n) i e x h =
      let same = put-other e i n x (λ c. omega (arith, c, h)) in
      omega (arith, tally-beyond n i e x (omega (arith, h)), ap (λ (y : Element). bit (p y)) same)

  pub tally-put :
      (n i : ℕ) (e : ℕ → Element) (x : Element)
      → i < n
      → tally n (put e i x) + bit (p (e i)) ≡ tally n e + bit (p x)
  unfolding tally
  tally-put zero i e x h = absurd (omega arith)
  tally-put (suc n) i e x h = elim (ℕ_discrete n i) [
    | yes c ↦
        let here = ap (put e i x) c ∙ put-at e i x in
        omega (
          arith,
          tally-beyond n i e x (omega (arith, c)),
          ap (λ (y : Element). bit (p y)) here,
          ap (λ (m : ℕ). bit (p (e m))) c,
        )
    | no c ↦
        let same = put-other e i n x c in
        omega (arith, tally-put n i e x (omega (arith, c, h)), ap (λ (y : Element). bit (p y)) same)
  ]

  pub tally-swap :
      (n i j : ℕ) (e : ℕ → Element) → i < n → j < n → i ≢ j → tally n (swap e i j) ≡ tally n e
  unfolding swap
  tally-swap n i j e h k ne =
      let same = put-other e j i (e i) ne in
      omega (
        arith,
        tally-put n j e (e i) k,
        tally-put n i (put e j (e i)) (e j) h,
        ap (λ (y : Element). bit (p y)) same,
      )

  module _ (cmp : ℕ → ℕ → Bool) where
    pub tally-top_loop :
        (k n : ℕ) (e : ℕ → Element) (i : ℕ) → i < n → tally n (top_loop cmp k e i).0 ≡ tally n e
    unfolding top_loop at_rest
    tally-top_loop zero n e i h = refl
    tally-top_loop (suc k) n e i h = elim (ℕ_discrete i 0) [
      | yes z ↦ let t : at_rest cmp e i ≡ true = rw (z, at_rest) refl in rw (t, top_loop) refl
      | no z ↦ elim (Bool-cases (at_rest cmp e i)) [
        | inl t ↦ rw (t, top_loop) refl
        | inr t ↦
            rw (t, top_loop)
              (tally-top_loop k n (swap e i (parent i)) (parent i) (omega (arith, h))
                ∙ tally-swap n i (parent i) e h (omega (arith, h)) (λ c. omega (arith, c, z)))
      ]
    ]

    pub tally-bottom_loop :
        (o : Strict cmp) (k n : ℕ) (e : ℕ → Element) (i : ℕ)
        → n ≤ 2 ^ 31
        → i < n
        → tally n (bottom_loop cmp k n e i) ≡ tally n e
    unfolding bottom_loop
    tally-bottom_loop o zero n e i small h = refl
    tally-bottom_loop o (suc k) n e i small h =
        elim (Bool-cases (leb ((2 * i + 1) % 2 ^ 32) (n - 1))) [
          | inr t ↦ rw (t, bottom_loop) refl
          | inl t ↦
              let c = child_lem cmp o n e i small (omega (arith, leb→le _ _ t, small, h)) in
              elim (Bool-cases (cmp (e i).key (e (child cmp n e i)).key)) [
                | inr u ↦ rw (t, u, bottom_loop) refl
                | inl u ↦
                    rw (t, u, bottom_loop)
                      (tally-bottom_loop o k n (swap e i (child cmp n e i)) (child cmp n e i) small
                          c.2
                        ∙ tally-swap n i (child cmp n e i) e h c.2 (λ d. omega (arith, d, c.1)))
              ]
        ]

pub tally-last :
    (p : Element → Bool) (n m : ℕ) (e : ℕ → Element)
    → m ≡ suc n
    → tally p m e ≡ tally p n e + bit (p (e n))
unfolding tally
tally-last p n m e h = rw h refl

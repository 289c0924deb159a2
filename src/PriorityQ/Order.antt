-- ===== src/PriorityQ/Order.antt =====
-- The order of a heap, and how an array is read after a swap.
use rquic.Base.{ℕ, ◌≤◌, ◌<◌, ◌≡◌, ◌≢◌, refl, arith, Bool, true, false}
use rquic.Base.{==_self, ne→==}
use rquic.PriorityQ.{Element, put, swap, parent, default_cmp, revert_cmp}

-- What the order of the keys must keep to: it is a strict weak order.
pub record Strict (cmp : ℕ → ℕ → Bool) : Type 0 where
  pub asym : (a b : ℕ) → cmp a b ≡ true → cmp b a ≡ false
  pub negative : (a b c : ℕ) → cmp a b ≡ false → cmp b c ≡ false → cmp a c ≡ false

-- The two orders of the code.
pub default_cmp-Strict : Strict default_cmp
unfolding default_cmp
default_cmp-Strict = record {
  asym = λ a b h. ground (arith, h);
  negative = λ a b c h k. ground (arith, h, k);
}

pub revert_cmp-Strict : Strict revert_cmp
unfolding revert_cmp
revert_cmp-Strict = record {
  asym = λ a b h. ground (arith, h);
  negative = λ a b c h k. ground (arith, h, k);
}

pub put-at : (e : ℕ → Element) (i : ℕ) (x : Element) → put e i x i ≡ x
unfolding put
put-at e i x = rw (==_self i) refl

pub put-other : (e : ℕ → Element) (i n : ℕ) (x : Element) → n ≢ i → put e i x n ≡ e n
unfolding put
put-other e i n x h = rw (ne→== n i h) refl

pub swap-left : (e : ℕ → Element) (i j : ℕ) → swap e i j i ≡ e j
unfolding swap
swap-left e i j = put-at (put e j (e i)) i (e j)

pub swap-right : (e : ℕ → Element) (i j : ℕ) → j ≢ i → swap e i j j ≡ e i
unfolding swap
swap-right e i j h = rw (put-other (put e j (e i)) i j (e j) h) (put-at e j (e i))

pub swap-other : (e : ℕ → Element) (i j n : ℕ) → n ≢ i → n ≢ j → swap e i j n ≡ e n
unfolding swap
swap-other e i j n h k = rw (put-other (put e j (e i)) i n (e j) h) (put-other e j n (e i) k)

module _ (cmp : ℕ → ℕ → Bool) where
  -- The element at `i` is not above the one at `p`.
  abbrev pub Under : (ℕ → Element) → ℕ → ℕ → Type 0
  Under e p i = cmp (e p).key (e i).key ≡ false

  -- No element of the first `count` is above its parent.
  unfoldable pub IsHeap : ℕ → (ℕ → Element) → Type 0
  IsHeap count e = (i : ℕ) → 1 ≤ i → i < count → Under e (parent i) i

  -- Read from what stands at the two places.
  pub Under-at :
      (e : ℕ → Element) (p i : ℕ) (x y : Element)
      → e p ≡ x
      → e i ≡ y
      → cmp x.key y.key ≡ false
      → Under e p i
  Under-at e p i x y h k u = rw (h, k) u

-- ===== src/Base/Count.antt =====
-- Counting the nodes of a list that pass a test.
use Prim.Native.Nat.{ℕ, zero, suc, ◌+◌, ◌≤◌}
use mathlib.Core.Path.{◌≡◌}
use mathlib.Core.Bool.{Bool, true, false}
use mathlib.Core.List.{List, [], ◌∷◌, ◌++◌}
use mathlib.Core.Option.{some}
use native.Mathlib.Omega.{arith}
use rquic.Base.Lists.{get_elem?, set, length}

unfoldable pub bit : Bool → ℕ
bit true = 1
bit false = 0

module _ {ℓ} {A : Type ℓ} (p : A → Bool) where
  unfoldable pub count : List A → ℕ
  count [] = 0
  count (x ∷ xs) = bit (p x) + count xs

  pub count-append : (xs ys : List A) → count (xs ++ ys) ≡ count xs + count ys
  unfolding count
  count-append [] ys = omega arith
  count-append (x ∷ xs) ys = omega (arith, count-append xs ys)

  pub count-set :
      (xs : List A) (i : ℕ) (x y : A)
      → get_elem? xs i ≡ some x
      → count (set xs i y) + bit (p x) ≡ count xs + bit (p y)
  unfolding count
  count-set [] i x y h = absurd (cc h)
  count-set (z ∷ xs) zero x y h = let e : z ≡ x = cc h in rw e (omega arith)
  count-set (z ∷ xs) (suc i) x y h = omega (arith, count-set xs i x y h)

  pub count-at : (xs : List A) (i : ℕ) (x : A) → get_elem? xs i ≡ some x → bit (p x) ≤ count xs
  unfolding count
  count-at [] i x h = absurd (cc h)
  count-at (z ∷ xs) zero x h = let e : z ≡ x = cc h in rw e (omega arith)
  count-at (z ∷ xs) (suc i) x h = omega (arith, count-at xs i x h)

  pub count-le : (xs : List A) → count xs ≤ length xs
  unfolding count bit
  count-le [] = omega arith
  count-le (x ∷ xs) = ground (arith, count-le xs)

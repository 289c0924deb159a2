-- ===== src/Base/Bits.antt =====
-- `&` with a low mask and `|` of two disjoint fields, as arithmetic at every width.
use Prim.Native.Nat.{ℕ, zero, suc, ◌+◌, ◌-◌, ◌*◌, ◌/◌, ◌%◌, ◌^◌, ◌≤◌, ◌<◌, min, max}
use Prim.Native.Nat.{bit_and, bit_or, digits, bit_and-bitwise, bit_or-bitwise}
use mathlib.Core.Path.{◌≡◌, refl, sym, ap, ap₂, ◌∙◌}
use native.Mathlib.Nat.{
  pow-suc, one-le-pow, le_refl, mod-lt, div-add-mod', mul_comm, mul_assoc, div-one,
  div-div-eq-div-mul,
}
use native.Mathlib.Omega.{arith}

module _ (z : ℕ → ℕ) (f : ℕ → ℕ → ℕ) where
  -- Any fuel from the first number on gives the same digits.
  -- Once the first number has run out, `z` gives the rest.
  digits_none : (n b : ℕ) → digits z f n 0 b ≡ z b
  digits_none zero b = refl
  digits_none (suc n) b = refl

  -- Fuel from the first number on makes no difference.
  digits_any : (n m a b : ℕ) → a ≤ n → a ≤ m → digits z f n a b ≡ digits z f m a b
  digits_any n m zero b h k = rw (digits_none n b) (rw (digits_none m b) refl)
  digits_any zero m (suc a) b h k = absurd (omega arith)
  digits_any (suc n) zero (suc a) b h k = absurd (omega arith)
  digits_any (suc n) (suc m) (suc a) b h k =
      ap (λ (t : ℕ). t * 2 + f (suc a % 2) (b % 2))
        (digits_any n m (suc a / 2) (b / 2) (omega arith) (omega arith))

-- One equation for the lowest digit.
or_digit : (a b : ℕ) → bit_or a b ≡ 2 * bit_or (a / 2) (b / 2) + max (a % 2) (b % 2)
or_digit zero b = omega (arith, bit_or-bitwise 0 b, bit_or-bitwise 0 (b / 2))
or_digit (suc a) b = omega (
  arith,
  bit_or-bitwise (suc a) b,
  bit_or-bitwise (suc a / 2) (b / 2),
  digits_any (λ y. y) max a (suc a / 2) (suc a / 2) (b / 2) (omega arith) (omega arith),
)

and_digit : (a b : ℕ) → bit_and a b ≡ 2 * bit_and (a / 2) (b / 2) + min (a % 2) (b % 2)
and_digit zero b = omega (arith, bit_and-bitwise 0 b, bit_and-bitwise 0 (b / 2))
and_digit (suc a) b = omega (
  arith,
  bit_and-bitwise (suc a) b,
  bit_and-bitwise (suc a / 2) (b / 2),
  digits_any (λ y. 0) min a (suc a / 2) (suc a / 2) (b / 2) (omega arith) (omega arith),
)

-- The neutral and the absorbing argument, by the number of digits of `a`.
or_nothing : (n a : ℕ) → a ≤ n → bit_or a 0 ≡ a
or_nothing n zero h = bit_or-bitwise 0 0
or_nothing zero (suc a) h = absurd (omega arith)
or_nothing (suc n) (suc a) h =
    omega (arith, or_digit (suc a) 0, or_nothing n (suc a / 2) (omega arith))

and_nothing : (n a : ℕ) → a ≤ n → bit_and a 0 ≡ 0
and_nothing n zero h = bit_and-bitwise 0 0
and_nothing zero (suc a) h = absurd (omega arith)
and_nothing (suc n) (suc a) h =
    omega (arith, and_digit (suc a) 0, and_nothing n (suc a / 2) (omega arith))

twice_power : (t k : ℕ) → t * 2 ^ suc k ≡ 2 * (t * 2 ^ k)
twice_power t k = omega (arith, ap (λ (u : ℕ). t * u) (pow-suc 2 k))

-- `(t << k) | r` is a sum where `r` fits in the `k` bits that are free.
pub bit_or-shift : (k t r : ℕ) → r < 2 ^ k → bit_or (t * 2 ^ k) r ≡ t * 2 ^ k + r
bit_or-shift zero t r h =
    let e : r ≡ 0 = omega arith in rw e (or_nothing (t * 1) (t * 1) (le_refl _) ∙ omega arith)
bit_or-shift (suc k) t r h = omega (
  arith,
  or_digit (t * 2 ^ suc k) r,
  twice_power t k,
  pow-suc 2 k,
  ap (λ (u : ℕ). bit_or u (r / 2)) (half_power t k),
  bit_or-shift k t (r / 2) (omega (arith, pow-suc 2 k)),
)
  where
    half_power : (t k : ℕ) → t * 2 ^ suc k / 2 ≡ t * 2 ^ k
    half_power t k = omega (arith, twice_power t k)

half_mask : (k : ℕ) → (2 ^ suc k - 1) / 2 ≡ 2 ^ k - 1
half_mask k = omega (arith, pow-suc 2 k, one-le-pow k 2)

mask_low : (k t r : ℕ) → r < 2 ^ k → bit_and (t * 2 ^ k + r) (2 ^ k - 1) ≡ r
mask_low zero t r h = and_nothing _ _ (le_refl _) ∙ omega arith
mask_low (suc k) t r h = omega (
  arith,
  and_digit (t * 2 ^ suc k + r) (2 ^ suc k - 1),
  twice_power t k,
  pow-suc 2 k,
  one-le-pow k 2,
  ap₂ bit_and half_low (half_mask k),
  mask_low k t (r / 2) (omega (arith, pow-suc 2 k)),
)
  where
    half_low : (t * 2 ^ suc k + r) / 2 ≡ t * 2 ^ k + r / 2
    half_low = omega (arith, twice_power t k)

-- A mask of `k` ones keeps the remainder by `2 ^ k`.
pub bit_and-mask : (k a : ℕ) → bit_and a (2 ^ k - 1) ≡ a % 2 ^ k
bit_and-mask k a =
    let split : a ≡ a / 2 ^ k * 2 ^ k + a % 2 ^ k = sym (div-add-mod' a (2 ^ k)) in
    ap (λ (u : ℕ). bit_and u (2 ^ k - 1)) split
    ∙ mask_low k (a / 2 ^ k) (a % 2 ^ k) (mod-lt a (one-le-pow k 2 (omega arith)))

or_swap : (n a b : ℕ) → a + b ≤ n → bit_or a b ≡ bit_or b a
or_swap zero a b h =
    let e : a ≡ 0 = omega arith in let e' : b ≡ 0 = omega arith in rw e (rw e' refl)
or_swap (suc n) zero b h = bit_or-bitwise 0 b ∙ sym (or_nothing b b (le_refl _))
or_swap (suc n) (suc a) b h =
    omega
      (arith, or_digit (suc a) b, or_digit b (suc a), or_swap n (suc a / 2) (b / 2) (omega arith))

-- `a | r` is a sum where the low `k` bits of `a` are free and `r` fits in them.
pub bit_or-free : (k a r : ℕ) → a % 2 ^ k ≡ 0 → r < 2 ^ k → bit_or a r ≡ a + r
bit_or-free k a r free h =
    let split : a ≡ a / 2 ^ k * 2 ^ k = omega (arith, div-add-mod' a (2 ^ k)) in
    ap (λ (u : ℕ). bit_or u r) split
    ∙ bit_or-shift k (a / 2 ^ k) r h
    ∙ ap (λ (u : ℕ). u + r) (sym split)

-- The same with the operands the other way round.
pub bit_or-above : (k r t : ℕ) → r < 2 ^ k → bit_or r (t * 2 ^ k) ≡ r + t * 2 ^ k
bit_or-above k r t h = or_swap _ r (t * 2 ^ k) (le_refl _) ∙ bit_or-shift k t r h ∙ omega arith

-- `&` with a mask whose low `k` bits are clear.
pub bit_and-high : (k a t : ℕ) → bit_and a (t * 2 ^ k) ≡ bit_and (a / 2 ^ k) t * 2 ^ k
bit_and-high zero a t = let e : t * 1 ≡ t = omega arith in rw (e, div-one a) (omega arith)
bit_and-high (suc k) a t = omega (
  arith,
  and_digit a (t * 2 ^ suc k),
  twice_power t k,
  twice_power (bit_and (a / 2 / 2 ^ k) t) k,
  ap (λ (u : ℕ). bit_and (a / 2) u) half_power,
  bit_and-high k (a / 2) t,
  ap (λ (u : ℕ). bit_and u t * 2 ^ suc k) halves,
)
  where
    half_power : t * 2 ^ suc k / 2 ≡ t * 2 ^ k
    half_power = omega (arith, twice_power t k)

    halves : a / 2 ^ suc k ≡ a / 2 / 2 ^ k
    halves =
        ap (λ (u : ℕ). a / u) (pow-suc 2 k ∙ mul_comm (2 ^ k) 2)
        ∙ sym (div-div-eq-div-mul a 2 (2 ^ k))

-- A power of two in two factors.
pub pow_split : (k d : ℕ) → 2 ^ (k + d) ≡ 2 ^ k * 2 ^ d
pow_split k zero = let e : k + 0 ≡ k = omega arith in rw e (omega arith)
pow_split k (suc d) =
    let e : k + suc d ≡ suc (k + d) = omega arith in
    rw (e, pow-suc 2 (k + d), pow-suc 2 d, pow_split k d) (mul_assoc (2 ^ k) (2 ^ d) 2)

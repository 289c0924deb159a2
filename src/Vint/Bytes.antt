-- ===== src/Vint/Bytes.antt =====
-- Bytes and the numbers that they stand for, most significant byte first.
use native.Mathlib.Nat.{pow-suc}
use rquic.Base.{ℕ, zero, suc, ◌+◌, ◌*◌, ◌^◌, ◌<◌, ◌≡◌, refl, ap, arith}
use rquic.Base.{List, [], ◌∷◌, ◌++◌, length, All}
use rquic.Vint.{IsByte, be_value, be_bytes}

pub length-be_bytes : (len n : ℕ) → length (be_bytes len n) ≡ len
unfolding be_bytes
length-be_bytes zero n = refl
length-be_bytes (suc len) n = ap suc (length-be_bytes len n)

pub be_bytes-IsByte : (len n : ℕ) → All IsByte (be_bytes len n)
unfolding be_bytes
be_bytes-IsByte zero n = tt
be_bytes-IsByte (suc len) n = (omega arith, be_bytes-IsByte len n)

-- Reading goes on where it stopped.
pub be_value-append :
    (acc : ℕ) (xs ys : List ℕ) → be_value acc (xs ++ ys) ≡ be_value (be_value acc xs) ys
unfolding be_value
be_value-append acc [] ys = refl
be_value-append acc (x ∷ xs) ys = be_value-append (acc * 256 + x) xs ys

pub be_value_split :
    (acc : ℕ) (xs : List ℕ) → be_value acc xs ≡ acc * 256 ^ length xs + be_value 0 xs
unfolding be_value
be_value_split acc [] = omega arith
be_value_split acc (x ∷ xs) = omega (
  arith,
  be_value_split (acc * 256 + x) xs,
  be_value_split (0 * 256 + x) xs,
  ap (λ (u : ℕ). acc * u) (pow-suc 256 (length xs)),
)

pub be_value-lt : (xs : List ℕ) → All IsByte xs → be_value 0 xs < 256 ^ length xs
unfolding be_value
be_value-lt [] h = omega arith
be_value-lt (x ∷ xs) h =
    grind (arith, be_value_split (0 * 256 + x) xs, be_value-lt xs h.1, pow-suc 256 (length xs))

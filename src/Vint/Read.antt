-- ===== src/Vint/Read.antt =====
-- `rqc_vint_read` against the decoding of RFC 9000, section 16: the two high bits of the first byte
-- give the length, and all other bits, most significant first, the value.
use native.Mathlib.Nat.{mod-lt}
use rquic.Base.{ℕ, ◌-◌, ◌*◌, ◌/◌, ◌%◌, ◌^◌, ◌≤◌, ◌<◌, ◌≡◌, refl, ap, sym, ◌∙◌, arith}
use rquic.Base.{◌⊎◌, inl, inr, List, [], ◌∷◌, length, take, All, Option, none, some}
use rquic.Base.{ltb, if◌then◌else◌, bit_and, bit_or}
use rquic.Base.Bits.{bit_and-mask, bit_or-free}
use rquic.Vint.{IsByte, be_value, vint_len, vint_mask, read_two, read_four, read_eight, vint_read}

-- The value of the first `len` bytes without the two bits of the length.
unfoldable pub decode_as : ℕ → List ℕ → Option (ℕ × ℕ)
decode_as len bs =
    if ltb (length bs) len then none else some (len, be_value 0 (take len bs) % 2 ^ (8 * len - 2))

unfoldable pub decode : List ℕ → Option (ℕ × ℕ)
unfolding decode_as
decode [] = none
decode (b ∷ bs) = decode_as (vint_len (b / 64)) (b ∷ bs)

decode_two : (p0 : ℕ) (bs : List ℕ) → All IsByte (p0 ∷ bs) → read_two p0 bs ≡ decode_as 2 (p0 ∷ bs)
unfolding read_two decode_as be_value
decode_two p0 [] h = refl
decode_two p0 (p1 ∷ bs) h =
    ground (arith, bit_and-mask 6 p0, bit_or-free 8 (bit_and p0 vint_mask * 2 ^ 8) p1)

decode_four :
    (p0 : ℕ) (bs : List ℕ) → All IsByte (p0 ∷ bs) → read_four p0 bs ≡ decode_as 4 (p0 ∷ bs)
unfolding read_four decode_as be_value
decode_four p0 [] h = refl
decode_four p0 (p1 ∷ []) h = refl
decode_four p0 (p1 ∷ p2 ∷ []) h = refl
decode_four p0 (p1 ∷ p2 ∷ p3 ∷ bs) h = ground (
  arith,
  bit_and-mask 6 p0,
  bit_or-free 24 (bit_and p0 vint_mask * 2 ^ 24) (p1 * 2 ^ 16),
  bit_or-free 16 (bit_or (bit_and p0 vint_mask * 2 ^ 24) (p1 * 2 ^ 16)) (p2 * 2 ^ 8),
  bit_or-free 8 (bit_or (bit_or (bit_and p0 vint_mask * 2 ^ 24) (p1 * 2 ^ 16)) (p2 * 2 ^ 8)) p3,
)

decode_eight :
    (p0 : ℕ) (bs : List ℕ) → All IsByte (p0 ∷ bs) → read_eight p0 bs ≡ decode_as 8 (p0 ∷ bs)
unfolding read_eight decode_as be_value
decode_eight p0 [] h = refl
decode_eight p0 (_ ∷ []) h = refl
decode_eight p0 (_ ∷ _ ∷ []) h = refl
decode_eight p0 (_ ∷ _ ∷ _ ∷ []) h = refl
decode_eight p0 (_ ∷ _ ∷ _ ∷ _ ∷ []) h = refl
decode_eight p0 (_ ∷ _ ∷ _ ∷ _ ∷ _ ∷ []) h = refl
decode_eight p0 (_ ∷ _ ∷ _ ∷ _ ∷ _ ∷ _ ∷ []) h = refl
decode_eight p0 (p1 ∷ p2 ∷ p3 ∷ p4 ∷ p5 ∷ p6 ∷ p7 ∷ bs) h = rw (bit_and-mask 62) (ground arith)

decode_one : (p0 : ℕ) (bs : List ℕ) → p0 < 64 → some (1, p0) ≡ decode_as 1 (p0 ∷ bs)
unfolding decode_as be_value
decode_one p0 bs h = ground arith

pub decode_by : (k b : ℕ) (bs : List ℕ) → b / 64 ≡ k → decode (b ∷ bs) ≡ decode_as (2 ^ k) (b ∷ bs)
unfolding decode
decode_by k b bs e = ap (λ j. decode_as (2 ^ j) (b ∷ bs)) e

-- The length of the encoding that starts with byte `b` is 1, 2, 4 or 8.
pub first_byte-cases :
    (b : ℕ) → b < 256 → (b / 64 ≡ 0) ⊎ ((b / 64 ≡ 1) ⊎ ((b / 64 ≡ 2) ⊎ (b / 64 ≡ 3)))
first_byte-cases b h = omega arith

-- On bytes, `rqc_vint_read` returns what RFC 9000 decodes, and -1 exactly where the bytes end early.
pub vint_read-decode : (bs : List ℕ) → All IsByte bs → vint_read bs ≡ decode bs
unfolding vint_read
vint_read-decode [] h = unfold decode in refl
vint_read-decode (b ∷ bs) h = elim (first_byte-cases b h.0) [
  | inl e ↦ rw e (decode_one b bs (omega arith) ∙ sym (decode_by 0 b bs e))
  | inr (inl e) ↦ rw e (decode_two b bs h ∙ sym (decode_by 1 b bs e))
  | inr (inr (inl e)) ↦ rw e (decode_four b bs h ∙ sym (decode_by 2 b bs e))
  | inr (inr (inr e)) ↦ rw e (decode_eight b bs h ∙ sym (decode_by 3 b bs e))
]

decode_as_bounds :
    (k len val : ℕ) (bs : List ℕ)
    → 1 ≤ k
    → k ≤ 8
    → 2 ^ (8 * k - 2) ≤ 2 ^ 62
    → 1 ≤ 2 ^ (8 * k - 2)
    → decode_as k bs ≡ some (len, val)
    → (1 ≤ len) × (len ≤ 8) × (len ≤ length bs) × (val < 2 ^ 62)
unfolding decode_as
decode_as_bounds k len val bs lo hi small pos e =
    ground (arith, mod-lt (be_value 0 (take k bs)) {m = 2 ^ (8 * k - 2)} pos)

decode_bounds :
    (bs : List ℕ) (len val : ℕ)
    → All IsByte bs
    → decode bs ≡ some (len, val)
    → (1 ≤ len) × (len ≤ 8) × (len ≤ length bs) × (val < 2 ^ 62)
decode_bounds [] len val h e = unfold decode in cc
decode_bounds (b ∷ bs) len val h e = elim (first_byte-cases b h.0) [
  | inl q ↦ at_length 0 (omega arith) (omega arith) (omega arith) (omega arith) q
  | inr (inl q) ↦ at_length 1 (omega arith) (omega arith) (omega arith) (omega arith) q
  | inr (inr (inl q)) ↦ at_length 2 (omega arith) (omega arith) (omega arith) (omega arith) q
  | inr (inr (inr q)) ↦ at_length 3 (omega arith) (omega arith) (omega arith) (omega arith) q
]
  where
    at_length :
        (k : ℕ)
        → 1 ≤ 2 ^ k
        → 2 ^ k ≤ 8
        → 2 ^ (8 * 2 ^ k - 2) ≤ 2 ^ 62
        → 1 ≤ 2 ^ (8 * 2 ^ k - 2)
        → b / 64 ≡ k
        → (1 ≤ len) × (len ≤ 8) × (len ≤ length (b ∷ bs)) × (val < 2 ^ 62)
    at_length k lo hi small pos q =
        decode_as_bounds (2 ^ k) len val (b ∷ bs) lo hi small pos (sym (decode_by k b bs q) ∙ e)

-- What is read lies inside the bytes, takes 1 to 8 of them, and fits 62 bits.
pub vint_read_bounds :
    (bs : List ℕ) (len val : ℕ)
    → All IsByte bs
    → vint_read bs ≡ some (len, val)
    → (1 ≤ len) × (len ≤ 8) × (len ≤ length bs) × (val < 2 ^ 62)
vint_read_bounds [] len val h e = unfold vint_read in cc
vint_read_bounds (b ∷ bs) len val h e =
    decode_bounds (b ∷ bs) len val h (sym (vint_read-decode (b ∷ bs) h) ∙ e)

-- At the end of the bytes there is nothing to read.
pub vint_read-nil : vint_read [] ≡ none
unfolding vint_read
vint_read-nil = refl

two_pos : (p0 : ℕ) (bs : List ℕ) (len val : ℕ) → read_two p0 bs ≡ some (len, val) → 1 ≤ len
unfolding read_two
two_pos p0 [] len val e = cc
two_pos p0 (_ ∷ bs) len val e = ground arith

four_pos : (p0 : ℕ) (bs : List ℕ) (len val : ℕ) → read_four p0 bs ≡ some (len, val) → 1 ≤ len
unfolding read_four
four_pos p0 (_ ∷ _ ∷ _ ∷ bs) len val e = ground arith
four_pos p0 _ len val e = cc

eight_pos : (p0 : ℕ) (bs : List ℕ) (len val : ℕ) → read_eight p0 bs ≡ some (len, val) → 1 ≤ len
unfolding read_eight
eight_pos p0 (_ ∷ _ ∷ _ ∷ _ ∷ _ ∷ _ ∷ _ ∷ bs) len val e = ground arith
eight_pos p0 _ len val e = cc

-- A read that succeeds makes progress.
pub vint_read_pos : (bs : List ℕ) (len val : ℕ) → vint_read bs ≡ some (len, val) → 1 ≤ len
unfolding vint_read
vint_read_pos [] len val e = cc
vint_read_pos (b ∷ bs) len val e =
    ground (arith, two_pos b bs len val, four_pos b bs len val, eight_pos b bs len val)

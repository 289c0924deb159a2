-- ===== src/Vint/Discrete/Whole.antt =====
-- One call of `rqc_discrete_vint_parse` on a whole integer returns what `rqc_vint_read` reads.
use native.Mathlib.Nat.{pow-suc, one-le-pow}
use rquic.Base.{ℕ, zero, suc, ◌+◌, ◌-◌, ◌*◌, ◌/◌, ◌%◌, ◌^◌, ◌≤◌, ◌<◌, bit_and}
use rquic.Base.{◌≡◌, refl, sym, ap, ◌∙◌, arith, length-take, All}
use rquic.Base.{true, false, List, [], ◌∷◌, length, take, none, some, inl, inr}
use rquic.Base.Bits.{bit_and-mask}
use rquic.Vint.{IsByte, be_value, vint_read}
use rquic.Vint.Bytes.{be_value_split, be_value-lt}
use rquic.Vint.Read.{first_byte-cases, vint_read-decode, decode, decode_by, decode_as}
use rquic.Vint.Discrete.{Pctx, shift_in, consume, discrete_vint_parse}

-- No wrap while the bytes fit the word.
shift_in-be_value :
    (vi w : ℕ) (xs : List ℕ)
    → All IsByte xs
    → vi < w
    → w * 256 ^ length xs ≤ 2 ^ 64
    → shift_in vi xs ≡ be_value vi xs
unfolding shift_in be_value
shift_in-be_value vi w [] h lt fits = refl
shift_in-be_value vi w (x ∷ xs) h lt fits =
    rw (no_wrap) (shift_in-be_value (vi * 256 + x) (w * 256) xs h.1 (omega arith) scaled)
  where
    scaled : w * 256 * 256 ^ length xs ≤ 2 ^ 64
    scaled = omega (arith, ap (λ (u : ℕ). w * u) (pow-suc 256 (length xs)))

    room : w * 256 ≤ 2 ^ 64
    room = grind (arith, scaled, one-le-pow (length xs) 256)

    no_wrap : (vi * 2 ^ 8 % 2 ^ 64 + x) % 2 ^ 64 ≡ vi * 256 + x
    no_wrap = omega (arith, room)

module _ (m b : ℕ) (xs : List ℕ) (h : All IsByte (b ∷ xs)) (e : length xs ≡ m) where
  split_at : (acc : ℕ) → be_value acc xs ≡ acc * 256 ^ m + be_value 0 xs
  split_at acc = be_value_split acc xs ∙ ap (λ (k : ℕ). acc * 256 ^ k + be_value 0 xs) e

  below : be_value 0 xs < 256 ^ m
  below = rw e at (be_value-lt xs h.1)

-- The value without the two bits of the length, for `m` bytes behind the first.
data Tail : ℕ → Type 0 where
  none_more : Tail 0
  one_more : Tail 1
  three_more : Tail 3
  seven_more : Tail 7

strip_bits :
    (b : ℕ) (xs : List ℕ) {m : ℕ}
    → Tail m
    → All IsByte (b ∷ xs)
    → length xs ≡ m
    → be_value (0 * 256 + b) xs % 2 ^ (8 * suc m - 2) ≡ be_value (b % 64) xs
strip_bits b xs none_more h e =
    omega (arith, split_at 0 b xs h e (0 * 256 + b), split_at 0 b xs h e (b % 64), below 0 b xs h e)
strip_bits b xs one_more h e =
    omega (arith, split_at 1 b xs h e (0 * 256 + b), split_at 1 b xs h e (b % 64), below 1 b xs h e)
strip_bits b xs three_more h e =
    omega (arith, split_at 3 b xs h e (0 * 256 + b), split_at 3 b xs h e (b % 64), below 3 b xs h e)
strip_bits b xs seven_more h e =
    omega (arith, split_at 7 b xs h e (0 * 256 + b), split_at 7 b xs h e (b % 64), below 7 b xs h e)

Tail-fits : {m : ℕ} → Tail m → 64 * 256 ^ m ≤ 2 ^ 64
Tail-fits none_more = omega arith
Tail-fits one_more = omega arith
Tail-fits three_more = omega arith
Tail-fits seven_more = omega arith

-- What the shifted bytes make of the first byte and `m` more.
shifted :
    (b : ℕ) (xs : List ℕ) {m : ℕ}
    → Tail m
    → All IsByte (b ∷ xs)
    → length xs ≡ m
    → shift_in (bit_and b 0x3f) xs ≡ be_value (0 * 256 + b) xs % 2 ^ (8 * suc m - 2)
shifted b xs {m} t h e =
    ap (λ (v : ℕ). shift_in v xs) (bit_and-mask 6 b)
    ∙ shift_in-be_value (b % 64) 64 xs h.1 (omega arith) (rw e (Tail-fits t))
    ∙ sym (strip_bits b xs t h e)

All-take {ℓ κ} : {A : Type ℓ} (P : A → Type κ) (k : ℕ) (xs : List A) → All P xs → All P (take k xs)
All-take P zero xs h = tt
All-take P (suc k) [] h = tt
All-take P (suc k) (x ∷ xs) h = (h.0, All-take P k xs h.1)

-- From the first byte on, with `m` more to come.
consume_whole :
    (b : ℕ) (bs : List ℕ) {m : ℕ}
    → Tail m
    → All IsByte (b ∷ bs)
    → (len val : ℕ) → decode_as (suc m) (b ∷ bs) ≡ some (len, val)
    → consume 1 bs (record { vi = bit_and b 0x3f; left = m })
      ≡ record { taken = len; pctx = record { vi = val; left = 0 }; fin = true }
unfolding consume decode_as be_value
consume_whole b bs {m} t h len val e =
    ground (arith, shifted b (take m bs) t (h.0, All-take IsByte m bs h.1), length-take m bs)

-- Where the bytes end early, all of them are taken and the integer stays unfinished.
consume_part :
    (b : ℕ) (bs : List ℕ) (m vi : ℕ)
    → decode_as (suc m) (b ∷ bs) ≡ none
    → ((consume 1 bs (record { vi = vi; left = m })).taken ≡ length (b ∷ bs))
      × ((consume 1 bs (record { vi = vi; left = m })).fin ≡ false)
unfolding consume decode_as
consume_part b bs m vi e = ground arith

-- How a call on a fresh context starts, by the length bits of the first byte.
start_as :
    (m k b : ℕ) (bs : List ℕ) (c : Pctx)
    → c.left ≡ 0
    → b / 64 ≡ k
    → 2 ^ k ≡ suc m
    → (discrete_vint_parse (b ∷ bs) c ≡ consume 1 bs (record { vi = bit_and b 0x3f; left = m }))
      × (decode (b ∷ bs) ≡ decode_as (suc m) (b ∷ bs))
unfolding discrete_vint_parse
start_as m k b bs c fresh e p = (
  rw fresh (ap (λ (j : ℕ). consume 1 bs (record { vi = bit_and b 0x3f; left = j })) left_m),
  decode_by k b bs e ∙ ap (λ (j : ℕ). decode_as j (b ∷ bs)) p,
)
  where
    left_m : 2 ^ (b / 64) - 1 ≡ m
    left_m = rw e (omega (arith, p))

-- The four lengths.
start_cases :
    (b : ℕ) (bs : List ℕ) (c : Pctx)
    → b < 256
    → c.left ≡ 0
    → (m : ℕ) × Tail m
      × (discrete_vint_parse (b ∷ bs) c ≡ consume 1 bs (record { vi = bit_and b 0x3f; left = m }))
      × (decode (b ∷ bs) ≡ decode_as (suc m) (b ∷ bs))
start_cases b bs c h fresh = elim (first_byte-cases b h) [
  | inl e ↦ let s = start_as 0 0 b bs c fresh e refl in (0, none_more, s.0, s.1)
  | inr (inl e) ↦ let s = start_as 1 1 b bs c fresh e refl in (1, one_more, s.0, s.1)
  | inr (inr (inl e)) ↦ let s = start_as 3 2 b bs c fresh e refl in (3, three_more, s.0, s.1)
  | inr (inr (inr e)) ↦ let s = start_as 7 3 b bs c fresh e refl in (7, seven_more, s.0, s.1)
]

-- On a context with nothing pending, `rqc_discrete_vint_parse` takes as many bytes as `rqc_vint_read`
-- reads, leaves its value in the context and says that it is finished.
pub discrete_vint_parse-vint_read :
    (bs : List ℕ) (c : Pctx) (len val : ℕ)
    → All IsByte bs
    → c.left ≡ 0
    → vint_read bs ≡ some (len, val)
    → discrete_vint_parse bs c
      ≡ record { taken = len; pctx = record { vi = val; left = 0 }; fin = true }
discrete_vint_parse-vint_read [] c len val h fresh e =
    unfold decode in cc (e, vint_read-decode [] h)
discrete_vint_parse-vint_read (b ∷ bs) c len val h fresh e =
    let (m, t, parsed, decoded) = start_cases b bs c h.0 fresh in
    parsed ∙ consume_whole b bs t h len val (sym decoded ∙ sym (vint_read-decode (b ∷ bs) h) ∙ e)

-- On a context with nothing pending and bytes on which `rqc_vint_read` fails, at least one,
-- `rqc_discrete_vint_parse` takes them all and stays unfinished.
pub discrete_vint_parse_short :
    (b : ℕ) (bs : List ℕ) (c : Pctx)
    → All IsByte (b ∷ bs)
    → c.left ≡ 0
    → vint_read (b ∷ bs) ≡ none
    → ((discrete_vint_parse (b ∷ bs) c).taken ≡ length (b ∷ bs))
      × ((discrete_vint_parse (b ∷ bs) c).fin ≡ false)
discrete_vint_parse_short b bs c h fresh e =
    let (m, t, parsed, decoded) = start_cases b bs c h.0 fresh in
    rw parsed
      (consume_part b bs m (bit_and b 0x3f) (sym decoded ∙ sym (vint_read-decode (b ∷ bs) h) ∙ e))

-- ===== src/Vint/Discrete/Chunks.antt =====
-- Parsing an integer in pieces gives what parsing it at once gives.
use rquic.Base.{ℕ, zero, suc, ◌+◌, ◌-◌, ◌*◌, ◌/◌, ◌%◌, ◌^◌, ◌≤◌, ◌<◌, min, bit_and, ◌≢◌}
use rquic.Base.{◌≡◌, refl, ap, ◌∙◌, arith, length-append}
use rquic.Base.{Bool-cases, inl, inr, false, List, [], ◌∷◌, ◌++◌, length, take, ◌==◌, if◌then◌else◌}
use rquic.Vint.Discrete.{
  Pctx, Progress, shift_in, consume, discrete_vint_parse, fixed_len_int_parse,
}

shift_in-append : (vi : ℕ) (xs ys : List ℕ) → shift_in vi (xs ++ ys) ≡ shift_in (shift_in vi xs) ys
unfolding shift_in
shift_in-append vi [] ys = refl
shift_in-append vi (x ∷ xs) ys = shift_in-append ((vi * 2 ^ 8 % 2 ^ 64 + x) % 2 ^ 64) xs ys

take_all {ℓ} : {A : Type ℓ} (k : ℕ) (xs : List A) → length xs ≤ k → take k xs ≡ xs
take_all zero [] h = refl
take_all zero (x ∷ xs) h = absurd (omega arith)
take_all (suc k) [] h = refl
take_all (suc k) (x ∷ xs) h = ap (λ l. x ∷ l) (take_all k xs (omega arith))

take_past {ℓ} :
    {A : Type ℓ} (k : ℕ) (xs ys : List A)
    → length xs ≤ k
    → take k (xs ++ ys) ≡ xs ++ take (k - length xs) ys
take_past k [] ys h = ap (λ j. take j ys) (omega arith)
take_past zero (x ∷ xs) ys h = absurd (omega arith)
take_past (suc k) (x ∷ xs) ys h =
    ap (λ l. x ∷ l) (take_past k xs ys (omega arith) ∙ ap (λ j. xs ++ take j ys) (omega arith))

-- The piece `xs` was not enough: the next one goes on from the context it left.
consume-append :
    (before : ℕ) (xs ys : List ℕ) (c : Pctx)
    → (consume before xs c).fin ≡ false
    → consume before (xs ++ ys) c ≡ (let r = consume before xs c in consume r.taken ys r.pctx)
unfolding consume
consume-append before xs ys c unfinished = λ i. record {
  taken = count i;
  pctx = record { vi = value i; left = rest i };
  fin = rest i == 0;
}
  where
    short : length xs < c.left
    short = ground arith

    count :
        before + min c.left (length (xs ++ ys))
        ≡ before + min c.left (length xs) + min (c.left - min c.left (length xs)) (length ys)
    count = omega (arith, short, length-append xs ys)

    rest :
        c.left - min c.left (length (xs ++ ys))
        ≡ c.left - min c.left (length xs) - min (c.left - min c.left (length xs)) (length ys)
    rest = omega (arith, short, length-append xs ys)

    first : take (min c.left (length xs)) xs ≡ xs
    first = take_all _ xs (omega (arith, short))

    both :
        take (min c.left (length (xs ++ ys))) (xs ++ ys)
        ≡ xs ++ take (min (c.left - min c.left (length xs)) (length ys)) ys
    both =
        take_past (min c.left (length (xs ++ ys))) xs ys (omega (arith, short, length-append xs ys))
        ∙ ap (λ j. xs ++ take j ys) (omega (arith, short, length-append xs ys))

    value :
        shift_in c.vi (take (min c.left (length (xs ++ ys))) (xs ++ ys))
        ≡ shift_in
            (shift_in c.vi (take (min c.left (length xs)) xs))
            (take (min (c.left - min c.left (length xs)) (length ys)) ys)
    value = rw (both, first) (shift_in-append c.vi xs _)

take-nil {ℓ} : {A : Type ℓ} (k : ℕ) → take {A = A} k [] ≡ []
take-nil zero = refl
take-nil (suc k) = refl

-- `*taken` of the pieces before is added.
abbrev pub after : ℕ → Progress → Progress
after before r = record r { taken = before + r.taken }

-- With bytes still to come, a call of the parser is `consume`.
consume-discrete :
    (before : ℕ) (ys : List ℕ) (c : Pctx)
    → c.left ≢ 0
    → consume before ys c ≡ after before (discrete_vint_parse ys c)
unfolding consume discrete_vint_parse shift_in
consume-discrete before [] c more =
    ground (arith, ap (shift_in c.vi) (take-nil {A = ℕ} (min c.left 0)))
consume-discrete before (y ∷ ys) c more = ground arith

consume-fixed :
    (before len : ℕ) (ys : List ℕ) (c : Pctx)
    → c.left ≢ 0
    → consume before ys c ≡ after before (fixed_len_int_parse ys len c)
unfolding consume fixed_len_int_parse shift_in
consume-fixed before len [] c more =
    ground (arith, ap (shift_in c.vi) (take-nil {A = ℕ} (min c.left 0)))
consume-fixed before len (y ∷ ys) c more = ground arith

consume_more :
    (before : ℕ) (xs : List ℕ) (c : Pctx)
    → (consume before xs c).fin ≡ false
    → (consume before xs c).pctx.left ≢ 0
unfolding consume
consume_more before xs c unfinished = ground arith

-- Splitting the input of `rqc_discrete_vint_parse` changes nothing: while the bytes read so far do
-- not finish the integer, the next call goes on where the last one stopped, and ends with the value,
-- the context and the verdict of one call on all bytes.
pub discrete_vint_parse-append :
    (xs ys : List ℕ) (c : Pctx)
    → (discrete_vint_parse xs c).fin ≡ false
    → discrete_vint_parse (xs ++ ys) c
      ≡ after
          (discrete_vint_parse xs c).taken
          (discrete_vint_parse ys (discrete_vint_parse xs c).pctx)
unfolding discrete_vint_parse
discrete_vint_parse-append [] ys c unfinished = ground arith
discrete_vint_parse-append (x ∷ xs) ys c unfinished = elim (Bool-cases (c.left == 0)) [
  | inl e ↦ rw e (
      consume-append 1 xs ys start (rw e at unfinished)
      ∙ consume-discrete _ ys _ (consume_more 1 xs start (rw e at unfinished)))
  | inr e ↦ rw e (
      consume-append 0 (x ∷ xs) ys c (rw e at unfinished)
      ∙ consume-discrete _ ys _ (consume_more 0 (x ∷ xs) c (rw e at unfinished)))
]
  where
    start : Pctx
    start = record { vi = bit_and x 0x3f; left = 2 ^ (x / 2 ^ 6) - 1 }

-- Splitting the input of `rqc_fixed_len_int_parse` changes nothing: while the bytes read so far do
-- not finish the integer, the next call goes on where the last one stopped, and ends with the value,
-- the context and the verdict of one call on all bytes.
pub fixed_len_int_parse-append :
    (xs ys : List ℕ) (len : ℕ) (c : Pctx)
    → (fixed_len_int_parse xs len c).fin ≡ false
    → fixed_len_int_parse (xs ++ ys) len c
      ≡ after
          (fixed_len_int_parse xs len c).taken
          (fixed_len_int_parse ys len (fixed_len_int_parse xs len c).pctx)
unfolding fixed_len_int_parse
fixed_len_int_parse-append [] ys len c unfinished = ground arith
fixed_len_int_parse-append (x ∷ xs) ys len c unfinished =
    consume-append 0 (x ∷ xs) ys start unfinished
    ∙ consume-fixed _ len ys _ (consume_more 0 (x ∷ xs) start unfinished)
  where
    start : Pctx
    start = if c.left == 0 then record c { left = len } else c

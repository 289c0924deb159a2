-- ===== src/Frame/Ack/Ranges.antt =====
-- The ranges of an ACK frame: what the loop of the writer writes, the loop of the parser reads.
use rquic.Base.{
  ℕ, suc, ◌+◌, ◌-◌, ◌*◌, ◌%◌, ◌^◌, ◌<◌, ◌≤◌, ◌≡◌, refl, ◌∙◌, arith, false, List, [], ◌∷◌, ◌++◌,
}
use rquic.Base.{
  ltb, leb, if◌then◌else◌, length, All, All-append, append_assoc, append-nil, lt→leb, lt→ltb,
  Bool-cases, inl, inr, ltb→lt, ltb→le,
}
use rquic.Vint.{IsByte}
use rquic.RecvRecord.{Range, max_ack_range_cnt}
use rquic.RecvRecord.Inv.{Descending}
use rquic.Frame.{Result, ok, err, ◌>>=◌, vint_bytes, vint_size}
use rquic.Frame.Values.{next-vint_bytes, vint_bytes-IsByte, more, vint_size-le}
use rquic.Frame.Ack.{gen_ranges, parse_ranges}
use rquic.Base.{minus}

-- Gaps and ranges that fit the 32 bits that the writer computes them in.
unfoldable pub Narrow : ℕ → List Range → Type 0
Narrow prev_low [] = Unit
Narrow prev_low (r ∷ rest) =
    (prev_low < r.high + 2 + 2 ^ 32) × (r.high < r.low + 2 ^ 32) × Narrow r.low rest

-- What the loop of the writer returns for `rs` is read back by the loop of the parser.
unfoldable pub Back : ℕ → ℕ → ℕ → List Range → Result (List ℕ × ℕ) → Type 0
Back count prev_low room rs (err e) = room < 16 * length rs
Back count prev_low room rs (ok f) =
    (f.1 ≡ count + length rs)
    × All IsByte f.0
    × ((rest : List ℕ)
        → All IsByte rest
        → parse_ranges (length rs) (count + 1) prev_low (f.0 ++ rest) ≡ ok (rs, rest))

-- One round of the parser, on a gap and a length.
parse_round :
    (prev_low : ℕ) (r : Range) (gap acks rounds n_ranges : ℕ) (p : List ℕ)
    → gap < 2 ^ 62
    → acks < 2 ^ 62
    → minus (minus prev_low gap) 2 ≡ r.high
    → minus r.high acks ≡ r.low
    → n_ranges < 64
    → All IsByte p
    → parse_ranges (suc rounds) n_ranges prev_low (vint_bytes gap ++ (vint_bytes acks ++ p))
      ≡ (parse_ranges rounds (n_ranges + 1) r.low p >>= λ s. ok (r ∷ s.0, s.1))
unfolding parse_ranges
parse_round prev_low r gap acks rounds n_ranges p g a high low few bytes =
    rw
      (
        next-vint_bytes gap (vint_bytes acks ++ p) g (more acks p a bytes),
        next-vint_bytes acks p a bytes,
        high,
        low,
        lt→ltb n_ranges max_ack_range_cnt few,
      )
      refl

-- The bytes of one range come back, and with them what is read from the bytes behind.
round_back :
    (count prev_low room : ℕ) (r : Range) (rs : List Range)
    → prev_low ≤ 2 ^ 62
    → Descending prev_low (r ∷ rs)
    → Narrow prev_low (r ∷ rs)
    → count + length (r ∷ rs) ≤ 63
    → let gap = minus (minus prev_low r.high) 2 % 2 ^ 32 in
      let acks = minus r.high r.low % 2 ^ 32 in
      (tail : List ℕ)
      → All IsByte tail
      → ((rest : List ℕ)
          → All IsByte rest
          → parse_ranges (length rs) (count + 1 + 1) r.low (tail ++ rest) ≡ ok (rs, rest))
      → All IsByte ((vint_bytes gap ++ vint_bytes acks) ++ tail)
        × ((rest : List ℕ)
            → All IsByte rest
            → parse_ranges
                (length (r ∷ rs))
                (count + 1)
                prev_low
                (((vint_bytes gap ++ vint_bytes acks) ++ tail) ++ rest)
              ≡ ok (r ∷ rs, rest))
round_back count prev_low room r rs top d n few tail bytes further =
    let gap : ℕ = minus (minus prev_low r.high) 2 % 2 ^ 32 in
    let acks : ℕ = minus r.high r.low % 2 ^ 32 in
    let d' : (r.low ≤ r.high) × (r.high + 1 < prev_low) = unfold Descending in (d.0, d.1) in
    let n' : (prev_low < r.high + 2 + 2 ^ 32) × (r.high < r.low + 2 ^ 32) =
      unfold Narrow in (n.0, n.1) in
    let g : gap < 2 ^ 62 = omega arith in
    let a : acks < 2 ^ 62 = omega arith in
    let high : minus (minus prev_low gap) 2 ≡ r.high = omega (arith, top, d', n') in
    let low : minus r.high acks ≡ r.low = omega (arith, top, d', n') in
    (
      All-append IsByte (vint_bytes gap ++ vint_bytes acks) tail
          (All-append IsByte (vint_bytes gap) (vint_bytes acks) (vint_bytes-IsByte gap g)
            (vint_bytes-IsByte acks a))
          bytes,
      λ rest h. simp append_assoc (
          parse_round prev_low r gap acks (length rs) (count + 1) (tail ++ rest) g a high low
            (omega (arith, few)) (All-append IsByte tail rest bytes h)
          ∙ rw (further rest h) refl),
    )

-- The bytes of a range in front of what was written for the others.
extend :
    (count prev_low room need : ℕ) (r : Range) (rs : List Range) (res : Result (List ℕ × ℕ))
    → prev_low ≤ 2 ^ 62
    → Descending prev_low (r ∷ rs)
    → Narrow prev_low (r ∷ rs)
    → count + length (r ∷ rs) ≤ 63
    → need ≤ 16
    → need ≤ room
    → Back (count + 1) r.low (room - need) rs res
    → let bytes =
        vint_bytes (minus (minus prev_low r.high) 2 % 2 ^ 32)
        ++ vint_bytes (minus r.high r.low % 2 ^ 32) in
      Back count prev_low room (r ∷ rs) (res >>= λ f. ok (bytes ++ f.0, f.1))
unfolding Back
extend count prev_low room need r rs (err e) top d n few small fits b =
    omega (arith, b, small, fits)
extend count prev_low room need r rs (ok f) top d n few small fits b =
    let (total, bytes, further) = b in
    let back = round_back count prev_low room r rs top d n few f.0 bytes further in
    (omega (arith, total), back.0, back.1)

-- With the counter at its limit there are no further ranges.
rest-Back :
    (count prev_low room need : ℕ) (r : Range) (rs : List Range)
    → prev_low ≤ 2 ^ 62
    → Descending prev_low (r ∷ rs)
    → Narrow prev_low (r ∷ rs)
    → count + length (r ∷ rs) ≤ 63
    → need ≤ 16
    → need ≤ room
    → Back (count + 1) r.low (room - need) rs (gen_ranges (count + 1) r.low (room - need) rs)
    → let bytes =
        vint_bytes (minus (minus prev_low r.high) 2 % 2 ^ 32)
        ++ vint_bytes (minus r.high r.low % 2 ^ 32) in
      Back count prev_low room (r ∷ rs) (
        if leb 63 (count + 1)
        then ok (bytes, count + 1)
        else (gen_ranges (count + 1) r.low (room - need) rs >>= λ f. ok (bytes ++ f.0, f.1)))
rest-Back count prev_low room need r [] top d n few small fits b =
    let bytes : List ℕ =
      vint_bytes (minus (minus prev_low r.high) 2 % 2 ^ 32)
      ++ vint_bytes (minus r.high r.low % 2 ^ 32) in
    let alone : Back count prev_low room (r ∷ []) (ok (bytes ++ [], count + 1)) =
      unfold gen_ranges in
      extend count prev_low room need r [] (ok ([], count + 1)) top d n few small fits b in
    elim (Bool-cases (leb 63 (count + 1))) [
      | inl t ↦ rw t (rw (append-nil bytes) at alone)
      | inr t ↦ rw t (unfold gen_ranges in alone)
    ]
rest-Back count prev_low room need r (q ∷ rs) top d n few small fits b =
    let open_end : leb 63 (count + 1) ≡ false = lt→leb (count + 1) 63 (omega (arith, few)) in
    rw open_end (extend count prev_low room need r (q ∷ rs) _ top d n few small fits b)

pub gen_ranges-Back :
    (count prev_low room : ℕ) (rs : List Range)
    → prev_low ≤ 2 ^ 62
    → Descending prev_low rs
    → Narrow prev_low rs
    → count + length rs ≤ 63
    → Back count prev_low room rs (gen_ranges count prev_low room rs)
unfolding gen_ranges
gen_ranges-Back count prev_low room [] top d n few =
    unfold Back parse_ranges in (omega arith, tt, λ rest h. refl)
gen_ranges-Back count prev_low room (r ∷ rs) top d n few =
    let gap : ℕ = minus (minus prev_low r.high) 2 % 2 ^ 32 in
    let acks : ℕ = minus r.high r.low % 2 ^ 32 in
    let need : ℕ = vint_size gap + vint_size acks in
    let bytes : List ℕ = vint_bytes gap ++ vint_bytes acks in
    let small : need ≤ 16 = omega (arith, vint_size-le gap, vint_size-le acks) in
    let low : r.low ≤ 2 ^ 62 = unfold Descending in omega (arith, top, d) in
    let further =
      gen_ranges-Back (count + 1) r.low (room - need) rs low (unfold Descending in d.2)
        (unfold Narrow in n.2) (omega (arith, few)) in
    elim (Bool-cases (ltb room need)) [
      | inl t ↦ rw t (unfold Back in omega (arith, small, ltb→lt room need t))
      | inr t ↦
          rw t
            (rest-Back count prev_low room need r rs top d n few small (ltb→le room need t) further)
    ]

pub found :
    (room : ℕ) (low : ℕ) (rs : List Range) (res : Result (List ℕ × ℕ))
    → 16 * length rs ≤ room
    → Back 0 low room rs res
    → (f : List ℕ × ℕ) × (res ≡ ok f)
      × (f.1 ≡ length rs)
      × All IsByte f.0
      × ((rest : List ℕ)
          → All IsByte rest
          → parse_ranges (length rs) 1 low (f.0 ++ rest) ≡ ok (rs, rest))
found room low rs (err e) h b = unfold Back in absurd (omega (arith, h, b))
found room low rs (ok f) h b = unfold Back in (f, refl, omega (arith, b), b.1, λ rest k. b.2 rest k)

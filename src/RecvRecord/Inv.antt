-- ===== src/RecvRecord/Inv.antt =====
-- The order of the ranges of a receive record, and what the walk of rqc_recv_record_add keeps of it.
use rquic.Base.{
  ℕ, ◌+◌, ◌^◌, ◌≤◌, ◌<◌, ◌≡◌, arith, refl, true, false, ◌||◌, ◌==◌, List, [], ◌∷◌, ◌++◌,
}
use rquic.Base.{none, some, length, leb, Bool-cases, inl, inr, dec_lt}
use rquic.RecvRecord.{
  Range, RecvRecord, Walk, found, merged, joined, inserted, at_tail, single, contains,
}
use rquic.RecvRecord.{can_merge, join, place, behind, walk, max_ack_range_cnt}

-- Ranges from the largest down, none empty, at least one number missing between two neighbours; all
-- below `bound`, and one missing there too.
unfoldable pub Descending : ℕ → List Range → Type 0
Descending bound [] = Unit
Descending bound (r ∷ rest) = (r.low ≤ r.high) × (r.high + 1 < bound) × Descending r.low rest

-- Packet numbers are below 2 ^ 62.
unfoldable pub IsValid : RecvRecord → Type 0
unfolding Descending
IsValid rec =
    Descending (2 ^ 62 + 1) rec.ranges
    × (rec.node_count ≡ length rec.ranges)
    × (rec.node_count ≤ max_ack_range_cnt)

-- The list stands for the numbers of `old` and for `n`.
unfoldable pub Adds : ℕ → List Range → List Range → Type 0
Adds n old rs = (m : ℕ) → contains m rs ≡ ((m == n) || contains m old)

-- The walk is right for the list `old` that it started from.
unfoldable pub Good : ℕ → List Range → ℕ → Walk → Type 0
unfolding Descending Adds
Good bound old n found = contains n old ≡ true
Good bound old n (merged rs) =
    (contains n old ≡ false) × Descending bound rs × (length rs ≡ length old) × Adds n old rs
Good bound old n (joined rs) =
    (contains n old ≡ false) × Descending bound rs × (length rs + 1 ≡ length old) × Adds n old rs
Good bound old n (inserted rs) =
    (contains n old ≡ false) × Descending bound rs × (length rs ≡ length old + 1) × Adds n old rs
Good bound old n at_tail =
    (contains n old ≡ false)
    × Descending bound (old ++ single n ∷ [])
    × Adds n old (old ++ single n ∷ [])

pub Descending-le : (b c : ℕ) (rs : List Range) → b ≤ c → Descending b rs → Descending c rs
unfolding Descending
Descending-le b c [] h d = d
Descending-le b c (r ∷ rs) h d = (d.0, omega (arith, d), d.2)

-- A number at the top of the list or above it is in none of its ranges.
pub contains_above :
    (b n : ℕ) (rs : List Range) → Descending b rs → b ≤ n + 1 → contains n rs ≡ false
unfolding Descending contains
contains_above b n [] d h = refl
contains_above b n (r ∷ rs) d h =
    let rest = contains_above r.low n rs d.2 (omega (arith, d)) in ground (arith, rest, d)

pub contains_below :
    (b k : ℕ) (rs : List Range) → Descending b rs → contains k rs ≡ true → k + 1 < b
contains_below b k rs d h = elim (dec_lt (k + 1) b) [
  | yes l ↦ l
  | no l ↦ cc (h, contains_above b k rs d (omega (arith, l)))
]

-- A range in front of both lists changes nothing.
behind-Adds : (n : ℕ) (p : Range) (old rs : List Range) → Adds n old rs → Adds n (p ∷ old) (p ∷ rs)
unfolding Adds contains
behind-Adds n p old rs a m = ground (arith, a m)

behind-Good :
    (bound : ℕ) (p : Range) (old : List Range) (n : ℕ) (w : Walk)
    → p.low ≤ p.high
    → p.high + 1 < bound
    → n < p.low
    → Good p.low old n w
    → Good bound (p ∷ old) n (behind (some p) w)
unfolding Good behind
behind-Good bound p old n found h k l g = unfold contains in ground (arith, g)
behind-Good bound p old n (merged rs) h k l g = (
  unfold contains in ground (arith, g),
  (h, k, g.1),
  omega (arith, g),
  behind-Adds n p old rs g.3,
)
behind-Good bound p old n (joined rs) h k l g = (
  unfold contains in ground (arith, g),
  (h, k, g.1),
  omega (arith, g),
  behind-Adds n p old rs g.3,
)
behind-Good bound p old n (inserted rs) h k l g = (
  unfold contains in ground (arith, g),
  (h, k, g.1),
  omega (arith, g),
  behind-Adds n p old rs g.3,
)
behind-Good bound p old n at_tail h k l g = (
  unfold contains in ground (arith, g),
  (h, k, g.1),
  behind-Adds n p old (old ++ single n ∷ []) g.2,
)

-- A node above `n`, behind which the loop stopped.
place_last :
    (bound : ℕ) (p : Range) (n : ℕ)
    → bound ≤ 2 ^ 62 + 1
    → Descending bound (p ∷ [])
    → n < p.low
    → Good bound (p ∷ []) n (place (some p) [] n)
unfolding place can_merge Good Descending Adds contains
place_last bound p n h d l = ground (arith, d)

place_first :
    (bound : ℕ) (q : Range) (rest : List Range) (n : ℕ)
    → bound ≤ 2 ^ 62 + 1
    → Descending bound (q ∷ rest)
    → q.high < n
    → n + 1 < bound
    → Good bound (q ∷ rest) n (place none (q ∷ rest) n)
unfolding place can_merge Good Descending Adds contains
place_first bound q rest n h d l k =
    let absent = contains_above q.low n rest d.2 (omega (arith, d)) in ground (arith, d, absent)

place_between :
    (bound : ℕ) (p q : Range) (rest : List Range) (n : ℕ)
    → bound ≤ 2 ^ 62 + 1
    → Descending bound (p ∷ q ∷ rest)
    → n < p.low
    → q.high < n
    → Good bound (p ∷ q ∷ rest) n (place (some p) (q ∷ rest) n)
unfolding place can_merge join Good Descending Adds contains
place_between bound p q rest n h d l k =
    let absent = contains_above q.low n rest (d.2.2) (omega (arith, d)) in ground (arith, d, absent)

-- The walk behind a node that lies above `n`.
walk_behind :
    (bound : ℕ) (p : Range) (rest : List Range) (n : ℕ)
    → bound ≤ 2 ^ 62 + 1
    → Descending bound (p ∷ rest)
    → n < p.low
    → Good bound (p ∷ rest) n (walk (some p) rest n)
unfolding walk
walk_behind bound p [] n h d l = place_last bound p n h d l
walk_behind bound p (q ∷ rest) n h d l = elim (Bool-cases (leb n q.high)) [
  | inl e ↦ elim (Bool-cases (leb q.low n)) [
    | inl e₂ ↦ rw (e, e₂) (unfold Good contains in ground (arith, e, e₂))
    | inr e₂ ↦
        rw (e, e₂)
          (behind-Good bound p (q ∷ rest) n (walk (some q) rest n) (unfold Descending in d.0)
            (unfold Descending in d.1) l
            (walk_behind p.low q rest n (unfold Descending in omega (arith, d))
              (unfold Descending in d.2) (ground (arith, e₂))))
  ]
  | inr e ↦ rw e (place_between bound p q rest n h d l (ground (arith, e)))
]

-- The walk from the head of the list.
pub walk-Good :
    (bound : ℕ) (rest : List Range) (n : ℕ)
    → bound ≤ 2 ^ 62 + 1
    → Descending bound rest
    → n + 1 < bound
    → Good bound rest n (walk none rest n)
unfolding walk
walk-Good bound [] n h d l = unfold place Good Descending Adds contains in ground arith
walk-Good bound (q ∷ rest) n h d l = elim (Bool-cases (leb n q.high)) [
  | inl e ↦ elim (Bool-cases (leb q.low n)) [
    | inl e₂ ↦ rw (e, e₂) (unfold Good contains in ground (arith, e, e₂))
    | inr e₂ ↦ rw (e, e₂) (unfold behind in walk_behind bound q rest n h d (ground (arith, e₂)))
  ]
  | inr e ↦ rw e (place_first bound q rest n h d (ground (arith, e)) l)
]

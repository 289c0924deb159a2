-- ===== src/RecvRecord/Add.antt =====
-- rqc_recv_record_add on a valid receive record: its verdict, the numbers it records, the limit.
use rquic.Base.{
  ap₂, lt→ltb, le→ltb, length-append, sym, ◌∙◌, ℕ, suc, ap, ◌+◌, ◌-◌, ◌^◌, ◌<◌, ◌≡◌, refl, arith,
  true, false, ◌||◌, ◌==◌, List, [], ◌∷◌, ◌++◌,
}
use rquic.Base.{none, length, if◌then◌else◌, Bool-cases, inl, inr, dec_lt}
use rquic.RecvRecord.{
  Range, RecvRecord, Walk, found, merged, joined, inserted, at_tail, single, contains,
}
use rquic.RecvRecord.{
  Status, added_ok, duplicate, delete_last, trim, settle, walk, recv_record_add, max_ack_range_cnt,
}
use rquic.RecvRecord.Inv.{Descending, IsValid, Adds, Good, walk-Good, contains_below}

Descending-delete_last : (b : ℕ) (rs : List Range) → Descending b rs → Descending b (delete_last rs)
unfolding Descending delete_last
Descending-delete_last b [] d = d
Descending-delete_last b (r ∷ []) d = d.2
Descending-delete_last b (r ∷ s ∷ rs) d = (d.0, d.1, Descending-delete_last r.low (s ∷ rs) d.2)

length-delete_last : (r : Range) (rs : List Range) → length (delete_last (r ∷ rs)) ≡ length rs
unfolding delete_last
length-delete_last r [] = refl
length-delete_last r (s ∷ rs) = ap suc (length-delete_last s rs)

contains-delete_last :
    (m : ℕ) (rs : List Range) → contains m (delete_last rs) ≡ true → contains m rs ≡ true
unfolding contains delete_last
contains-delete_last m [] h = h
contains-delete_last m (r ∷ []) h = ground (arith, h)
contains-delete_last m (r ∷ s ∷ rs) h = ground (arith, h, contains-delete_last m (s ∷ rs))

-- What the last range held lies below the others.
delete_last_lowest :
    (b m k : ℕ) (rs : List Range)
    → Descending b rs
    → contains m rs ≡ true
    → contains m (delete_last rs) ≡ false
    → contains k (delete_last rs) ≡ true
    → m < k
unfolding contains delete_last
delete_last_lowest b m k [] d h lost kept = cc h
delete_last_lowest b m k (r ∷ []) d h lost kept = cc kept
delete_last_lowest b m k (r ∷ s ∷ rs) d h lost kept =
    let below = contains_below r.low m (s ∷ rs) (unfold Descending in d.2) in
    let further = delete_last_lowest r.low m k (s ∷ rs) (unfold Descending in d.2) in
    ground (arith, h, lost, kept, below, further)

delete_last-append : (r : Range) (rs : List Range) → delete_last (rs ++ r ∷ []) ≡ rs
unfolding delete_last
delete_last-append r [] = refl
delete_last-append r (s ∷ []) = refl
delete_last-append r (s ∷ t ∷ rs) = ap (λ (l : List Range). s ∷ l) (delete_last-append r (t ∷ rs))

-- Past the limit the loop takes one node, the last.
trim_one :
    (r : Range) (rs : List Range) (node_count : ℕ)
    → node_count ≡ max_ack_range_cnt
    → trim (length (r ∷ rs)) (r ∷ rs) (node_count + 1) ≡ (delete_last (r ∷ rs), node_count)
unfolding trim
trim_one r rs node_count full = rw full refl

-- What a call may return on a valid record.
Settled : RecvRecord → ℕ → Status × RecvRecord → Type 0
Settled rec n result =
    IsValid result.1
    × (result.0 ≡ (if contains n rec.ranges then duplicate else added_ok))
    × (contains n rec.ranges ≡ true → result.1 ≡ rec)
    × (rec.node_count < max_ack_range_cnt → Adds n rec.ranges result.1.ranges)
    × ((m : ℕ) → contains m result.1.ranges ≡ true → ((m == n) || contains m rec.ranges) ≡ true)
    × ((m k : ℕ)
        → ((m == n) || contains m rec.ranges) ≡ true
        → contains m result.1.ranges ≡ false
        → contains k result.1.ranges ≡ true
        → m < k)

-- Nothing is lost.
kept_all :
    (rec rec' : RecvRecord) (n : ℕ)
    → contains n rec.ranges ≡ false
    → IsValid rec'
    → Adds n rec.ranges rec'.ranges
    → Settled rec n (added_ok, rec')
unfolding Settled Adds
kept_all rec rec' n new v a = (
  v,
  rw new refl,
  λ h. cc (h, new),
  λ _. a,
  λ m h. cc (h, a m),
  λ m k h lost _. cc (h, lost, a m),
)

-- The record was full, and the last range is lost.
lost_last :
    (rec rec' : RecvRecord) (n : ℕ) (rs : List Range)
    → contains n rec.ranges ≡ false
    → rec.node_count ≡ max_ack_range_cnt
    → IsValid rec'
    → Descending (2 ^ 62 + 1) rs
    → Adds n rec.ranges rs
    → rec'.ranges ≡ delete_last rs
    → Settled rec n (added_ok, rec')
unfolding Settled Adds
lost_last rec rec' n rs new full v d a e = (
  v,
  rw new refl,
  λ h. cc (h, new),
  λ h. absurd (omega (arith, h, full)),
  λ m h. cc (contains-delete_last m rs (rw (sym e) h), a m),
  λ m k h lost kept.
      delete_last_lowest (2 ^ 62 + 1) m k rs d (a m ∙ h) (rw (sym e) lost) (rw (sym e) kept),
)

settle-Settled :
    (rec : RecvRecord) (n : ℕ) (w : Walk)
    → IsValid rec
    → Good (2 ^ 62 + 1) rec.ranges n w
    → Settled rec n (settle rec n w)
unfolding settle Good
settle-Settled rec n found v g =
    unfold Settled Adds in
    (
      v,
      rw g refl,
      λ _. refl,
      λ _ m. ground (arith, g),
      λ m h. ground (arith, h),
      λ m k h l. ground (arith, h, l, g),
    )
settle-Settled rec n (merged rs) v g =
    kept_all rec (record rec { ranges = rs }) n g.0
      (unfold IsValid in (g.1, omega (arith, v, g), v.2)) g.3
settle-Settled rec n (joined rs) v g =
    kept_all rec (record rec { ranges = rs; node_count = rec.node_count - 1 }) n g.0
      (unfold IsValid in (g.1, omega (arith, v, g), omega (arith, v))) g.3
settle-Settled rec n (inserted []) v g = absurd (omega (arith, g))
settle-Settled rec n (inserted (r ∷ rs)) v g = elim (dec_lt rec.node_count max_ack_range_cnt) [
  | yes h ↦ rw (le→ltb max_ack_range_cnt (rec.node_count + 1) (omega (arith, h))) (
      kept_all rec (record rec { ranges = r ∷ rs; node_count = rec.node_count + 1 }) n g.0
        (unfold IsValid in (g.1, omega (arith, v, g), omega (arith, h))) g.3)
  | no h ↦
      let full : rec.node_count ≡ max_ack_range_cnt = unfold IsValid in omega (arith, h, v) in
      rw
        (
          lt→ltb max_ack_range_cnt (rec.node_count + 1) (omega (arith, h)),
          trim_one r rs rec.node_count full,
        )
        (lost_last rec (record rec { ranges = delete_last (r ∷ rs) }) n (r ∷ rs) g.0 full
          (unfold IsValid in
            (
              Descending-delete_last (2 ^ 62 + 1) (r ∷ rs) g.1,
              omega (arith, g, v, length-delete_last r rs),
              v.2,
            ))
          g.1 g.3 refl)
]
settle-Settled rec n at_tail v g = elim (dec_lt rec.node_count max_ack_range_cnt) [
  | yes h ↦ rw (lt→ltb rec.node_count max_ack_range_cnt h) (
      kept_all rec
        (record rec { ranges = rec.ranges ++ single n ∷ []; node_count = rec.node_count + 1 }) n g.0
        (unfold IsValid in
          (g.1, omega (arith, v, length-append rec.ranges (single n ∷ [])), omega (arith, h)))
        g.2)
  | no h ↦
      let full : rec.node_count ≡ max_ack_range_cnt = unfold IsValid in omega (arith, h, v) in
      rw (le→ltb rec.node_count max_ack_range_cnt (omega (arith, h))) (
        lost_last rec rec n (rec.ranges ++ single n ∷ []) g.0 full v g.1 g.2
          (sym (delete_last-append (single n) rec.ranges)))
]

module _ (rec : RecvRecord) (n : ℕ) (v : IsValid rec) (h : n < 2 ^ 62) where
  recv_record_add-Settled : Settled rec n (recv_record_add rec n)
  unfolding recv_record_add
  recv_record_add-Settled =
      settle-Settled rec n (walk none rec.ranges n) v (
        walk-Good (2 ^ 62 + 1) rec.ranges n (omega arith) (unfold IsValid in v.0)
          (omega (arith, h)))

  -- On a valid record, `rqc_recv_record_add` of a packet number below 2 ^ 62 leaves a valid record:
  -- ranges in order, disjoint and not adjacent, their number in node_count and 64 at most.
  pub recv_record_add-IsValid : IsValid (recv_record_add rec n).1
  recv_record_add-IsValid = unfold Settled in recv_record_add-Settled.0

  -- On a valid record, for a number below 2 ^ 62, it returns RQC_PKTRANGE_DUP, and leaves the record
  -- as it is, exactly if the number is in one of the ranges; otherwise it returns RQC_PKTRANGE_OK.
  pub recv_record_add_duplicate :
      recv_record_add rec n
      ≡ (if contains n rec.ranges then (duplicate, rec) else (added_ok, (recv_record_add rec n).1))
  recv_record_add_duplicate = elim (Bool-cases (contains n rec.ranges)) [
    | inl e ↦ rw e (
        unfold Settled in
        ap₂ (λ (s : Status) (r : RecvRecord). (s, r)) (recv_record_add-Settled.1 ∙ (rw e refl))
          (recv_record_add-Settled.2 e))
    | inr e ↦ rw e (
        unfold Settled in
        ap (λ (s : Status). (s, (recv_record_add rec n).1))
          (recv_record_add-Settled.1 ∙ (rw e refl)))
  ]

  -- On a valid record with fewer than 64 ranges, and for a number below 2 ^ 62, the record stands
  -- afterwards for the numbers it stood for and the new one, and for no other.
  pub contains-recv_record_add :
      (m : ℕ)
      → rec.node_count < max_ack_range_cnt
      → contains m (recv_record_add rec n).1.ranges ≡ ((m == n) || contains m rec.ranges)
  contains-recv_record_add m room = unfold Settled Adds in recv_record_add-Settled.3 room m

  -- On a valid record, with any number of ranges in use, and for a number below 2 ^ 62, the record
  -- holds afterwards no number but the ones it held and the new one.
  pub recv_record_add_sound :
      (m : ℕ)
      → contains m (recv_record_add rec n).1.ranges ≡ true
      → ((m == n) || contains m rec.ranges) ≡ true
  recv_record_add_sound = unfold Settled in recv_record_add-Settled.4

  -- On a valid record, and for a new number below 2 ^ 62: a number `m`, held before or new, that the
  -- record does not hold afterwards is smaller than every number `k` that it does hold.
  pub recv_record_add_forgets_lowest :
      (m k : ℕ)
      → ((m == n) || contains m rec.ranges) ≡ true
      → contains m (recv_record_add rec n).1.ranges ≡ false
      → contains k (recv_record_add rec n).1.ranges ≡ true
      → m < k
  recv_record_add_forgets_lowest = unfold Settled in recv_record_add-Settled.5

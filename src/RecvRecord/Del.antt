-- ===== src/RecvRecord/Del.antt =====
-- rqc_recv_record_del and rqc_recv_record_largest on a valid receive record.
use rquic.Base.{ℕ, ◌+◌, ◌-◌, ◌^◌, ◌≤◌, ◌≡◌, arith, true, ◌&&◌, List, [], ◌∷◌}
use rquic.Base.{length, leb, le→ltb}
use rquic.RecvRecord.{
  Range, RecvRecord, contains, delete_below, recv_record_del, recv_record_largest,
}
use rquic.RecvRecord.Inv.{Descending, Descending-le, IsValid, contains_below}

-- The loop keeps the order, frees a node and counts it down together, and leaves the numbers from
-- `d` on.
delete_below_lem :
    (b d : ℕ) (rs : List Range) (count : ℕ)
    → Descending b rs
    → length rs ≤ count
    → Descending b (delete_below d rs count).0
      × ((delete_below d rs count).1 + length rs ≡ count + length (delete_below d rs count).0)
      × ((delete_below d rs count).1 ≤ count)
      × ((m : ℕ) → contains m (delete_below d rs count).0 ≡ (contains m rs && leb d m))
unfolding delete_below Descending contains
delete_below_lem b d [] count h l = ground arith
delete_below_lem b d (r ∷ rs) count h l =
    let kept = delete_below_lem r.low d rs count h.2 (omega (arith, l)) in
    let without = delete_below_lem r.low d rs (count - 1) h.2 (omega (arith, l)) in
    let freed = Descending-le r.low b _ (omega (arith, h)) without.0 in
    let cut = λ (e : r.low ≤ d). Descending-le r.low d _ e kept.0 in
    (
      ground (arith, h, kept.0, freed, cut),
      ground (arith, l, kept.1, without.1),
      ground (arith, kept.2, without.2),
      λ m. ground (arith, kept.3 m, without.3 m),
    )

-- On a valid record, `rqc_recv_record_del` with a bound that is not below the last one keeps of the
-- numbers exactly those from the bound on, and leaves a valid record.
pub recv_record_del-contains :
    (rec : RecvRecord) (del_from m : ℕ)
    → IsValid rec
    → rec.rr_del_from ≤ del_from
    → IsValid (recv_record_del rec del_from)
      × (contains m (recv_record_del rec del_from).ranges
          ≡ (contains m rec.ranges && leb del_from m))
unfolding recv_record_del IsValid
recv_record_del-contains rec del_from m v h =
    let deleted =
      delete_below_lem (2 ^ 62 + 1) del_from rec.ranges rec.node_count v.0 (omega (arith, v)) in
    rw (le→ltb del_from rec.rr_del_from h)
      ((deleted.0, omega (arith, v, deleted), omega (arith, v, deleted)), deleted.3 m)

-- On a valid record that has ranges, the number that `rqc_recv_record_largest` returns is recorded,
-- and every recorded number is at most as large.
pub recv_record_largest_lem :
    (rec : RecvRecord) (m : ℕ)
    → IsValid rec
    → contains m rec.ranges ≡ true
    → (m ≤ recv_record_largest rec) × (contains (recv_record_largest rec) rec.ranges ≡ true)
unfolding recv_record_largest IsValid contains Descending
recv_record_largest_lem rec m v h = largest rec.ranges v.0 h
  where
    largest :
        (rs : List Range)
        → Descending (2 ^ 62 + 1) rs
        → contains m rs ≡ true
        → (m ≤ elim rs [ [] ↦ 0 | r ∷ _ ↦ r.high ])
          × (contains (elim rs [ [] ↦ 0 | r ∷ _ ↦ r.high ]) rs ≡ true)
    largest [] d e = absurd (cc e)
    largest (r ∷ rs) d e = ground (arith, d, e, contains_below r.low m rs)

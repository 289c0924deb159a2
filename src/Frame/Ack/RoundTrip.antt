-- ===== src/Frame/Ack/RoundTrip.antt =====
-- The ACK frame of a valid receive record, read back: the ranges that the record holds.
use rquic.Base.{
  ℕ, suc, ◌+◌, ◌-◌, ◌*◌, ◌/◌, ◌%◌, ◌^◌, ◌<◌, ◌≤◌, ◌≡◌, refl, arith, false, List, [], ◌∷◌, ◌++◌,
}
use rquic.Base.{ltb, length, All, All-append, append_assoc, le→ltb}
use rquic.Vint.{IsByte, vint_read, vint_write}
use rquic.RecvRecord.{Range, RecvRecord, recv_record_largest}
use rquic.RecvRecord.Inv.{Descending, IsValid}
use rquic.Frame.{
  PacketOut, PacketIn, ok, mark_out, advance, vint_bytes, vint_size, next, ack,
  get_po_remained_size_with_ack_spc,
}
use rquic.Frame.Values.{next-vint_bytes, more, vint_size-le, vint_write_byte}
use rquic.Frame.Ack.{gen_ranges, gen_ack_frame, parse_ranges, parse_ecn, parse_ack_frame}
use rquic.Base.{minus}
use rquic.Frame.Ack.Ranges.{Narrow, gen_ranges-Back, found}

type_read : (p : List ℕ) → next (0x02 ∷ p) ≡ ok (2, p)
unfolding next vint_read
type_read p = refl

-- The five numbers and the ranges of a frame, read one after the other.
parse_fields :
    (packet_in : PacketIn) (exponent' largest delay first : ℕ) (f : List ℕ × ℕ) (rs : List Range)
    (rest : List ℕ)
    → largest < 2 ^ 62
    → delay < 2 ^ 62
    → first < 2 ^ 62
    → length rs < 64
    → f.1 ≡ length rs
    → All IsByte f.0
    → All IsByte rest
    → parse_ranges (length rs) 1 (minus largest first) (f.0 ++ rest) ≡ ok (rs, rest)
    → parse_ack_frame exponent' (record packet_in {
      unread =
          (0x02 ∷ vint_bytes largest
            ++ (vint_bytes delay ++ (vint_write f.1 0 1 ++ (vint_bytes first ++ f.0))))
          ++ rest;
    })
      ≡ ok (
        record {
          path_id = 0;
          ranges = record { low = minus largest first; high = largest } ∷ rs;
          ack_delay = delay * 2 ^ exponent' % 2 ^ 64;
          largest_acked = largest;
        },
        advance ack rest packet_in,
      )
unfolding parse_ack_frame parse_ecn advance
parse_fields packet_in exponent' largest delay first f rs rest l d h few count bytes more_bytes
      read =
    let total : f.1 < 64 = omega (arith, few, count) in
    let small : f.1 < 2 ^ 62 = omega (arith, total) in
    let b₀ = All-append IsByte f.0 rest bytes more_bytes in
    let b₁ = more first (f.0 ++ rest) h b₀ in
    let b₂ = more f.1 _ small b₁ in
    let b₃ = more delay _ d b₂ in
    simp append_assoc (
      rw
        (
          vint_write_byte f.1 total,
          type_read (
              vint_bytes largest
              ++ (vint_bytes delay ++ (vint_bytes f.1 ++ (vint_bytes first ++ (f.0 ++ rest))))),
          next-vint_bytes largest
              (vint_bytes delay ++ (vint_bytes f.1 ++ (vint_bytes first ++ (f.0 ++ rest)))) l b₃,
          next-vint_bytes delay (vint_bytes f.1 ++ (vint_bytes first ++ (f.0 ++ rest))) d b₂,
          next-vint_bytes f.1 (vint_bytes first ++ (f.0 ++ rest)) small b₁,
          next-vint_bytes first (f.0 ++ rest) h b₀,
          count,
          read,
        )
        refl)

-- The record of one range at least, whose ranges and gaps fit 32 bits.
unfoldable pub IsNarrow : RecvRecord → Type 0
IsNarrow rec = elim rec.ranges [ [] ↦ ⊥ | r ∷ rest ↦ (r.high < r.low + 2 ^ 32) × Narrow r.low rest ]

-- What the theorem below says of a record.
Trip : PacketOut → PacketIn → ℕ → ℕ → ℕ → ℕ → List ℕ → RecvRecord → Type 0
Trip packet_out packet_in now largest_pkt_recv_time exponent exponent' rest rec =
    (frame : List ℕ) × (gen_ack_frame packet_out now exponent rec largest_pkt_recv_time
      ≡ ok (frame, ltb 1 rec.node_count, recv_record_largest rec, mark_out ack packet_out))
    × (parse_ack_frame exponent' (record packet_in { unread = frame ++ rest })
        ≡ ok (
          record {
            path_id = 0;
            ranges = rec.ranges;
            ack_delay = minus now largest_pkt_recv_time / 2 ^ exponent * 2 ^ exponent' % 2 ^ 64;
            largest_acked = recv_record_largest rec;
          },
          advance ack rest packet_in,
        ))

need_le :
    (a b c count space : ℕ)
    → 1 ≤ count
    → 16 * count + 10 ≤ space
    → 1 + vint_size a + vint_size b + 1 + vint_size c ≤ space
need_le a b c count space h room =
    omega (arith, vint_size-le a, vint_size-le b, vint_size-le c, h, room)

module _ (packet_out : PacketOut) (packet_in : PacketIn)
    (now largest_pkt_recv_time exponent exponent' : ℕ) (rest : List ℕ)
    (small : minus now largest_pkt_recv_time / 2 ^ exponent < 2 ^ 62)
    (bytes : All IsByte rest) where
  -- Once the ranges behind the first are written.
  Trip-wrote :
      (r : Range) (rs : List Range) (del_from count : ℕ)
      → (r.low ≤ r.high) × (r.high < 2 ^ 62)
      → r.high < r.low + 2 ^ 32
      → count ≡ suc (length rs)
      → count ≤ 64
      → 16 * count + 10 ≤ get_po_remained_size_with_ack_spc packet_out
      → (f : List ℕ × ℕ)
      → gen_ranges 0 r.low
          (get_po_remained_size_with_ack_spc packet_out
            - (1
                + vint_size r.high
                + vint_size (minus now largest_pkt_recv_time / 2 ^ exponent)
                + 1
                + vint_size (minus r.high r.low % 2 ^ 32)))
          rs
        ≡ ok f
      → f.1 ≡ length rs
      → All IsByte f.0
      → parse_ranges (length rs) 1 r.low (f.0 ++ rest) ≡ ok (rs, rest)
      → Trip packet_out packet_in now largest_pkt_recv_time exponent exponent' rest
          (record { ranges = r ∷ rs; rr_del_from = del_from; node_count = count })
  unfolding Trip gen_ack_frame recv_record_largest
  Trip-wrote r rs del_from count top narrow counted most room f written total f_bytes read =
      let delay : ℕ = minus now largest_pkt_recv_time / 2 ^ exponent in
      let first : ℕ = minus r.high r.low % 2 ^ 32 in
      let exact : minus r.high first ≡ r.low = omega (arith, top, narrow) in
      let tests : ltb (get_po_remained_size_with_ack_spc packet_out)
            (1 + vint_size r.high + vint_size delay + 1 + vint_size first)
          ≡ false =
        le→ltb _ _ (need_le r.high delay first count _ (omega (arith, counted)) room) in
      let gaps : ltb 0 f.1 ≡ ltb 1 count = ground (arith, total, counted) in
      let behind : parse_ranges (length rs) 1 (minus r.high first) (f.0 ++ rest) ≡ ok (rs, rest) =
        rw exact read in
      let parsed =
        parse_fields packet_in exponent' r.high delay first f rs rest (omega (arith, top)) small
          (omega arith) (omega (arith, counted, most)) total f_bytes bytes behind in
      (
        0x02 ∷ vint_bytes r.high
            ++ (vint_bytes delay ++ (vint_write f.1 0 1 ++ (vint_bytes first ++ f.0))),
        rw (tests, written, gaps) refl,
        rw exact at parsed,
      )

  Trip-from :
      (r : Range) (rs : List Range) (del_from count : ℕ)
      → let rec : RecvRecord = record {
        ranges = r ∷ rs;
        rr_del_from = del_from;
        node_count = count;
      } in
        IsValid rec
        → IsNarrow rec
        → 16 * count + 10 ≤ get_po_remained_size_with_ack_spc packet_out
        → Trip packet_out packet_in now largest_pkt_recv_time exponent exponent' rest rec
  Trip-from r rs del_from count v n room =
      let delay : ℕ = minus now largest_pkt_recv_time / 2 ^ exponent in
      let first : ℕ = minus r.high r.low % 2 ^ 32 in
      let need : ℕ = 1 + vint_size r.high + vint_size delay + 1 + vint_size first in
      let space : ℕ = get_po_remained_size_with_ack_spc packet_out in
      let few : need ≤ 26 =
        omega (arith, vint_size-le r.high, vint_size-le delay, vint_size-le first) in
      let counted : count ≡ suc (length rs) = unfold IsValid in v.1 in
      let most : count ≤ 64 = unfold IsValid in v.2 in
      let top : (r.low ≤ r.high) × (r.high < 2 ^ 62) =
        unfold IsValid Descending in omega (arith, v) in
      let (f, written, total, f_bytes, read) =
        found (space - need) r.low rs (gen_ranges 0 r.low (space - need) rs)
          (omega (arith, room, few, counted))
          (gen_ranges-Back 0 r.low (space - need) rs (omega (arith, top))
            (unfold IsValid Descending in v.0.2) (unfold IsNarrow in n.1)
            (omega (arith, counted, most))) in
      Trip-wrote r rs del_from count top (unfold IsNarrow in n.0) counted most room f written total
        f_bytes (read rest bytes)

  Trip-any :
      (ranges : List Range) (del_from count : ℕ)
      → let rec : RecvRecord = record {
        ranges = ranges;
        rr_del_from = del_from;
        node_count = count;
      } in
        IsValid rec
        → IsNarrow rec
        → 16 * count + 10 ≤ get_po_remained_size_with_ack_spc packet_out
        → Trip packet_out packet_in now largest_pkt_recv_time exponent exponent' rest rec
  Trip-any [] del_from count v n room = unfold IsNarrow in absurd n
  Trip-any (r ∷ rs) del_from count v n room = Trip-from r rs del_from count v n room

-- For a valid record of at least one range, whose ranges and gaps fit 32 bits, and with room for 16
-- bytes per range and 10 more, `rqc_gen_ack_frame` writes an ACK frame. `rqc_parse_ack_frame` reads
-- from it all ranges of the record, in their order, its largest number, and the delay in units of
-- the sender's exponent scaled by the receiver's, before whatever bytes follow.
pub parse-gen_ack_frame :
    (packet_out : PacketOut) (packet_in : PacketIn) (rec : RecvRecord)
    (now largest_pkt_recv_time exponent exponent' : ℕ) (rest : List ℕ)
    → IsValid rec
    → IsNarrow rec
    → minus now largest_pkt_recv_time / 2 ^ exponent < 2 ^ 62
    → 16 * rec.node_count + 10 ≤ get_po_remained_size_with_ack_spc packet_out
    → All IsByte rest
    → (frame : List ℕ) × (gen_ack_frame packet_out now exponent rec largest_pkt_recv_time
        ≡ ok (frame, ltb 1 rec.node_count, recv_record_largest rec, mark_out ack packet_out))
      × (parse_ack_frame exponent' (record packet_in { unread = frame ++ rest })
          ≡ ok (
            record {
              path_id = 0;
              ranges = rec.ranges;
              ack_delay = minus now largest_pkt_recv_time / 2 ^ exponent * 2 ^ exponent' % 2 ^ 64;
              largest_acked = recv_record_largest rec;
            },
            advance ack rest packet_in,
          ))
parse-gen_ack_frame packet_out packet_in rec now t exponent exponent' rest v n delay room bytes =
    unfold Trip in
    Trip-any packet_out packet_in now t exponent exponent' rest delay bytes rec.ranges
      rec.rr_del_from rec.node_count v n room

-- ===== src/Frame/Ack.antt =====
-- src/transport/rqc_frame_parser.c: the ACK frame, written from a receive record and read into an
-- rqc_ack_info_t. `unsigned` numbers have 32 bits, the others 64.
pub mod Ranges
pub mod RoundTrip
use rquic.Base.{
  ℕ, zero, suc, ◌+◌, ◌-◌, ◌*◌, ◌/◌, ◌%◌, ◌^◌, Bool, List, [], ◌∷◌, ◌++◌, minus, ltb, leb, ◌==◌,
  if◌then◌else◌,
}
use rquic.RecvRecord.{Range, RecvRecord, max_ack_range_cnt}
use rquic.Vint.{vint_write}
use rquic.Frame.{
  PacketOut, PacketIn, Error, enobuf, enullptr, Result, ok, err, ◌>>=◌, mark_out, advance,
  get_po_remained_size_with_ack_spc, vint_bytes, vint_size, next, ack,
}

-- The loop over the ranges behind the first: from `range_count`, `prev_low` and the space between
-- `dst_buf` and `end`, to the bytes and `range_count`.
pub gen_ranges : ℕ → ℕ → ℕ → List Range → Result (List ℕ × ℕ)
gen_ranges range_count prev_low room [] = ok ([], range_count)
gen_ranges range_count prev_low room (r ∷ rest) =
    let gap = minus (minus prev_low r.high) 2 % 2 ^ 32 in
    let acks = minus r.high r.low % 2 ^ 32 in
    let need = vint_size gap + vint_size acks in
    let bytes = vint_bytes gap ++ vint_bytes acks in
    let further = gen_ranges (range_count + 1) r.low (room - need) rest in
    if ltb room need
    then err enobuf
    else if leb (max_ack_range_cnt - 1) (range_count + 1)
    then ok (bytes, range_count + 1)
    else (further >>= λ f. ok (bytes ++ f.0, f.1))

-- `rqc_gen_ack_frame`: the bytes, `*has_gap`, `*largest_ack`, and the packet.
pub gen_ack_frame : PacketOut → ℕ → ℕ → RecvRecord → ℕ → Result (List ℕ × Bool × ℕ × PacketOut)
gen_ack_frame packet_out now ack_delay_exponent recv_record largest_pkt_recv_time =
    elim recv_record.ranges [
      | [] ↦ err enullptr
      | first_range ∷ rest ↦
          let ack_delay = minus now largest_pkt_recv_time / 2 ^ ack_delay_exponent in
          let largest_recv = first_range.high in
          let first_ack_range = minus largest_recv first_range.low % 2 ^ 32 in
          let room = get_po_remained_size_with_ack_spc packet_out in
          let need =
            1 + vint_size largest_recv + vint_size ack_delay + 1 + vint_size first_ack_range in
          if ltb room need
          then err enobuf
          else (gen_ranges 0 first_range.low (room - need) rest >>= λ f. ok (
            0x02 ∷ vint_bytes largest_recv
                ++ (vint_bytes ack_delay
                    ++ (vint_write f.1 0 1 ++ (vint_bytes first_ack_range ++ f.0))),
            ltb 0 f.1,
            largest_recv,
            mark_out ack packet_out,
          ))
    ]

-- rqc_ack_info_t; the ranges stored are `n_ranges` in number.
pub record AckInfo : Type 0 where
  pub path_id : ℕ
  pub ranges : List Range
  pub ack_delay : ℕ
  pub largest_acked : ℕ

-- The loop of `rqc_parse_ack_frame`, from the rounds left, `n_ranges` and the last `low`. Ranges
-- beyond the 64 that fit are read and dropped.
pub parse_ranges : ℕ → ℕ → ℕ → List ℕ → Result (List Range × List ℕ)
parse_ranges zero n_ranges last_low p = ok ([], p)
parse_ranges (suc rounds) n_ranges last_low p = do
  (gap, p) ← next p
  (range, p) ← next p
  (let high = minus (minus last_low gap) 2 in
      let low = minus high range in
      let stored = parse_ranges rounds (n_ranges + 1) low p in
      let dropped = parse_ranges rounds n_ranges last_low p in
      if ltb n_ranges max_ack_range_cnt
      then (stored >>= λ s. ok (record { low = low; high = high } ∷ s.0, s.1))
      else dropped)

-- The ECN counts are read and dropped.
pub parse_ecn : ℕ → List ℕ → Result (List ℕ)
parse_ecn frame_type p =
    if frame_type == 0x03
    then (do (_, p) ← next p; (_, p) ← next p; (_, p) ← next p; ok p)
    else ok p

-- `rqc_parse_ack_frame`, with `conn->remote_settings.ack_delay_exponent`
pub parse_ack_frame : ℕ → PacketIn → Result (AckInfo × PacketIn)
parse_ack_frame ack_delay_exponent packet_in = do
  (frame_type, p) ← next packet_in.unread
  (largest_acked, p) ← next p
  (ack_delay, p) ← next p
  (ack_range_count, p) ← next p
  (first_ack_range, p) ← next p
  (ranges, p) ← parse_ranges ack_range_count 1 (minus largest_acked first_ack_range) p
  p ← parse_ecn frame_type p
  ok (
    record {
      path_id = 0;
      ranges = record { low = minus largest_acked first_ack_range; high = largest_acked } ∷ ranges;
      ack_delay = ack_delay * 2 ^ ack_delay_exponent % 2 ^ 64;
      largest_acked = largest_acked;
    },
    advance ack p packet_in,
  )

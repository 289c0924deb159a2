-- ===== src/Recovery/Inflight.antt =====
-- The bytes in flight are those of the packets that are marked so.
use rquic.Base.{ℕ, ◌+◌, ◌^◌, ◌<◌, ◌≡◌, arith, true, false, List, [], ◌∷◌, ◌++◌, if◌then◌else◌, All}
use rquic.Recovery.{Recovery, UnackedPacket, bounded_subtract, increase_inflight, decrease_inflight}

-- The sizes of the packets in flight
unfoldable pub flying : UnackedPacket → ℕ
flying po = if po.in_flight then po.po_used_size else 0

unfoldable pub in_flight_bytes : List UnackedPacket → ℕ
in_flight_bytes [] = 0
in_flight_bytes (po ∷ rest) = flying po + in_flight_bytes rest

-- Both counters are the sum over all packets, which fits into 32 bits; only packets that elicit an
-- acknowledgement are in flight.
pub record IsCounted (ctl : Recovery) (all : List UnackedPacket) : Type 0 where
  pub total : ctl.ctl_bytes_in_flight ≡ in_flight_bytes all
  pub eliciting : ctl.ctl_bytes_ack_eliciting_inflight ≡ in_flight_bytes all
  pub marked : All (λ (po : UnackedPacket). po.in_flight ≡ true → po.ack_eliciting ≡ true) all

in_flight_bytes-append :
    (xs ys : List UnackedPacket)
    → in_flight_bytes (xs ++ ys) ≡ in_flight_bytes xs + in_flight_bytes ys
unfolding in_flight_bytes
in_flight_bytes-append [] ys = omega arith
in_flight_bytes-append (po ∷ xs) ys = omega (arith, in_flight_bytes-append xs ys)

abbrev Marked : UnackedPacket → Type 0
Marked po = po.in_flight ≡ true → po.ack_eliciting ≡ true

All-replace :
    (xs ys : List UnackedPacket) (po po' : UnackedPacket)
    → (Marked po → Marked po')
    → All Marked (xs ++ po ∷ ys)
    → All Marked (xs ++ po' ∷ ys)
All-replace [] ys po po' h all = (h all.0, all.1)
All-replace (x ∷ xs) ys po po' h all = (all.0, All-replace xs ys po po' h all.1)

All-at : (xs ys : List UnackedPacket) (po : UnackedPacket) → All Marked (xs ++ po ∷ ys) → Marked po
All-at [] ys po all = all.0
All-at (x ∷ xs) ys po all = All-at xs ys po all.1

-- The sum with one packet replaced
replaced :
    (xs ys : List UnackedPacket) (po : UnackedPacket)
    → in_flight_bytes (xs ++ po ∷ ys) ≡ in_flight_bytes xs + (flying po + in_flight_bytes ys)
replaced xs ys po = unfold in_flight_bytes in in_flight_bytes-append xs (po ∷ ys)

increased :
    (ctl : Recovery) (po : UnackedPacket) (others : ℕ)
    → ctl.ctl_bytes_in_flight ≡ others + flying po
    → ctl.ctl_bytes_ack_eliciting_inflight ≡ others + flying po
    → others + flying po + po.po_used_size < 2 ^ 32
    → let after = increase_inflight ctl po in
      (after.0.ctl_bytes_in_flight ≡ others + flying after.1)
      × (after.0.ctl_bytes_ack_eliciting_inflight ≡ others + flying after.1)
      × (Marked po → Marked after.1)
unfolding increase_inflight flying
increased ctl po others a b c = (ground arith, ground arith, λ m t. ground (arith, m))

decreased :
    (ctl : Recovery) (po : UnackedPacket) (others : ℕ)
    → ctl.ctl_bytes_in_flight ≡ others + flying po
    → ctl.ctl_bytes_ack_eliciting_inflight ≡ others + flying po
    → Marked po
    → let after = decrease_inflight ctl po in
      (after.0.ctl_bytes_in_flight ≡ others + flying after.1)
      × (after.0.ctl_bytes_ack_eliciting_inflight ≡ others + flying after.1)
      × (after.1.in_flight ≡ false)
unfolding decrease_inflight flying bounded_subtract
decreased ctl po others a b m = (ground (arith, m), ground (arith, m), ground (arith, m))

-- rqc_send_ctl_increase_inflight of one of the packets keeps both counters equal to the bytes of the
-- packets in flight, when these and the packet have less than 2 ^ 32 bytes.
pub increase_inflight-IsCounted :
    (ctl : Recovery) (before after : List UnackedPacket) (po : UnackedPacket)
    → IsCounted ctl (before ++ po ∷ after)
    → in_flight_bytes (before ++ po ∷ after) + po.po_used_size < 2 ^ 32
    → IsCounted (increase_inflight ctl po).0 (before ++ (increase_inflight ctl po).1 ∷ after)
increase_inflight-IsCounted ctl before after po c small =
    let others : ℕ = in_flight_bytes before + in_flight_bytes after in
    let was = replaced before after po in
    let is = replaced before after (increase_inflight ctl po).1 in
    let r =
      increased ctl po others (omega (arith, c.total, was)) (omega (arith, c.eliciting, was))
        (omega (arith, small, was)) in
    record {
      total = omega (arith, r.0, is);
      eliciting = omega (arith, r.1, is);
      marked = All-replace before after po (increase_inflight ctl po).1 r.2 c.marked;
    }

-- So does rqc_send_ctl_decrease_inflight, and the packet is not in flight then.
pub decrease_inflight-IsCounted :
    (ctl : Recovery) (before after : List UnackedPacket) (po : UnackedPacket)
    → IsCounted ctl (before ++ po ∷ after)
    → IsCounted (decrease_inflight ctl po).0 (before ++ (decrease_inflight ctl po).1 ∷ after)
      × ((decrease_inflight ctl po).1.in_flight ≡ false)
decrease_inflight-IsCounted ctl before after po c =
    let others : ℕ = in_flight_bytes before + in_flight_bytes after in
    let was = replaced before after po in
    let is = replaced before after (decrease_inflight ctl po).1 in
    let r =
      decreased ctl po others (omega (arith, c.total, was)) (omega (arith, c.eliciting, was))
        (All-at before after po c.marked) in
    (
      record {
        total = omega (arith, r.0, is);
        eliciting = omega (arith, r.1, is);
        marked =
            All-replace before after po (decrease_inflight ctl po).1 (λ m t. cc (r.2, t)) c.marked;
      },
      r.2,
    )

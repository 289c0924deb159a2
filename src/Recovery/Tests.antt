-- ===== src/Recovery/Tests.antt =====
-- Concrete estimates and packets in flight.
use rquic.Base.{◌+◌, ◌-◌, ◌^◌, ◌≤◌, ◌<◌, ◌≡◌, min, max, refl, arith, true, false, [], ◌∷◌, ◌++◌}
use rquic.Recovery.{Recovery, UnackedPacket, update_rtt, increase_inflight, decrease_inflight}
use rquic.Recovery.Rtt.{update_rtt_lem}
use rquic.Recovery.Inflight.{
  flying, in_flight_bytes, IsCounted, increase_inflight-IsCounted, decrease_inflight-IsCounted,
}

abbrev ctl : Recovery
ctl = record {
  ctl_srtt = 50000;
  ctl_rttvar = 10000;
  ctl_minrtt = 40000;
  ctl_latest_rtt = 50000;
  ctl_first_rtt_sample_time = 7;
  ctl_update_latest_rtt_count = 1;
  ctl_latest_rtt_sum = 50;
  ctl_latest_rtt_square_sum = 2500;
  ctl_largest_acked = 9;
  ctl_reordering_packet_threshold = 3;
  ctl_reordering_time_threshold_shift = 3;
  ctl_loss_time = 0;
  ctl_lost_pkts_number = 0;
  ctl_bytes_in_flight = 1200;
  ctl_bytes_ack_eliciting_inflight = 1200;
  loss_timer = record { timer_is_set = false; expire_time = 0 };
  is_handshake_done = true;
  max_ack_delay = 25;
}

abbrev sent : UnackedPacket
sent = record {
  pkt_num = 10;
  po_sent_time = 100;
  po_used_size = 1200;
  in_flight = true;
  repair = true;
  can_in_flight = true;
  ack_eliciting = true;
}

abbrev next_one : UnackedPacket
next_one = record sent { pkt_num = 11; po_used_size = 300; in_flight = false }

update_rtt_lem_example :
    ((update_rtt ctl 90000 20000 100).ctl_minrtt ≡ min 90000 40000)
    × ((update_rtt ctl 90000 20000 100).ctl_srtt ≤ max 50000 90000)
    × (min 50000 ((update_rtt ctl 90000 20000 100).ctl_minrtt - 1000)
        ≤ (update_rtt ctl 90000 20000 100).ctl_srtt)
    × (min 50000 (90000 - 20000) ≤ (update_rtt ctl 90000 20000 100).ctl_srtt)
    × ((update_rtt ctl 90000 20000 100).ctl_rttvar ≤ max 10000 (max 50000 90000))
update_rtt_lem_example =
    update_rtt_lem ctl 90000 20000 100 (omega arith) (omega arith) (omega arith) (omega arith)
      (omega arith)

counted : IsCounted ctl (sent ∷ next_one ∷ [])
unfolding in_flight_bytes flying
counted = record { total = refl; eliciting = refl; marked = (λ e. refl, (λ e. refl, tt)) }

small : in_flight_bytes (sent ∷ next_one ∷ []) + 300 < 2 ^ 32
unfolding in_flight_bytes flying
small = omega arith

increase_inflight-IsCounted_example :
    IsCounted
      (increase_inflight ctl next_one).0
      ((sent ∷ []) ++ (increase_inflight ctl next_one).1 ∷ [])
increase_inflight-IsCounted_example =
    increase_inflight-IsCounted ctl (sent ∷ []) [] next_one counted small

decrease_inflight-IsCounted_example :
    IsCounted (decrease_inflight ctl sent).0 ([] ++ (decrease_inflight ctl sent).1 ∷ next_one ∷ [])
    × ((decrease_inflight ctl sent).1.in_flight ≡ false)
decrease_inflight-IsCounted_example =
    decrease_inflight-IsCounted ctl [] (next_one ∷ []) sent counted

-- 20 of the 90 milliseconds are the peer's delay.
new_srtt : (update_rtt ctl 90000 20000 100).ctl_srtt ≡ 52500
unfolding update_rtt
new_srtt = refl

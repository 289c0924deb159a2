-- ===== src/Recovery.antt =====
-- src/transport/rqc_send_ctl.c: the estimate of the round trip time, the packets that are deemed lost,
-- and the timer of loss detection. The packets that wait for an acknowledgement are the list
-- sndq_unacked_packets, in the order of their numbers. An rqc_usec_t is a 64-bit word.
pub mod Rtt
pub mod Inflight
mod Tests
use rquic.Base.{
  ℕ, ◌+◌, ◌-◌, ◌*◌, ◌/◌, ◌%◌, ◌^◌, min, max, minus, Bool, true, false, ◌&&◌, ◌||◌, not, List, [],
  ◌∷◌, ltb, leb, ◌==◌, if◌then◌else◌,
}
use rquic.Pacing.{Timer}
use rquic.TransportParams.{default_max_ack_delay}

-- Of rqc_send_ctl_s, and the settings that its functions read
pub record Recovery : Type 0 where
  pub ctl_srtt : ℕ
  pub ctl_rttvar : ℕ
  pub ctl_minrtt : ℕ
  pub ctl_latest_rtt : ℕ
  pub ctl_first_rtt_sample_time : ℕ
  pub ctl_update_latest_rtt_count : ℕ
  pub ctl_latest_rtt_sum : ℕ
  pub ctl_latest_rtt_square_sum : ℕ
  pub ctl_largest_acked : ℕ
  pub ctl_reordering_packet_threshold : ℕ
  pub ctl_reordering_time_threshold_shift : ℕ
  pub ctl_loss_time : ℕ
  pub ctl_lost_pkts_number : ℕ
  pub ctl_bytes_in_flight : ℕ
  pub ctl_bytes_ack_eliciting_inflight : ℕ
  pub loss_timer : Timer
  pub is_handshake_done : Bool
  pub max_ack_delay : ℕ

-- RQC_MAX_UINT64_VALUE and RQC_kGranularity (milliseconds)
abbrev pub max_uint64 : ℕ
max_uint64 = 2 ^ 64 - 1

abbrev pub granularity : ℕ
granularity = 2

-- rqc_send_ctl_latest_rtt_tracking
pub latest_rtt_tracking : Recovery → ℕ → Recovery
latest_rtt_tracking ctl latest_rtt =
    let sample = latest_rtt / 1000 in
    if ltb (2 ^ 62) ctl.ctl_latest_rtt_square_sum then ctl else record ctl {
      ctl_update_latest_rtt_count = (ctl.ctl_update_latest_rtt_count + 1) % 2 ^ 32;
      ctl_latest_rtt_sum = (ctl.ctl_latest_rtt_sum + sample) % 2 ^ 64;
      ctl_latest_rtt_square_sum = (ctl.ctl_latest_rtt_square_sum + sample * sample) % 2 ^ 64;
    }

-- The delay that may be taken off a sample
pub clamped_delay : Recovery → ℕ → ℕ
clamped_delay ctl ack_delay =
    if ctl.is_handshake_done
    then min ack_delay (ctl.max_ack_delay * 1000 % 2 ^ 64)
    else min ack_delay (default_max_ack_delay * 1000)

-- `adjusted_rtt`, from `ctl_minrtt`, the sample and the clamped delay
pub adjust : ℕ → ℕ → ℕ → ℕ
adjust minrtt latest_rtt ack_delay =
    if ltb ack_delay latest_rtt
      && leb ((minrtt + ack_delay) % 2 ^ 64) ((latest_rtt + 1000) % 2 ^ 64)
    then minus latest_rtt ack_delay
    else latest_rtt

-- The two moving averages: one quarter and one eighth of the new value
pub smooth_var : ℕ → ℕ → ℕ → ℕ
smooth_var rttvar srtt adjusted_rtt =
    let off = if ltb adjusted_rtt srtt then minus srtt adjusted_rtt else minus adjusted_rtt srtt in
    (minus rttvar (rttvar / 4) + off / 4) % 2 ^ 64

pub smooth : ℕ → ℕ → ℕ
smooth srtt adjusted_rtt = (minus srtt (srtt / 8) + adjusted_rtt / 8) % 2 ^ 64

-- rqc_send_ctl_update_rtt; `now`: the clock.
pub update_rtt : Recovery → ℕ → ℕ → ℕ → Recovery
unfolding latest_rtt_tracking clamped_delay adjust smooth_var smooth
update_rtt ctl latest_rtt ack_delay now =
    let tracked = latest_rtt_tracking ctl latest_rtt in
    let minrtt = min latest_rtt ctl.ctl_minrtt in
    let adjusted_rtt = adjust minrtt latest_rtt (clamped_delay ctl ack_delay) in
    if ctl.ctl_first_rtt_sample_time == 0
    then record tracked {
      ctl_minrtt = latest_rtt;
      ctl_srtt = latest_rtt;
      ctl_rttvar = latest_rtt / 2;
      ctl_first_rtt_sample_time = now;
    }
    else record tracked {
      ctl_minrtt = minrtt;
      ctl_rttvar = smooth_var ctl.ctl_rttvar ctl.ctl_srtt adjusted_rtt;
      ctl_srtt = smooth ctl.ctl_srtt adjusted_rtt;
    }

-- rqc_send_ctl_calc_pto
pub calc_pto : Recovery → ℕ
calc_pto ctl =
    (ctl.ctl_srtt
      + max (4 * ctl.ctl_rttvar % 2 ^ 64) (granularity * 1000)
      + ctl.max_ack_delay * 1000)
    % 2 ^ 64

-- Of rqc_packet_out_t. `in_flight` and `lost` are bits of `po_flag`; `repair` is the test
-- RQC_NEED_REPAIR(po_frame_types) || RQC_POF_NOTIFY, `can_in_flight` and `ack_eliciting` are
-- RQC_CAN_IN_FLIGHT and RQC_IS_ACK_ELICITING of `po_frame_types`.
pub record UnackedPacket : Type 0 where
  pub pkt_num : ℕ
  pub po_sent_time : ℕ
  pub po_used_size : ℕ
  pub in_flight : Bool
  pub repair : Bool
  pub can_in_flight : Bool
  pub ack_eliciting : Bool

-- rqc_send_ctl_get_lost_sent_pn
pub get_lost_sent_pn : Recovery → ℕ
get_lost_sent_pn ctl =
    if leb ctl.ctl_reordering_packet_threshold ctl.ctl_largest_acked
    then ctl.ctl_largest_acked - ctl.ctl_reordering_packet_threshold
    else max_uint64

-- `loss_delay` of rqc_send_ctl_detect_lost
pub loss_delay : Recovery → ℕ
loss_delay ctl =
    let longest = max ctl.ctl_latest_rtt ctl.ctl_srtt in
    max ((longest + longest / 2 ^ ctl.ctl_reordering_time_threshold_shift) % 2 ^ 64)
      (granularity * 1000)

-- rqc_uint32_bounded_subtract
pub bounded_subtract : ℕ → ℕ → ℕ
bounded_subtract a b = if ltb b a then a - b else 0

-- rqc_send_ctl_increase_inflight and rqc_send_ctl_decrease_inflight, on a connection with a path
pub increase_inflight : Recovery → UnackedPacket → Recovery × UnackedPacket
increase_inflight ctl po =
    if not po.in_flight && (po.can_in_flight && po.ack_eliciting)
    then (
      record ctl {
        ctl_bytes_in_flight = (ctl.ctl_bytes_in_flight + po.po_used_size) % 2 ^ 32;
        ctl_bytes_ack_eliciting_inflight =
            (ctl.ctl_bytes_ack_eliciting_inflight + po.po_used_size) % 2 ^ 32;
      },
      record po { in_flight = true },
    )
    else (ctl, po)

pub decrease_inflight : Recovery → UnackedPacket → Recovery × UnackedPacket
unfolding bounded_subtract
decrease_inflight ctl po =
    if po.in_flight && po.ack_eliciting
    then (
      record ctl {
        ctl_bytes_ack_eliciting_inflight =
            bounded_subtract ctl.ctl_bytes_ack_eliciting_inflight po.po_used_size;
        ctl_bytes_in_flight = bounded_subtract ctl.ctl_bytes_in_flight po.po_used_size;
      },
      record po { in_flight = false },
    )
    else (ctl, po)

-- ===== src/Pacing.antt =====
-- src/transport/rqc_pacing.c and rqc_timer.h: the token bucket that spaces packets, and its timer. The
-- clock and the congestion controller's answers are arguments. A rqc_usec_t is a 64-bit word, the
-- budgets are 32-bit words. A quotient by 0, which C leaves undefined, is 0 here.
pub mod Budget
pub mod Progress
mod Tests
use rquic.Base.{
  minus, ℕ, ◌+◌, ◌-◌, ◌*◌, ◌/◌, ◌%◌, ◌^◌, min, max, Bool, true, false, Option, none, some, ltb, leb,
  ◌==◌, if◌then◌else◌,
}

-- Of rqc_timer_t
pub record Timer : Type 0 where
  pub timer_is_set : Bool
  pub expire_time : ℕ

-- rqc_pacing_t without `ctl_ctx`, and the pacing timer of the path
pub record Pacing : Type 0 where
  pub pacing_on : Bool
  pub bytes_budget : ℕ
  pub last_sent_time : ℕ
  pub pending_budget : ℕ
  pub timer : Timer

-- What the code asks of the send control: the rate of a congestion controller that has one, else its
-- window, the smoothed round trip time, the configured one, and whether it is in slow start.
pub record SendCtl : Type 0 where
  pub get_pacing_rate : Option ℕ
  pub get_cwnd : ℕ
  pub ctl_srtt : ℕ
  pub initial_rtt : ℕ
  pub in_slow_start : Bool

-- RQC_MSS, RQC_MAX_BURST_NUM, RQC_PACING_DELAY_US and RQC_CLOCK_GRANULARITY_US
abbrev pub mss : ℕ
mss = 1452

abbrev pub max_burst_num : ℕ
max_burst_num = 10 * 1452

abbrev pub pacing_delay_us : ℕ
pacing_delay_us = 1000

-- rqc_timer_set, rqc_timer_unset and rqc_timer_update
pub timer_set : ℕ → ℕ → Timer → Timer
timer_set now inter_time timer = record {
  timer_is_set = true;
  expire_time = (now + inter_time) % 2 ^ 64;
}

pub timer_unset : Timer → Timer
timer_unset timer = record { timer_is_set = false; expire_time = 0 }

pub timer_update : ℕ → ℕ → Timer → Timer
timer_update now inter_time timer =
    let new_expire = (now + inter_time) % 2 ^ 64 in
    if ltb (minus new_expire timer.expire_time) 1000
    then timer
    else if timer.timer_is_set
    then record timer { expire_time = new_expire }
    else timer_set now inter_time timer

-- rqc_pacing_init; `ack_multiple`: the controller has rqc_cong_ctl_on_ack_multiple_pkts.
pub pacing_init : Bool → Bool → Timer → Pacing
pacing_init pacing_on ack_multiple timer = record {
  pacing_on = if ack_multiple then true else pacing_on;
  bytes_budget = max_burst_num;
  last_sent_time = 0;
  pending_budget = 0;
  timer = timer;
}

pub effective_srtt : SendCtl → ℕ
effective_srtt c = if c.ctl_srtt == 0 then c.initial_rtt else c.ctl_srtt

-- The rate before the gain: a rate of 0 becomes RQC_DEFAULT_PACING_RATE.
pub base_rate : SendCtl → ℕ
base_rate c =
    let rate = c.get_cwnd * 1000000 % 2 ^ 64 / effective_srtt c in
    if rate == 0 then 2 * mss * 1000000 / effective_srtt c else rate

-- rqc_pacing_rate_calc
pub pacing_rate_calc : SendCtl → ℕ
pacing_rate_calc c = elim c.get_pacing_rate [
  | some rate ↦ rate
  | none ↦ if c.in_slow_start then base_rate c * 2 % 2 ^ 64 else base_rate c * 12 % 2 ^ 64 / 10
]

-- rqc_pacing_max_burst_size
pub pacing_max_burst_size : SendCtl → ℕ
pacing_max_burst_size c =
    let max_burst_bytes = 2000 * pacing_rate_calc c % 2 ^ 64 / 1000000 in
    max max_burst_num max_burst_bytes % 2 ^ 32

-- rqc_pacing_calc_budget
pub pacing_calc_budget : SendCtl → Pacing → ℕ → ℕ
pacing_calc_budget c pacing now =
    let max_burst_bytes = pacing_max_burst_size c in
    let earned = minus now pacing.last_sent_time * pacing_rate_calc c % 2 ^ 64 / 1000000 in
    let budget =
      if pacing.last_sent_time == 0
      then max_burst_bytes
      else (pacing.bytes_budget + earned) % 2 ^ 32 in
    min budget max_burst_bytes

-- rqc_pacing_on_timeout
pub pacing_on_timeout : SendCtl → Pacing → ℕ → Pacing
pacing_on_timeout c pacing now =
    let budget = pacing_calc_budget c pacing now in
    record pacing {
      bytes_budget = max budget ((pacing.bytes_budget + pacing.pending_budget) % 2 ^ 32);
      pending_budget = 0;
      last_sent_time = now;
    }

-- rqc_pacing_on_packet_sent
pub pacing_on_packet_sent : SendCtl → Pacing → ℕ → ℕ → Pacing
pacing_on_packet_sent c pacing now bytes =
    let budget = pacing_calc_budget c pacing now in
    record pacing {
      bytes_budget = if ltb budget bytes then 0 else budget - bytes;
      last_sent_time = now;
    }

-- rqc_pacing_time_until_send
pub pacing_time_until_send : SendCtl → Pacing → ℕ → ℕ × Pacing
pacing_time_until_send c pacing bytes =
    let missing = bytes - pacing.bytes_budget in
    let delay_us = max (missing * 1000000 / pacing_rate_calc c) pacing_delay_us in
    if leb bytes pacing.bytes_budget
    then (0, pacing)
    else (delay_us, record pacing { pending_budget = missing })

-- rqc_pacing_can_write
pub pacing_can_write : SendCtl → Pacing → ℕ → ℕ → Bool × Pacing
pacing_can_write c pacing now total_bytes =
    let waited = pacing_time_until_send c pacing total_bytes in
    if pacing.timer.timer_is_set
    then (false, pacing)
    else if waited.0 == 0
    then (true, waited.1)
    else (false, record waited.1 { timer = timer_update now waited.0 waited.1.timer })

-- rqc_pacing_on_app_limit
pub pacing_on_app_limit : Pacing → ℕ → Pacing
pacing_on_app_limit pacing now = record pacing {
  bytes_budget = max_burst_num;
  last_sent_time = now;
}

-- rqc_timer_expire on the pacing timer, whose callback is rqc_pacing_on_timeout with the clock `clock`
pub timer_expire : SendCtl → Pacing → ℕ → ℕ → Pacing
timer_expire c pacing now clock =
    let called = pacing_on_timeout c pacing clock in
    if pacing.timer.timer_is_set
    then (if leb pacing.timer.expire_time now
        then record called { timer = timer_unset called.timer }
        else pacing)
    else pacing

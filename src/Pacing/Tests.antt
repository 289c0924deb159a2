-- ===== src/Pacing/Tests.antt =====
-- Concrete pacing.
use rquic.Base.{◌+◌, ◌≤◌, ◌≡◌, refl, arith, true, false, none}
use rquic.Pacing.{
  Pacing, SendCtl, pacing_can_write, pacing_time_until_send, pacing_rate_calc, base_rate,
  effective_srtt, timer_update, timer_set, timer_expire,
}
use rquic.Pacing.Progress.{Idle, pacing_can_write_later}

-- A window of 14520 bytes in a round trip of 50 ms, in slow start.
abbrev ctl : SendCtl
ctl = record {
  get_pacing_rate = none;
  get_cwnd = 14520;
  ctl_srtt = 50000;
  initial_rtt = 250000;
  in_slow_start = true;
}

abbrev nearly_empty : Pacing
nearly_empty = record {
  pacing_on = true;
  bytes_budget = 200;
  last_sent_time = 5000;
  pending_budget = 0;
  timer = record { timer_is_set = false; expire_time = 0 };
}

nearly_empty-Idle : Idle nearly_empty.timer
unfolding Idle
nearly_empty-Idle = (refl, refl)

refused : (pacing_can_write ctl nearly_empty 6000 1452).0 ≡ false
unfolding pacing_can_write pacing_time_until_send pacing_rate_calc base_rate effective_srtt
    timer_update timer_set
refused = refl

due : (pacing_can_write ctl nearly_empty 6000 1452).1.timer.expire_time ≤ 8200
unfolding pacing_can_write pacing_time_until_send pacing_rate_calc base_rate effective_srtt
    timer_update timer_set
due = omega arith

rate : pacing_rate_calc ctl ≡ 580800
unfolding pacing_rate_calc base_rate effective_srtt
rate = refl

pacing_can_write_later_example :
    ((pacing_can_write ctl nearly_empty 6000 1452).1.timer.timer_is_set ≡ true)
    × (6000 + 1000 ≤ (pacing_can_write ctl nearly_empty 6000 1452).1.timer.expire_time)
    × ((pacing_can_write ctl
          (timer_expire ctl (pacing_can_write ctl nearly_empty 6000 1452).1 8200 8200)
          8200
          1452).0
        ≡ true)
pacing_can_write_later_example =
    pacing_can_write_later ctl ctl nearly_empty 6000 1452 8200 8200 8200 nearly_empty-Idle
      (omega arith) (omega arith) (omega (arith, rate)) refused due

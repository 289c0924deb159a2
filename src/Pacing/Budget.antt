-- ===== src/Pacing/Budget.antt =====
-- How much the bucket holds.
use rquic.Base.{ℕ, ◌+◌, ◌≤◌, ◌≡◌, min, arith}
use rquic.Pacing.{Pacing, SendCtl, pacing_calc_budget, pacing_max_burst_size, pacing_on_packet_sent}

calc_budget_bound :
    (c : SendCtl) (pacing : Pacing) (now : ℕ)
    → pacing_calc_budget c pacing now ≤ pacing_max_burst_size c
unfolding pacing_calc_budget
calc_budget_bound c pacing now = omega arith

-- rqc_pacing_on_packet_sent takes the bytes out of the budget as far as it goes, and leaves at most
-- the burst size.
pub pacing_on_packet_sent_bound :
    (c : SendCtl) (pacing : Pacing) (now bytes : ℕ)
    → ((pacing_on_packet_sent c pacing now bytes).bytes_budget ≤ pacing_max_burst_size c)
      × ((pacing_on_packet_sent c pacing now bytes).bytes_budget
            + min bytes (pacing_calc_budget c pacing now)
          ≡ pacing_calc_budget c pacing now)
unfolding pacing_on_packet_sent
pacing_on_packet_sent_bound c pacing now bytes = ground (arith, calc_budget_bound c pacing now)

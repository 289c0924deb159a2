-- ===== src/Recovery/Rtt.antt =====
-- The estimate of the round trip time, before and after a sample.
use rquic.Base.{ℕ, ◌+◌, ◌-◌, ◌/◌, ◌^◌, ◌≤◌, ◌<◌, ◌≡◌, ◌≢◌, min, max, refl, arith, ne→==}
use rquic.Recovery.{Recovery, clamped_delay, adjust, smooth, smooth_var, update_rtt}

smooth_between :
    (srtt sample : ℕ)
    → srtt < 2 ^ 62
    → sample < 2 ^ 62
    → (min srtt sample ≤ smooth srtt sample) × (smooth srtt sample ≤ max srtt sample)
unfolding smooth
smooth_between srtt sample a b = (omega arith, omega arith)

smooth_var_between :
    (rttvar srtt sample : ℕ)
    → rttvar < 2 ^ 62
    → srtt < 2 ^ 62
    → sample < 2 ^ 62
    → let off = max srtt sample - min srtt sample in
      (min rttvar off ≤ smooth_var rttvar srtt sample)
      × (smooth_var rttvar srtt sample ≤ max rttvar off)
unfolding smooth_var
smooth_var_between rttvar srtt sample a b c = ground arith

adjust_between :
    (minrtt sample delay : ℕ)
    → minrtt ≤ sample
    → sample < 2 ^ 62
    → delay < 2 ^ 62
    → (minrtt ≤ adjust minrtt sample delay + 1000)
      × (adjust minrtt sample delay ≤ sample)
      × (sample ≤ adjust minrtt sample delay + delay)
unfolding adjust
adjust_between minrtt sample delay a b c = ground arith

clamped_delay-le : (ctl : Recovery) (ack_delay : ℕ) → clamped_delay ctl ack_delay ≤ ack_delay
unfolding clamped_delay
clamped_delay-le ctl ack_delay = ground arith

-- After the first sample, and with times below 2 ^ 62: rqc_send_ctl_update_rtt leaves in ctl_minrtt the
-- lesser one of its old value and the sample; ctl_srtt is at most the greater one of its old value and
-- the sample, at least the lesser one of its old value and of the new ctl_minrtt less 1000
-- microseconds, and at least the lesser one of its old value and of the sample less the reported delay.
-- ctl_rttvar is at most the greatest of its old value, the old ctl_srtt and the sample.
pub update_rtt_lem :
    (ctl : Recovery) (latest_rtt ack_delay now : ℕ)
    → ctl.ctl_first_rtt_sample_time ≢ 0
    → ctl.ctl_srtt < 2 ^ 62
    → ctl.ctl_rttvar < 2 ^ 62
    → latest_rtt < 2 ^ 62
    → ack_delay < 2 ^ 62
    → let after = update_rtt ctl latest_rtt ack_delay now in
      (after.ctl_minrtt ≡ min latest_rtt ctl.ctl_minrtt)
      × (after.ctl_srtt ≤ max ctl.ctl_srtt latest_rtt)
      × (min ctl.ctl_srtt (after.ctl_minrtt - 1000) ≤ after.ctl_srtt)
      × (min ctl.ctl_srtt (latest_rtt - ack_delay) ≤ after.ctl_srtt)
      × (after.ctl_rttvar ≤ max ctl.ctl_rttvar (max ctl.ctl_srtt latest_rtt))
unfolding update_rtt
update_rtt_lem ctl latest_rtt ack_delay now sampled a b c d =
    let minrtt : ℕ = min latest_rtt ctl.ctl_minrtt in
    let delay : ℕ = clamped_delay ctl ack_delay in
    let small = clamped_delay-le ctl ack_delay in
    let sample : ℕ = adjust minrtt latest_rtt delay in
    let t = adjust_between minrtt latest_rtt delay (omega arith) c (omega (arith, small, d)) in
    let s = smooth_between ctl.ctl_srtt sample a (omega (arith, t, c)) in
    let v = smooth_var_between ctl.ctl_rttvar ctl.ctl_srtt sample b a (omega (arith, t, c)) in
    rw (ne→== ctl.ctl_first_rtt_sample_time 0 sampled) (
      refl,
      omega (arith, t, s),
      omega (arith, t, s),
      omega (arith, t, s, small),
      omega (arith, t, v),
    )

-- The first sample is taken over.
pub update_rtt_first :
    (ctl : Recovery) (latest_rtt ack_delay now : ℕ)
    → ctl.ctl_first_rtt_sample_time ≡ 0
    → let after = update_rtt ctl latest_rtt ack_delay now in
      (after.ctl_minrtt ≡ latest_rtt)
      × (after.ctl_srtt ≡ latest_rtt)
      × (after.ctl_rttvar ≡ latest_rtt / 2)
      × (after.ctl_first_rtt_sample_time ≡ now)
unfolding update_rtt
update_rtt_first ctl latest_rtt ack_delay now h = ground arith

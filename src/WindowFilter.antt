-- ===== src/WindowFilter.antt =====
-- src/congestion_control/rqc_window_filter.c and .h: the running maximum and minimum of the samples of
-- a time window, kept as the best three. Times and values are 64-bit words.
pub mod Max
pub mod Min
mod Tests
use rquic.Base.{minus, ℕ, ◌+◌, ◌-◌, ◌/◌, ◌%◌, ◌^◌, Bool, ◌&&◌, ◌||◌, ltb, leb, ◌==◌, if◌then◌else◌}

-- struct rqc_win_sample
pub record WinSample : Type 0 where
  pub t : ℕ
  pub val : ℕ

-- rqc_win_filter_t: the array `s` of three
pub record WinFilter : Type 0 where
  pub first : WinSample
  pub second : WinSample
  pub third : WinSample

pub win_filter_get : WinFilter → ℕ
win_filter_get w = w.first.val

-- rqc_win_filter_reset
pub win_filter_reset : WinSample → WinFilter
win_filter_reset nsample = record { first = nsample; second = nsample; third = nsample }

-- `w->s[0] = w->s[1]; w->s[1] = w->s[2]; w->s[2] = *nsample;`
pub shift : WinFilter → WinSample → WinFilter
shift w nsample = record { first = w.second; second = w.third; third = nsample }

-- rqc_win_filter_update; `dt` is a uint32_t.
pub win_filter_update : WinFilter → ℕ → WinSample → WinFilter
win_filter_update w win nsample =
    let dt = minus nsample.t w.first.t % 2 ^ 32 in
    if ltb win dt
    then (if ltb win (minus nsample.t w.second.t)
        then shift (shift w nsample) nsample
        else shift w nsample)
    else if (w.second.t == w.first.t) && ltb (win / 4) dt
    then record w { second = nsample; third = nsample }
    else if (w.third.t == w.second.t) && ltb (win / 2) dt
    then record w { third = nsample }
    else w

-- The samples that a new one replaces, by the comparison of values.
pub replace : (ℕ → ℕ → Bool) → WinFilter → WinSample → WinFilter
replace better w nsample =
    if better nsample.val w.second.val
    then record w { second = nsample; third = nsample }
    else if better nsample.val w.third.val
    then record w { third = nsample }
    else w

-- rqc_win_filter_max; the value that it returns is that of `first`.
pub win_filter_max : WinFilter → ℕ → ℕ → ℕ → WinFilter
win_filter_max w win t nval =
    let nsample : WinSample = record { t = t; val = nval } in
    if leb w.first.val nval || ltb win (minus t w.third.t)
    then win_filter_reset nsample
    else win_filter_update (replace (λ a b. leb b a) w nsample) win nsample

-- rqc_win_filter_min
pub win_filter_min : WinFilter → ℕ → ℕ → ℕ → WinFilter
win_filter_min w win t nval =
    let nsample : WinSample = record { t = t; val = nval } in
    if leb nval w.first.val || ltb win (minus t w.third.t)
    then win_filter_reset nsample
    else win_filter_update (replace (λ a b. leb a b) w nsample) win nsample

-- ===== src/WindowFilter/Min.antt =====
-- The running minimum.
use rquic.Base.{
  ℕ, ◌+◌, ◌-◌, ◌≤◌, ◌<◌, ◌≡◌, arith, false, ◌||◌, ltb, leb, Bool-cases, inl, inr, minus,
}
use rquic.WindowFilter.Max.{InTime}
use rquic.WindowFilter.{
  WinFilter, win_filter_reset, shift, win_filter_update, replace, win_filter_min, win_filter_get,
}

-- The best sample first.
unfoldable pub Climbing : WinFilter → Type 0
Climbing w = (w.first.val ≤ w.second.val) × (w.second.val ≤ w.third.val)

replace_min :
    (w : WinFilter) (t nval : ℕ)
    → InTime t w
    → Climbing w
    → w.first.val < nval
    → (InTime t (replace (λ a b. leb a b) w (record { t = t; val = nval })))
      × Climbing (replace (λ a b. leb a b) w (record { t = t; val = nval }))
      × ((replace (λ a b. leb a b) w (record { t = t; val = nval })).third.val ≤ nval)
      × (w.third.t ≤ (replace (λ a b. leb a b) w (record { t = t; val = nval })).third.t)
unfolding replace InTime Climbing
replace_min w t nval i f l = ground (arith, i, f, l)

update_min :
    (w : WinFilter) (win t nval : ℕ)
    → InTime t w
    → Climbing w
    → w.third.val ≤ nval
    → t ≤ w.third.t + win
    → (InTime t (win_filter_update w win (record { t = t; val = nval })))
      × Climbing (win_filter_update w win (record { t = t; val = nval }))
      × ((win_filter_update w win (record { t = t; val = nval })).first.val ≤ nval)
      × (t ≤ (win_filter_update w win (record { t = t; val = nval })).first.t + win)
unfolding win_filter_update shift InTime Climbing
update_min w win t nval i f l d = ground (arith, i, f, l, d)

-- When the samples are in the order of their times and no better one follows a worse, the first is
-- less than 2 ^ 32 old and now is below 2 ^ 64: rqc_win_filter_min keeps them so, what it returns is
-- at most the new value, and the sample of that value is not older than the window.
pub win_filter_min_lem :
    (w : WinFilter) (win t nval : ℕ)
    → InTime t w
    → Climbing w
    → InTime t (win_filter_min w win t nval)
      × Climbing (win_filter_min w win t nval)
      × (win_filter_get (win_filter_min w win t nval) ≤ nval)
      × (t ≤ (win_filter_min w win t nval).first.t + win)
unfolding win_filter_min win_filter_reset win_filter_get
win_filter_min_lem w win t nval i f =
    let age : minus t w.third.t ≡ t - w.third.t = age_lem t w i in
    elim (Bool-cases (leb nval w.first.val || ltb win (minus t w.third.t))) [
      | inl u ↦ rw u (fresh t nval w i)
      | inr u ↦
          let r = replace_min w t nval i f (value u) in
          rw u (
            update_min (replace (λ a b. leb a b) w (record { t = t; val = nval })) win t nval r.0
              r.1 r.2 (omega (arith, r.3, time u age)))
    ]
  where
    age_lem : (t : ℕ) (w : WinFilter) → InTime t w → minus t w.third.t ≡ t - w.third.t
    age_lem t w i = unfold InTime in omega (arith, i)

    value : (leb nval w.first.val || ltb win (minus t w.third.t)) ≡ false → w.first.val < nval
    value u = ground (arith, u)

    time :
        (leb nval w.first.val || ltb win (minus t w.third.t)) ≡ false
        → minus t w.third.t ≡ t - w.third.t
        → t ≤ w.third.t + win
    time u a = ground (arith, u, a)

    fresh :
        (t nval : ℕ) (w : WinFilter)
        → InTime t w
        → InTime t (win_filter_reset (record { t = t; val = nval }))
          × Climbing (win_filter_reset (record { t = t; val = nval }))
          × (nval ≤ nval)
          × (t ≤ t + win)
    fresh t nval w i =
        unfold InTime in unfold Climbing in unfold win_filter_reset in (ground (arith, i))

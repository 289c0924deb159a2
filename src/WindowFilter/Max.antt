-- ===== src/WindowFilter/Max.antt =====
-- The running maximum.
use rquic.Base.{
  ℕ, ◌+◌, ◌-◌, ◌^◌, ◌≤◌, ◌<◌, ◌≡◌, arith, false, ◌||◌, ltb, leb, Bool-cases, inl, inr, minus,
}
use rquic.WindowFilter.{
  WinFilter, win_filter_reset, shift, win_filter_update, replace, win_filter_max, win_filter_get,
}

-- The samples in the order of their times, up to now.
unfoldable pub InTime : ℕ → WinFilter → Type 0
InTime now w =
    (w.first.t ≤ w.second.t)
    × (w.second.t ≤ w.third.t)
    × (w.third.t ≤ now)
    × (now < 2 ^ 64)
    × (now < w.first.t + 2 ^ 32)

-- The best sample first.
unfoldable pub Falling : WinFilter → Type 0
Falling w = (w.second.val ≤ w.first.val) × (w.third.val ≤ w.second.val)

replace_max :
    (w : WinFilter) (t nval : ℕ)
    → InTime t w
    → Falling w
    → nval < w.first.val
    → (InTime t (replace (λ a b. leb b a) w (record { t = t; val = nval })))
      × Falling (replace (λ a b. leb b a) w (record { t = t; val = nval }))
      × (nval ≤ (replace (λ a b. leb b a) w (record { t = t; val = nval })).third.val)
      × (w.third.t ≤ (replace (λ a b. leb b a) w (record { t = t; val = nval })).third.t)
unfolding replace InTime Falling
replace_max w t nval i f l = ground (arith, i, f, l)

update_max :
    (w : WinFilter) (win t nval : ℕ)
    → InTime t w
    → Falling w
    → nval ≤ w.third.val
    → t ≤ w.third.t + win
    → (InTime t (win_filter_update w win (record { t = t; val = nval })))
      × Falling (win_filter_update w win (record { t = t; val = nval }))
      × (nval ≤ (win_filter_update w win (record { t = t; val = nval })).first.val)
      × (t ≤ (win_filter_update w win (record { t = t; val = nval })).first.t + win)
unfolding win_filter_update shift InTime Falling
update_max w win t nval i f l d = ground (arith, i, f, l, d)

-- When the samples are in the order of their times and no better one follows a worse, the first is
-- less than 2 ^ 32 old and now is below 2 ^ 64: rqc_win_filter_max keeps them so, what it returns is
-- at least the new value, and the sample of that value is not older than the window.
pub win_filter_max_lem :
    (w : WinFilter) (win t nval : ℕ)
    → InTime t w
    → Falling w
    → InTime t (win_filter_max w win t nval)
      × Falling (win_filter_max w win t nval)
      × (nval ≤ win_filter_get (win_filter_max w win t nval))
      × (t ≤ (win_filter_max w win t nval).first.t + win)
unfolding win_filter_max win_filter_reset win_filter_get
win_filter_max_lem w win t nval i f =
    let age : minus t w.third.t ≡ t - w.third.t = age_lem t w i in
    elim (Bool-cases (leb w.first.val nval || ltb win (minus t w.third.t))) [
      | inl u ↦ rw u (fresh t nval w i)
      | inr u ↦
          let r = replace_max w t nval i f (value u) in
          rw u (
            update_max (replace (λ a b. leb b a) w (record { t = t; val = nval })) win t nval r.0
              r.1 r.2 (omega (arith, r.3, time u age)))
    ]
  where
    age_lem : (t : ℕ) (w : WinFilter) → InTime t w → minus t w.third.t ≡ t - w.third.t
    age_lem t w i = unfold InTime in omega (arith, i)

    value : (leb w.first.val nval || ltb win (minus t w.third.t)) ≡ false → nval < w.first.val
    value u = ground (arith, u)

    time :
        (leb w.first.val nval || ltb win (minus t w.third.t)) ≡ false
        → minus t w.third.t ≡ t - w.third.t
        → t ≤ w.third.t + win
    time u a = ground (arith, u, a)

    fresh :
        (t nval : ℕ) (w : WinFilter)
        → InTime t w
        → InTime t (win_filter_reset (record { t = t; val = nval }))
          × Falling (win_filter_reset (record { t = t; val = nval }))
          × (nval ≤ nval)
          × (t ≤ t + win)
    fresh t nval w i =
        unfold InTime in unfold Falling in unfold win_filter_reset in (ground (arith, i))

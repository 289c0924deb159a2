-- ===== src/WindowFilter/Tests.antt =====
-- Concrete samples.
use rquic.Base.{◌+◌, ◌^◌, ◌≤◌, ◌≡◌, refl, arith}
use rquic.WindowFilter.{
  WinFilter, win_filter_get, win_filter_max, win_filter_update, replace, shift,
}
use rquic.WindowFilter.Max.{InTime, Falling, win_filter_max_lem}

abbrev falling : WinFilter
falling = record {
  first = record { t = 10; val = 90 };
  second = record { t = 14; val = 70 };
  third = record { t = 17; val = 40 };
}

falling-InTime : InTime 21 falling
unfolding InTime
falling-InTime = (omega arith, omega arith, omega arith, omega arith, omega arith)

falling-Falling : Falling falling
unfolding Falling
falling-Falling = (omega arith, omega arith)

win_filter_max_lem_example :
    InTime 21 (win_filter_max falling 8 21 50)
    × Falling (win_filter_max falling 8 21 50)
    × (50 ≤ win_filter_get (win_filter_max falling 8 21 50))
    × (21 ≤ (win_filter_max falling 8 21 50).first.t + 8)
win_filter_max_lem_example = win_filter_max_lem falling 8 21 50 falling-InTime falling-Falling

-- The old maximum leaves the window, and the second one takes its place.
left_window : win_filter_get (win_filter_max falling 8 21 50) ≡ 70
unfolding win_filter_get win_filter_max win_filter_update replace shift
left_window = refl

-- After 2 ^ 32 units of time the difference of the times is cut to 0, and an old maximum stays.
abbrev slow : WinFilter
slow = record {
  first = record { t = 0; val = 90 };
  second = record { t = 14; val = 70 };
  third = record { t = 2 ^ 32; val = 40 };
}

kept_forever : win_filter_get (win_filter_max slow 8 (2 ^ 32) 30) ≡ 90
unfolding win_filter_get win_filter_max win_filter_update replace shift
kept_forever = refl

-- ===== src/RecvRecord/Tests.antt =====
-- Runs of the receive record, and its theorems at concrete inputs.
use rquic.Base.{
  zero, suc, ◌+◌, ◌*◌, ◌^◌, ℕ, ◌<◌, ◌≡◌, refl, arith, true, ◌||◌, ◌&&◌, ◌==◌, leb, List, [], ◌∷◌,
}
use rquic.RecvRecord.{
  Range, RecvRecord, added_ok, duplicate, contains, recv_record_add, recv_record_del,
}
use rquic.RecvRecord.{walk, place, behind, settle, can_merge, join, delete_below, single}
use rquic.RecvRecord.Inv.{Descending, IsValid}
use rquic.RecvRecord.Add.{recv_record_add-IsValid, contains-recv_record_add, recv_record_add_sound}
use rquic.RecvRecord.Del.{recv_record_del-contains}

abbrev rec : RecvRecord
rec = record {
  ranges = record { low = 9; high = 12 } ∷ record { low = 3; high = 7 } ∷ [];
  rr_del_from = 2;
  node_count = 2;
}

rec-IsValid : IsValid rec
unfolding IsValid Descending
rec-IsValid = omega arith

-- The number between two ranges joins them.
join_run : recv_record_add rec 8 ≡ (
  added_ok,
  record { ranges = record { low = 3; high = 12 } ∷ []; rr_del_from = 2; node_count = 1 },
)
unfolding recv_record_add walk place behind settle can_merge join
join_run = refl

duplicate_run : recv_record_add rec 5 ≡ (duplicate, rec)
unfolding recv_record_add walk place behind settle
duplicate_run = refl

del_run :
    (recv_record_del rec 5).ranges
    ≡ record { low = 9; high = 12 } ∷ record { low = 5; high = 7 } ∷ []
unfolding recv_record_del delete_below
del_run = refl

recv_record_add-IsValid_example : IsValid (recv_record_add rec 8).1
recv_record_add-IsValid_example = recv_record_add-IsValid rec 8 rec-IsValid (omega arith)

contains-recv_record_add_example :
    contains 8 (recv_record_add rec 8).1.ranges ≡ ((8 == 8) || contains 8 rec.ranges)
contains-recv_record_add_example =
    contains-recv_record_add rec 8 rec-IsValid (omega arith) 8 (omega arith)

recv_record_add_sound_example : ((5 == 8) || contains 5 rec.ranges) ≡ true
unfolding recv_record_add walk place behind settle can_merge join contains
recv_record_add_sound_example = recv_record_add_sound rec 8 rec-IsValid (omega arith) 5 refl

-- The ranges 3 * n, ..., 6, 3 of one number each.
ladder : ℕ → List Range
ladder zero = []
ladder (suc n) = single (3 * suc n) ∷ ladder n

ladder-Descending : (n b : ℕ) → 3 * n + 1 < b → Descending b (ladder n)
unfolding ladder Descending
ladder-Descending zero b h = tt
ladder-Descending (suc n) b h =
    (omega arith, omega (arith, h), ladder-Descending n (3 * suc n) (omega arith))

-- A record with no room for a range.
abbrev full : RecvRecord
full = record { ranges = ladder 64; rr_del_from = 0; node_count = 64 }

full-IsValid : IsValid full
unfolding IsValid ladder
full-IsValid = (ladder-Descending 64 (2 ^ 62 + 1) (omega arith), refl, omega arith)

recv_record_del-contains_example :
    IsValid (recv_record_del rec 5)
    × (contains 4 (recv_record_del rec 5).ranges ≡ (contains 4 rec.ranges && leb 5 4))
recv_record_del-contains_example = recv_record_del-contains rec 5 4 rec-IsValid (omega arith)

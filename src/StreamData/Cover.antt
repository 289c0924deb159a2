-- ===== src/StreamData/Cover.antt =====
-- Which bytes of a stream have come: what the insertion of a frame does to them and to the order.
use rquic.Base.{
  ℕ, ◌+◌, ◌^◌, ◌≤◌, ◌<◌, ◌≡◌, refl, arith, Bool, true, false, ◌&&◌, ◌||◌, List, [], ◌∷◌, ltb, leb,
  Bool-cases, inl, inr, leb→le, leb→lt,
}
use rquic.StreamData.{
  StreamFrame, Scan, Scan.already_recvd, Scan.inserted, Scan.not_inserted, data_end, visit, scan,
  within, contains,
}

-- The end of a frame does not wrap around.
unfoldable pub Fits : StreamFrame → Type 0
Fits frame = frame.data_offset + frame.data_length < 2 ^ 64

-- In the order of the offsets, from `b` on.
unfoldable pub Sorted : ℕ → List StreamFrame → Type 0
Sorted b [] = Unit
Sorted b (frame ∷ next) = (b ≤ frame.data_offset) × Fits frame × Sorted frame.data_offset next

pub Sorted-le : (a b : ℕ) (l : List StreamFrame) → a ≤ b → Sorted b l → Sorted a l
unfolding Sorted
Sorted-le a b [] h s = tt
Sorted-le a b (frame ∷ l) h s = (omega (arith, h, s), s.1, s.2)

-- Nothing stands below the first offset.
pub contains_below : (b n : ℕ) (l : List StreamFrame) → Sorted b l → n < b → contains n l ≡ false
unfolding Sorted contains within
contains_below b n [] s h = refl
contains_below b n (frame ∷ l) s h =
    ground (arith, s, contains_below frame.data_offset n l s.2 (omega (arith, s, h)))

-- What the scan of a sorted list finds out.
unfoldable pub Found : ℕ → StreamFrame → List StreamFrame → Scan → Type 0
Found b new l already_recvd = (n : ℕ) → within n new ≡ true → contains n l ≡ true
Found b new l (inserted l' following) =
    Sorted b l'
    × (b ≤ new.data_offset)
    × Sorted new.data_offset following
    × ((n : ℕ) → contains n l' ≡ (contains n l || within n new))
    × ((n : ℕ) → contains n following ≡ true → contains n l ≡ true)
    × ((n m : ℕ)
        → new.data_offset ≤ m
        → m ≤ n
        → contains m l ≡ false
        → contains n l' ≡ (within n new || contains n following))
Found b new l not_inserted = Sorted new.data_offset l

or_false : (a b : Bool) → (a || b) ≡ false → (a ≡ false) × (b ≡ false)
or_false true b h = absurd (cc h)
or_false false b h = (refl, h)

-- Behind a byte that a frame has passed.
pub within_past :
    (n m : ℕ) (frame : StreamFrame)
    → within m frame ≡ false
    → frame.data_offset ≤ m
    → m ≤ n
    → within n frame ≡ false
unfolding within
within_past n m frame h o le = ground (arith, h)

earlier :
    (n m : ℕ) (frame new : StreamFrame) (l l' following : List StreamFrame)
    → frame.data_offset ≤ m
    → m ≤ n
    → (within m frame || contains m l) ≡ false
    → (contains m l ≡ false → contains n l' ≡ (within n new || contains n following))
    → (within n frame || contains n l') ≡ (within n new || contains n following)
earlier n m frame new l l' following o le e k =
    let both = or_false _ _ e in rw (within_past n m frame both.0 o le) (k both.1)

pub within_in :
    (n : ℕ) (frame : StreamFrame)
    → frame.data_offset ≤ n
    → n < data_end frame
    → within n frame ≡ true
unfolding within
within_in n frame a e = ground arith

pub within_after : (n : ℕ) (frame : StreamFrame) → data_end frame ≤ n → within n frame ≡ false
unfolding within
within_after n frame e = ground arith

pub within_before : (n : ℕ) (frame : StreamFrame) → n < frame.data_offset → within n frame ≡ false
unfolding within
within_before n frame e = ground arith

-- The bytes of a frame that another one has.
covered :
    (n : ℕ) (frame new : StreamFrame)
    → frame.data_offset ≤ new.data_offset
    → (ltb 0 new.data_length && leb (data_end new) (data_end frame)) ≡ true
    → within n new ≡ true
    → within n frame ≡ true
unfolding within
covered n frame new h u w = ground (arith, u, w)

visited :
    (b : ℕ) (new frame : StreamFrame) (l : List StreamFrame) (r : Scan)
    → Fits new
    → Sorted b (frame ∷ l)
    → Found frame.data_offset new l r
    → Found b new (frame ∷ l) (visit new frame l r)
unfolding visit Found Sorted contains
visited b new frame l already_recvd f s h = λ n w. ground (arith, h n w)
visited b new frame l (inserted l' following) f s h = (
  (s.0, s.1, h.0),
  omega (arith, s, h.1),
  h.2,
  λ n. ground (arith, h.3 n),
  λ n c. ground (arith, h.4 n c),
  λ n m o le e. earlier n m frame new l l' following (omega (arith, o, h.1)) le e (h.5 n m o le),
)
visited b new frame l not_inserted f s h =
    elim (Bool-cases (leb frame.data_offset new.data_offset)) [
      | inl t ↦ elim (Bool-cases (ltb 0 new.data_length && leb (data_end new) (data_end frame))) [
        | inl u ↦ rw (t, u) (λ n w. rw (covered n frame new (leb→le _ _ t) u w) refl)
        | inr u ↦
            rw (t, u)
              (
                (s.0, s.1, (leb→le _ _ t, f, h)),
                omega (arith, s.0, leb→le _ _ t),
                h,
                λ n. ground arith,
                λ n c. ground (arith, c),
                λ n m o le e.
                    rw
                      (within_past n m frame (or_false _ _ e).0 (omega (arith, o, leb→le _ _ t)) le)
                      refl,
              )
      ]
      | inr t ↦ rw t (omega (arith, leb→lt _ _ t), s.1, s.2)
    ]

pub scan-Found :
    (b : ℕ) (new : StreamFrame) (l : List StreamFrame)
    → Fits new
    → Sorted b l
    → Found b new l (scan new l)
unfolding scan Found Sorted
scan-Found b new [] f s = tt
scan-Found b new (frame ∷ l) f s =
    visited b new frame l (scan new l) f s (scan-Found frame.data_offset new l f s.2)

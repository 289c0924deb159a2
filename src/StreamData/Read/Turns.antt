-- ===== src/StreamData/Read/Turns.antt =====
-- What the loop of rqc_stream_recv does with the first frame of a list that is ready to be read.
use rquic.Base.{
  ℕ, ◌+◌, ◌-◌, ◌%◌, ◌^◌, ◌≤◌, ◌<◌, ◌≡◌, min, minus, All, arith, true, false, List, ◌∷◌, dec_lt,
  lt→ltb, le→ltb, le→leb, lt→leb,
}
use rquic.StreamData.{StreamFrame, data_end, within, contains}
use rquic.StreamData.Cover.{Fits, Sorted, contains_below}
use rquic.StreamData.Read.{Turn, stop, freed, whole, part, read_from, turn}
use rquic.StreamData.Read.Content.{Carries, IsRead}

-- The frames that wait, in order, hold bytes of the stream `g`, all of them from `next` to `merged`
-- and not the one at `merged`; what has been read of a frame has been given back.
unfoldable pub Ready : (ℕ → ℕ) → ℕ → ℕ → List StreamFrame → Type 0
Ready g merged next l =
    Sorted 0 l
    × (next ≤ merged)
    × ((n : ℕ) → next ≤ n → n < merged → contains n l ≡ true)
    × (contains merged l ≡ false)
    × All (Carries g) l
    × All (IsRead next) l

-- What a turn promises.
unfoldable pub Facts : ℕ → ℕ → ℕ → ℕ → StreamFrame → Turn → Type 0
Facts merged size next read frame stop = min (size - read) (merged - next) ≡ 0
Facts merged size next read frame freed = data_end frame < next
Facts merged size next read frame (whole at left) =
    (frame.data_offset + at ≡ next)
    × (at + left ≡ frame.data_length)
    × (next + left ≤ merged)
    × (read + left ≤ size)
Facts merged size next read frame (part at count) =
    (frame.data_offset + at ≡ next)
    × (at + count ≤ frame.data_length)
    × (next + count ≤ merged)
    × (read + count ≡ size)

module _ (g : ℕ → ℕ) (merged next : ℕ) (frame : StreamFrame) (rest : List StreamFrame)
    (v : Ready g merged next (frame ∷ rest)) (wide : merged < 2 ^ 64) where
  pub below : next < frame.data_offset → next < merged → ⊥
  unfolding Ready Sorted
  below h m = cc (
    v.2 next (omega arith) m,
    contains_below frame.data_offset next (frame ∷ rest) (omega arith, v.0.1, v.0.2) h,
  )

  -- A frame that starts at or below `merged` starts at or below `next`,
  placed : frame.data_offset ≤ merged → frame.data_offset ≤ next
  placed o = elim (dec_lt next frame.data_offset) [
    | no h ↦ omega (arith, h)
    | yes h ↦ absurd (below h (omega (arith, o, h)))
  ]

  -- and ends there.
  pub ended : frame.data_offset ≤ merged → frame.data_offset + frame.data_length ≤ merged
  unfolding Ready Sorted Fits data_end contains within
  ended o = ground (arith, v.0, v.3)

  idle : merged < frame.data_offset → next ≡ merged
  unfolding Ready
  idle h = elim (dec_lt next merged) [
    | no e ↦ omega (arith, e, v.1)
    | yes e ↦ absurd (below (omega (arith, h, e)) e)
  ]

  pub fits :
      (data_end frame ≡ frame.data_offset + frame.data_length)
      × (frame.data_offset + frame.data_length < 2 ^ 64)
  unfolding Ready Sorted Fits data_end
  fits = (omega (arith, v.0), omega (arith, v.0))

  from_lem :
      frame.data_offset ≤ next
      → next ≤ data_end frame
      → (frame.data_offset + read_from next frame ≡ next)
        × (read_from next frame + minus frame.data_length (read_from next frame)
            ≡ frame.data_length)
  unfolding Ready IsRead read_from
  from_lem o e = ground (arith, v.1, v.5.0, fits)

  module _ (size read : ℕ) (room : read ≤ size) (behind : read ≤ next) where
    pub turn-Facts : Facts merged size next read frame (turn merged size next read frame)
    unfolding turn Facts
    turn-Facts = elim (dec_lt merged frame.data_offset) [
      | yes h ↦ rw (lt→ltb _ _ h) (omega (arith, idle h))
      | no h ↦ elim (dec_lt read size) [
        | no e ↦
            rw
              (
                le→ltb merged frame.data_offset (omega (arith, h)),
                le→leb size read (omega (arith, e)),
              )
              (omega (arith, e))
        | yes e ↦ elim (dec_lt (data_end frame) next) [
          | yes u ↦
              rw (le→ltb merged frame.data_offset (omega (arith, h)), lt→leb _ _ e, lt→ltb _ _ u) u
          | no u ↦
              let o = placed (omega (arith, h)) in
              let f = from_lem o (omega (arith, u)) in
              let end = ended (omega (arith, h)) in
              let at : ℕ = read_from next frame in
              let left : ℕ = minus frame.data_length at in
              elim (dec_lt size (read + left)) [
                | no w ↦
                    rw
                      (
                        le→ltb merged frame.data_offset (omega (arith, h)),
                        lt→leb _ _ e,
                        le→ltb (data_end frame) next (omega (arith, u)),
                        le→leb ((read + left) % 2 ^ 64) size (omega (arith, w)),
                      )
                      (f.0, f.1, omega (arith, f.0, f.1, end), omega (arith, w))
                | yes w ↦
                    rw
                      (
                        le→ltb merged frame.data_offset (omega (arith, h)),
                        lt→leb _ _ e,
                        le→ltb (data_end frame) next (omega (arith, u)),
                        lt→leb size ((read + left) % 2 ^ 64)
                            (omega (arith, w, f.0, f.1, end, wide, behind)),
                      )
                      (
                        f.0,
                        omega (arith, f.0, f.1, w),
                        omega (arith, f.0, f.1, end, w),
                        omega (arith, e),
                      )
              ]
        ]
      ]
    ]

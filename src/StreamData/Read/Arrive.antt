-- ===== src/StreamData/Read/Arrive.antt =====
-- A frame of the stream's bytes that arrives leaves the frames ready to be read.
use rquic.Base.{
  ℕ, ◌^◌, ◌<◌, ◌≡◌, max, refl, All, arith, ◌&&◌, List, [], ◌∷◌, ltb, leb, Bool-cases, inl, inr,
}
use rquic.StreamData.{
  StreamFrame, StreamDataIn, Scan, Scan.already_recvd, Scan.inserted, Scan.not_inserted, data_end,
  visit, scan, carry, merge, settle_scan, insert_stream_frame,
}
use rquic.StreamData.Cover.{Fits}
use rquic.StreamData.Merge.{IsValid, settled}
use rquic.StreamData.Read.Content.{Carries, IsRead}
use rquic.StreamData.Read.Turns.{Ready}

-- What holds of all frames of a scan that ends.
Each {ℓ} : (StreamFrame → Type ℓ) → Scan → Type ℓ
Each P already_recvd = Unit
Each P (inserted l following) = All P l
Each P not_inserted = Unit

visit-Each {ℓ} :
    (P : StreamFrame → Type ℓ) (new frame : StreamFrame) (l : List StreamFrame) (r : Scan)
    → P new
    → All P (frame ∷ l)
    → Each P r
    → Each P (visit new frame l r)
unfolding visit Each
visit-Each P new frame l already_recvd p all e = tt
visit-Each P new frame l (inserted l' following) p all e = (all.0, e)
visit-Each P new frame l not_inserted p all e =
    elim (Bool-cases (leb frame.data_offset new.data_offset)) [
      | inl t ↦ elim (Bool-cases (ltb 0 new.data_length && leb (data_end new) (data_end frame))) [
        | inl u ↦ rw (t, u) tt
        | inr u ↦ rw (t, u) (all.0, (p, all.1))
      ]
      | inr t ↦ rw t tt
    ]

scan-Each {ℓ} :
    (P : StreamFrame → Type ℓ) (new : StreamFrame) (l : List StreamFrame)
    → P new
    → All P l
    → Each P (scan new l)
unfolding scan Each
scan-Each P new [] p all = tt
scan-Each P new (frame ∷ l) p all =
    visit-Each P new frame l (scan new l) p all (scan-Each P new l p all.1)

settle_scan-All {ℓ} :
    (P : StreamFrame → Type ℓ) (d : StreamDataIn) (new : StreamFrame) (r : Scan)
    → P new
    → All P d.frames_tailq
    → Each P r
    → All P (settle_scan d new r).1.frames_tailq
unfolding settle_scan Each
settle_scan-All P d new already_recvd p all e = all
settle_scan-All P d new (inserted l following) p all e = e
settle_scan-All P d new not_inserted p all e = (p, all)

-- What holds of the new frame and of all that wait holds of all that wait then.
pub insert_stream_frame-All {ℓ} :
    (P : StreamFrame → Type ℓ) (d : StreamDataIn) (new : StreamFrame)
    → P new
    → All P d.frames_tailq
    → All P (insert_stream_frame d new).1.frames_tailq
unfolding insert_stream_frame
insert_stream_frame-All P d new p all =
    settle_scan-All P d new (scan new d.frames_tailq) p all (scan-Each P new d.frames_tailq p all)

carry-lt : (m : ℕ) (l : List StreamFrame) → m < 2 ^ 64 → carry m l < 2 ^ 64
unfolding carry
carry-lt m [] h = h
carry-lt m (frame ∷ l) h =
    let step : data_end frame < 2 ^ 64 = unfold data_end in omega arith in
    ground (arith, carry-lt (max (data_end frame) m) l (omega (arith, step, h)))

settle_scan-lt :
    (d : StreamDataIn) (new : StreamFrame) (r : Scan)
    → d.merged_offset_end < 2 ^ 64
    → (settle_scan d new r).1.merged_offset_end < 2 ^ 64
unfolding settle_scan merge
settle_scan-lt d new already_recvd h = h
settle_scan-lt d new (inserted l following) h =
    ground (arith, carry-lt (data_end new) following (end-lt new))
  where
    end-lt : (f : StreamFrame) → data_end f < 2 ^ 64
    end-lt f = unfold data_end in omega arith
settle_scan-lt d new not_inserted h =
    ground (arith, carry-lt (data_end new) d.frames_tailq (end-lt new))
  where
    end-lt : (f : StreamFrame) → data_end f < 2 ^ 64
    end-lt f = unfold data_end in omega arith

pub insert_stream_frame-lt :
    (d : StreamDataIn) (new : StreamFrame)
    → d.merged_offset_end < 2 ^ 64
    → (insert_stream_frame d new).1.merged_offset_end < 2 ^ 64
unfolding insert_stream_frame
insert_stream_frame-lt d new h = settle_scan-lt d new (scan new d.frames_tailq) h

-- The frames of a stream, ready to be read on.
pub record Waits (g : ℕ → ℕ) (d : StreamDataIn) : Type 0 where
  pub set : Ready g d.merged_offset_end d.next_read_offset d.frames_tailq
  pub wide : d.merged_offset_end < 2 ^ 64

-- A frame with the stream's bytes at its place, nothing of which has been read.
pub record IsNew (g : ℕ → ℕ) (frame : StreamFrame) : Type 0 where
  pub fits : Fits frame
  pub carries : Carries g frame
  pub unread : frame.next_read_offset ≡ 0

IsNew-IsRead : (g : ℕ → ℕ) (next : ℕ) (new : StreamFrame) → IsNew g new → IsRead next new
unfolding IsRead
IsNew-IsRead g next new n = λ p. absurd (omega (arith, p, n.unread))

settle_scan-next :
    (d : StreamDataIn) (new : StreamFrame) (r : Scan)
    → (settle_scan d new r).1.next_read_offset ≡ d.next_read_offset
unfolding settle_scan
settle_scan-next d new already_recvd = refl
settle_scan-next d new (inserted l following) = refl
settle_scan-next d new not_inserted = refl

pub insert_stream_frame-next :
    (d : StreamDataIn) (new : StreamFrame)
    → (insert_stream_frame d new).1.next_read_offset ≡ d.next_read_offset
unfolding insert_stream_frame
insert_stream_frame-next d new = settle_scan-next d new (scan new d.frames_tailq)

Ready_next :
    (g : ℕ → ℕ) (merged next next' : ℕ) (l : List StreamFrame)
    → next' ≡ next
    → Ready g merged next l
    → Ready g merged next' l
Ready_next g merged next next' l e v = rw e v

pub insert_stream_frame-Waits :
    (g : ℕ → ℕ) (d : StreamDataIn) (new : StreamFrame)
    → Waits g d
    → IsNew g new
    → Waits g (insert_stream_frame d new).1
insert_stream_frame-Waits g d new w n = record {
  set =
      Ready_next g _ d.next_read_offset _ _ (insert_stream_frame-next d new)
        (ready g d new w.set n);
  wide = insert_stream_frame-lt d new w.wide;
}
  where
    ready :
        (g : ℕ → ℕ) (d : StreamDataIn) (new : StreamFrame)
        → Ready g d.merged_offset_end d.next_read_offset d.frames_tailq
        → IsNew g new
        → Ready g
            (insert_stream_frame d new).1.merged_offset_end
            d.next_read_offset
            (insert_stream_frame d new).1.frames_tailq
    ready g d new v n =
        unfold Ready in
        unfold IsValid in
        let s = settled d.next_read_offset d new (v.0, v.1, v.2, v.3) n.fits in
        (
          s.0.0,
          s.0.1,
          s.0.2,
          s.0.3,
          insert_stream_frame-All (Carries g) d new n.carries v.4,
          insert_stream_frame-All (IsRead d.next_read_offset) d new
              (IsNew-IsRead g d.next_read_offset new n) v.5,
        )

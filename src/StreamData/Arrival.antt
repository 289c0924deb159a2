-- ===== src/StreamData/Arrival.antt =====
-- The frames of a stream as they arrive: the order is kept, and does not matter for what can be read.
use rquic.Base.{ℕ, ◌≤◌, ◌≡◌, sym, ap, ◌∙◌, All, arith, Bool, ◌||◌, List, [], ◌∷◌, dec_lt}
use rquic.StreamData.{StreamFrame, StreamDataIn, within, contains, insert_stream_frame}
use rquic.StreamData.Cover.{Fits}
use rquic.StreamData.Merge.{IsValid, settled}

-- When the frames of a stream are in order, all bytes from `base` to merged_offset_end have come
-- and the one at merged_offset_end has not, then the same holds after rqc_insert_stream_frame of a
-- frame whose end is below 2 ^ 64.
pub insert_stream_frame-IsValid :
    (base : ℕ) (d : StreamDataIn) (new : StreamFrame)
    → IsValid base d
    → Fits new
    → IsValid base (insert_stream_frame d new).1
insert_stream_frame-IsValid base d new v f = (settled base d new v f).0

-- After rqc_insert_stream_frame of a frame whose end is below 2 ^ 64, on such a list, exactly the
-- bytes of the list and of the frame have come, whether the frame is inserted or refused.
pub contains-insert_stream_frame :
    (base n : ℕ) (d : StreamDataIn) (new : StreamFrame)
    → IsValid base d
    → Fits new
    → contains n (insert_stream_frame d new).1.frames_tailq
      ≡ (contains n d.frames_tailq || within n new)
contains-insert_stream_frame base n d new v f = (settled base d new v f).1 n

-- The frames of a list are inserted one after the other.
unfoldable pub insert_all : List StreamFrame → StreamDataIn → StreamDataIn
insert_all [] d = d
insert_all (frame ∷ next) d = insert_all next (insert_stream_frame d frame).1

insert_all-IsValid :
    (base : ℕ) (l : List StreamFrame) (d : StreamDataIn)
    → IsValid base d
    → All Fits l
    → IsValid base (insert_all l d)
      × ((n : ℕ)
          → contains n (insert_all l d).frames_tailq ≡ (contains n d.frames_tailq || contains n l))
unfolding insert_all contains
insert_all-IsValid base [] d v f = (v, λ n. ground arith)
insert_all-IsValid base (frame ∷ l) d v f =
    let one = settled base d frame v f.0 in
    let rest = insert_all-IsValid base l (insert_stream_frame d frame).1 one.0 f.1 in
    (
      rest.0,
      λ n.
          rest.1 n
          ∙ ap (λ (b : Bool). b || contains n l) (one.1 n)
          ∙ or_assoc (contains n d.frames_tailq) (within n frame) (contains n l),
    )
  where
    or_assoc : (a b c : Bool) → ((a || b) || c) ≡ (a || (b || c))
    or_assoc a b c = ground arith

-- Where the readable piece ends is decided by the bytes.
merged_unique :
    (base : ℕ) (d e : StreamDataIn)
    → IsValid base d
    → IsValid base e
    → ((n : ℕ) → contains n d.frames_tailq ≡ contains n e.frames_tailq)
    → d.merged_offset_end ≤ e.merged_offset_end
unfolding IsValid
merged_unique base d e v w same = elim (dec_lt e.merged_offset_end d.merged_offset_end) [
  | no h ↦ omega arith
  | yes h ↦ absurd (cc (v.2 e.merged_offset_end w.1 h, same e.merged_offset_end, w.3))
]

-- On such a list, two series of frames that carry the same bytes, in any order and cut in any way,
-- each end below 2 ^ 64, leave the same merged_offset_end.
pub insert_all_order :
    (base : ℕ) (d : StreamDataIn) (l l' : List StreamFrame)
    → IsValid base d
    → All Fits l
    → All Fits l'
    → ((n : ℕ) → contains n l ≡ contains n l')
    → (insert_all l d).merged_offset_end ≡ (insert_all l' d).merged_offset_end
insert_all_order base d l l' v f f' same =
    let one = insert_all-IsValid base l d v f in
    let two = insert_all-IsValid base l' d v f' in
    let bytes = λ (n : ℕ).
      one.1 n ∙ ap (λ (b : Bool). contains n d.frames_tailq || b) (same n) ∙ sym (two.1 n) in
    omega (
      arith,
      merged_unique base (insert_all l d) (insert_all l' d) one.0 two.0 bytes,
      merged_unique base (insert_all l' d) (insert_all l d) two.0 one.0 (λ n. sym (bytes n)),
    )

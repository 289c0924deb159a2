-- ===== src/StreamData/Read/Peek.antt =====
-- rqc_stream_peek copies the bytes that rqc_stream_recv would give back.
use rquic.Base.{
  append-nil, ℕ, ◌+◌, ◌-◌, ◌%◌, ◌^◌, ◌≤◌, ◌<◌, ◌≡◌, min, minus, refl, ap₂, ◌∙◌, arith, List, [],
  ◌∷◌, ◌++◌, dec_lt, lt→ltb, le→ltb, le→leb, lt→leb,
}
use rquic.StreamData.{StreamFrame, data_end}
use rquic.StreamData.Read.{slice, peek_frames}
use rquic.StreamData.Read.Content.{content, content_eq, content-append, slice-content}
use rquic.StreamData.Read.Turns.{Ready, below, ended, fits}
use rquic.StreamData.Read.Deliver.{tail-Ready, none_left, carried, ahead}

-- A full buffer takes nothing.
peek_full :
    (size cursor copied : ℕ) (l : List StreamFrame)
    → size ≤ copied
    → peek_frames size cursor copied l ≡ []
unfolding peek_frames
peek_full size cursor copied [] h = refl
peek_full size cursor copied (frame ∷ rest) h = ground (arith, peek_full size cursor copied rest h)

-- Nothing is to be read.
none : (g : ℕ → ℕ) (cursor k : ℕ) → k ≡ 0 → [] ≡ content g cursor k
unfolding content
none g cursor k e = rw e refl

before :
    (g : ℕ → ℕ) (merged size cursor copied : ℕ) (frame : StreamFrame) (rest : List StreamFrame)
    → Ready g merged cursor (frame ∷ rest)
    → merged < 2 ^ 64
    → cursor < frame.data_offset
    → min (size - copied) (merged - cursor) ≡ 0
before g merged size cursor copied frame rest v wide u = elim (dec_lt cursor merged) [
  | no h ↦ omega (arith, h)
  | yes h ↦ absurd (below g merged cursor frame rest v wide u h)
]

-- A frame at the cursor that is copied, whole or as far as the buffer goes
copy_turn :
    (g : ℕ → ℕ) (merged size cursor copied : ℕ) (frame : StreamFrame) (rest : List StreamFrame)
    → Ready g merged cursor (frame ∷ rest)
    → merged < 2 ^ 64
    → copied ≤ size
    → copied ≤ cursor
    → cursor < data_end frame
    → frame.data_offset ≤ cursor
    → copied < size
    → (Ready g merged (data_end frame) rest
        → merged < 2 ^ 64
        → copied + (data_end frame - cursor) ≤ size
        → copied + (data_end frame - cursor) ≤ data_end frame
        → peek_frames size (data_end frame) (copied + (data_end frame - cursor)) rest
          ≡ content g
              (data_end frame)
              (min (size - (copied + (data_end frame - cursor))) (merged - data_end frame)))
    → let count = min (minus (data_end frame) cursor) (size - copied) in
      slice (minus cursor frame.data_offset) count frame
        ++ peek_frames size ((cursor + count) % 2 ^ 64) ((copied + count) % 2 ^ 64) rest
      ≡ content g cursor (min (size - copied) (merged - cursor))
copy_turn g merged size cursor copied frame rest v wide room behind h o w ih =
    let a = ahead g merged cursor (frame ∷ rest) v in
    let f = fits g merged cursor frame rest v wide in
    let e = ended g merged cursor frame rest v wide (omega (arith, o, a)) in
    let at : minus cursor frame.data_offset ≡ cursor - frame.data_offset =
      omega (arith, a, o, wide) in
    let left : minus (data_end frame) cursor ≡ data_end frame - cursor = omega (arith, f, h) in
    elim (dec_lt (size - copied) (data_end frame - cursor)) [
      | yes p ↦
          let count : min (data_end frame - cursor) (size - copied) ≡ size - copied =
            omega (arith, p) in
          let n : (copied + (size - copied)) % 2 ^ 64 ≡ size = omega (arith, p, f, behind, room) in
          let bytes =
            slice-content g (cursor - frame.data_offset) (size - copied) frame
              (carried g merged cursor frame rest v) (omega (arith, p, f, o)) in
          rw (left, count, at, n)
            (ap₂ (λ (x y : List ℕ). x ++ y) bytes
                (peek_full size ((cursor + (size - copied)) % 2 ^ 64) size rest (omega arith))
              ∙ append-nil _
              ∙ content_eq g (frame.data_offset + (cursor - frame.data_offset)) cursor
                  (size - copied) (min (size - copied) (merged - cursor)) (omega (arith, o))
                  (omega (arith, p, e, f)))
      | no p ↦
          let count : min (data_end frame - cursor) (size - copied) ≡ data_end frame - cursor =
            omega (arith, p) in
          let n : (cursor + (data_end frame - cursor)) % 2 ^ 64 ≡ data_end frame =
            omega (arith, f, h) in
          let m : (copied + (data_end frame - cursor)) % 2 ^ 64
              ≡ copied + (data_end frame - cursor) =
            omega (arith, f, h, behind) in
          let bytes =
            slice-content g (cursor - frame.data_offset) (data_end frame - cursor) frame
              (carried g merged cursor frame rest v) (omega (arith, f, o, h))
            ∙ content_eq g (frame.data_offset + (cursor - frame.data_offset)) cursor
                (data_end frame - cursor) (data_end frame - cursor) (omega (arith, o)) refl in
          let later =
            ih
              (tail-Ready g merged cursor (data_end frame) frame rest v (omega arith)
                (omega (arith, h)) (omega (arith, f, e)))
              wide (omega (arith, p, w)) (omega (arith, behind, h))
            ∙ content_eq g (data_end frame) (cursor + (data_end frame - cursor)) _ _
                (omega (arith, h)) refl in
          rw (left, count, at, n, m)
            (ap₂ (λ (x y : List ℕ). x ++ y) bytes later
              ∙ content-append g cursor (data_end frame - cursor)
                  (min (size - (copied + (data_end frame - cursor))) (merged - data_end frame))
              ∙ content_eq g cursor cursor _ (min (size - copied) (merged - cursor)) refl
                  (omega (arith, f, e, h, p)))
    ]

-- From a list of frames that is Ready.
pub peek_frames-content :
    (g : ℕ → ℕ) (merged size cursor copied : ℕ) (l : List StreamFrame)
    → Ready g merged cursor l
    → merged < 2 ^ 64
    → copied ≤ size
    → copied ≤ cursor
    → peek_frames size cursor copied l ≡ content g cursor (min (size - copied) (merged - cursor))
unfolding peek_frames
peek_frames-content g merged size cursor copied [] v wide room behind =
    none g cursor _ (none_left g merged size cursor copied v)
peek_frames-content g merged size cursor copied (frame ∷ rest) v wide room behind =
    let a = ahead g merged cursor (frame ∷ rest) v in
    let f = fits g merged cursor frame rest v wide in
    elim (dec_lt cursor (data_end frame)) [
      | no h ↦ rw (le→leb (data_end frame) cursor (omega (arith, h))) (
          peek_frames-content g merged size cursor copied rest
            (tail-Ready g merged cursor cursor frame rest v (omega (arith, h)) (omega arith) a) wide
            room behind)
      | yes h ↦ elim (dec_lt cursor frame.data_offset) [
        | yes u ↦
            rw (lt→leb cursor (data_end frame) h, lt→ltb cursor frame.data_offset u)
              (none g cursor _ (before g merged size cursor copied frame rest v wide u))
        | no u ↦ elim (dec_lt copied size) [
          | no w ↦
              rw
                (
                  lt→leb cursor (data_end frame) h,
                  le→ltb cursor frame.data_offset (omega (arith, u)),
                  le→leb size copied (omega (arith, w)),
                )
                (none g cursor _ (omega (arith, w)))
          | yes w ↦
              rw
                (
                  lt→leb cursor (data_end frame) h,
                  le→ltb cursor frame.data_offset (omega (arith, u)),
                  lt→leb copied size w,
                )
                (copy_turn g merged size cursor copied frame rest v wide room behind h
                  (omega (arith, u)) w
                  (peek_frames-content g merged size (data_end frame)
                    (copied + (data_end frame - cursor)) rest))
        ]
      ]
    ]

-- ===== src/StreamData/Read/Deliver.antt =====
-- rqc_stream_recv gives back the bytes of the stream in order, and keeps the frames ready.
use rquic.Base.{
  ℕ, ◌+◌, ◌-◌, ◌%◌, ◌^◌, ◌≤◌, ◌<◌, ◌≡◌, min, refl, ap, ◌∙◌, All, arith, Bool, true, false, ◌||◌,
  List, [], ◌∷◌, ◌++◌, dec_lt,
}
use rquic.StreamData.{StreamFrame, data_end, within, contains}
use rquic.StreamData.Cover.{Fits, Sorted, Sorted-le, within_after}
use rquic.StreamData.Read.{
  Turn, stop, freed, whole, part, turn, take_turn, Taken, slice, after_copy, read_frames,
}
use rquic.StreamData.Read.Content.{
  content, content_eq, content-append, Carries, IsRead, slice-content,
}
use rquic.StreamData.Read.Turns.{Ready, Facts, fits, turn-Facts}
use native.Mathlib.Nat.{add-zero}

-- `k` bytes are given back.
unfoldable pub Delivered : (ℕ → ℕ) → ℕ → ℕ → ℕ → ℕ → Taken → Type 0
Delivered g merged next read k t =
    (t.copied ≡ content g next k)
    × (t.next ≡ next + k)
    × (t.read ≡ read + k)
    × Ready g merged (next + k) t.frames

IsRead-le : (a b : ℕ) (l : List StreamFrame) → a ≤ b → All (IsRead a) l → All (IsRead b) l
unfolding IsRead
IsRead-le a b [] h all = tt
IsRead-le a b (frame ∷ l) h all = (λ p. omega (arith, h, all.0 p), IsRead-le a b l h all.1)

right_true : (a b : Bool) → a ≡ false → (a || b) ≡ true → b ≡ true
right_true a b h e = ground (arith, h, e)

right_false : (a b : Bool) → (a || b) ≡ false → b ≡ false
right_false a b e = ground (arith, e)

-- Behind a frame that has been read.
pub tail-Ready :
    (g : ℕ → ℕ) (merged next next' : ℕ) (frame : StreamFrame) (rest : List StreamFrame)
    → Ready g merged next (frame ∷ rest)
    → data_end frame ≤ next'
    → next ≤ next'
    → next' ≤ merged
    → Ready g merged next' rest
unfolding Ready Sorted contains
tail-Ready g merged next next' frame rest v e le ahead = (
  Sorted-le 0 frame.data_offset rest (omega arith) v.0.2,
  ahead,
  λ n b u.
      right_true (within n frame) (contains n rest) (within_after n frame (omega (arith, e, b)))
        (v.2 n (omega (arith, le, b)) u),
  right_false (within merged frame) (contains merged rest) v.3,
  v.4.1,
  IsRead-le next next' rest le v.5.1,
)

-- With a frame that has been read in part.
part-Ready :
    (g : ℕ → ℕ) (merged next next' at : ℕ) (frame : StreamFrame) (rest : List StreamFrame)
    → Ready g merged next (frame ∷ rest)
    → frame.data_offset + at ≤ next'
    → next ≤ next'
    → next' ≤ merged
    → Ready g merged next' (record frame { next_read_offset = at } ∷ rest)
unfolding Ready Sorted contains within data_end Fits Carries IsRead
part-Ready g merged next next' at frame rest v e le ahead = (
  v.0,
  ahead,
  λ n b u. v.2 n (omega (arith, le, b)) u,
  v.3,
  v.4,
  (λ p. e, IsRead-le next next' rest le v.5.1),
)

pub ahead :
    (g : ℕ → ℕ) (merged next : ℕ) (l : List StreamFrame) → Ready g merged next l → next ≤ merged
unfolding Ready
ahead g merged next l v = v.1

pub carried :
    (g : ℕ → ℕ) (merged next : ℕ) (frame : StreamFrame) (l : List StreamFrame)
    → Ready g merged next (frame ∷ l)
    → Carries g frame
unfolding Ready
carried g merged next frame l v = v.4.0

pub none_left :
    (g : ℕ → ℕ) (merged size next read : ℕ)
    → Ready g merged next []
    → min (size - read) (merged - next) ≡ 0
unfolding Ready contains
none_left g merged size next read v = elim (dec_lt next merged) [
  | no h ↦ omega (arith, h)
  | yes h ↦ absurd (cc (v.2 next (omega arith) h))
]

nothing :
    (g : ℕ → ℕ) (merged next read k : ℕ) (l : List StreamFrame)
    → k ≡ 0
    → Ready g merged next l
    → Delivered g merged next read k (record { copied = []; next = next; read = read; frames = l })
unfolding Delivered content
nothing g merged next read k l e v = rw (e, add-zero next) (refl, refl, omega arith, v)

copied_first :
    (g : ℕ → ℕ) (merged next read left k k' : ℕ) (bytes : List ℕ) (t : Taken)
    → k ≡ left + k'
    → bytes ≡ content g next left
    → Delivered g merged (next + left) (read + left) k' t
    → Delivered g merged next read k (after_copy bytes t)
unfolding Delivered after_copy
copied_first g merged next read left k k' bytes t e b d =
    let sum : next + left + k' ≡ next + (left + k') = omega arith in
    rw (e, b)
      (
        ap (λ (l : List ℕ). content g next left ++ l) d.0 ∙ content-append g next left k',
        omega (arith, d.1),
        omega (arith, d.2),
        rw (← sum) d.3,
      )

take_turn-Delivered :
    (g : ℕ → ℕ) (merged size next read : ℕ) (frame : StreamFrame) (rest : List StreamFrame)
    (further : ℕ → ℕ → Taken) (r : Turn)
    → Ready g merged next (frame ∷ rest)
    → merged < 2 ^ 64
    → read ≤ size
    → read ≤ next
    → Facts merged size next read frame r
    → ((n s : ℕ)
        → Ready g merged n rest
        → s ≤ size
        → s ≤ n
        → Delivered g merged n s (min (size - s) (merged - n)) (further n s))
    → Delivered g merged next read
        (min (size - read) (merged - next))
        (take_turn size next read frame rest further r)
unfolding take_turn Facts Delivered
take_turn-Delivered g merged size next read frame rest further stop v wide room behind f ih =
    nothing g merged next read _ (frame ∷ rest) f v
take_turn-Delivered g merged size next read frame rest further freed v wide room behind f ih =
    ih next read
      (tail-Ready g merged next next frame rest v (omega (arith, f)) (omega arith)
        (ahead g merged next (frame ∷ rest) v))
      room behind
take_turn-Delivered g merged size next read frame rest further (whole at left) v wide room behind f
      ih =
    let end : data_end frame ≡ next + left =
      omega (arith, (fits g merged next frame rest v wide).0, f.0, f.1) in
    let bytes =
      slice-content g at left frame (carried g merged next frame rest v) (omega (arith, f.1))
      ∙ content_eq g (frame.data_offset + at) next left left f.0 refl in
    let n : (next + left) % 2 ^ 64 ≡ next + left = omega (arith, f.2, wide) in
    let s : (read + left) % 2 ^ 64 ≡ read + left = omega (arith, f.2, wide, behind) in
    let d =
      ih (next + left) (read + left)
        (tail-Ready g merged next (next + left) frame rest v (omega (arith, end)) (omega arith) f.2)
        f.3 (omega (arith, behind)) in
    rw (n, s)
      (copied_first g merged next read left _ _ (slice at left frame)
        (further (next + left) (read + left)) (omega (arith, f.2, f.3)) bytes d)
take_turn-Delivered g merged size next read frame rest further (part at count) v wide room behind f
      ih =
    let bytes =
      slice-content g at count frame (carried g merged next frame rest v) f.1
      ∙ content_eq g (frame.data_offset + at) next count count f.0 refl in
    let n : (next + count) % 2 ^ 64 ≡ next + count = omega (arith, f.2, wide) in
    let a : (at + count) % 2 ^ 64 ≡ at + count = omega (arith, f.0, f.2, wide) in
    let k : min (size - read) (merged - next) ≡ count = omega (arith, f.2, f.3) in
    rw (k, n, a)
      (
        bytes,
        refl,
        omega (arith, f.3),
        part-Ready g merged next (next + count) (at + count) frame rest v (omega (arith, f.0))
            (omega arith) f.2,
      )

-- From a list of frames that is Ready.
pub read_frames-Delivered :
    (g : ℕ → ℕ) (merged size next read : ℕ) (l : List StreamFrame)
    → Ready g merged next l
    → merged < 2 ^ 64
    → read ≤ size
    → read ≤ next
    → Delivered g merged next read
        (min (size - read) (merged - next))
        (read_frames merged size next read l)
unfolding read_frames
read_frames-Delivered g merged size next read [] v wide room behind =
    nothing g merged next read _ [] (none_left g merged size next read v) v
read_frames-Delivered g merged size next read (frame ∷ rest) v wide room behind =
    take_turn-Delivered g merged size next read frame rest (λ n s. read_frames merged size n s rest)
      (turn merged size next read frame) v wide room behind
      (turn-Facts g merged next frame rest v wide size read room behind)
      (λ n s w r b. read_frames-Delivered g merged size n s rest w wide r b)

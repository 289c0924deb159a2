-- ===== src/StreamData/Read/Content.antt =====
-- The bytes of a stream, and the frames that carry them.
use rquic.Base.{
  ℕ, zero, suc, ◌+◌, ◌-◌, ◌≤◌, ◌<◌, ◌≡◌, ◌∙◌, refl, ap, arith, take, drop, length, List, [], ◌∷◌,
  ◌++◌,
}
use rquic.StreamData.{StreamFrame}
use rquic.StreamData.Read.{slice}

-- `count` bytes of the stream, whose byte `n` is `g n`.
unfoldable pub content : (ℕ → ℕ) → ℕ → ℕ → List ℕ
content g from zero = []
content g from (suc count) = g from ∷ content g (from + 1) count

-- The frame holds the stream's bytes at its place.
unfoldable pub Carries : (ℕ → ℕ) → StreamFrame → Type 0
Carries g frame = frame.bytes ≡ content g frame.data_offset frame.data_length

-- What has been read of the frame has been given back.
unfoldable pub IsRead : ℕ → StreamFrame → Type 0
IsRead next frame = (0 < frame.next_read_offset → frame.data_offset + frame.next_read_offset ≤ next)

pub length-content : (g : ℕ → ℕ) (from count : ℕ) → length (content g from count) ≡ count
unfolding content
length-content g from zero = refl
length-content g from (suc count) = omega (arith, length-content g (from + 1) count)

content-suc :
    (g : ℕ → ℕ) (from n m : ℕ) → n ≡ suc m → g from ∷ content g (from + 1) m ≡ content g from n
unfolding content
content-suc g from n m e = rw e refl

-- The same bytes, from equal numbers.
pub content_eq :
    (g : ℕ → ℕ) (from from' a b : ℕ) → from ≡ from' → a ≡ b → content g from a ≡ content g from' b
content_eq g from from' a b e f = rw (e, f) refl

pub content-append :
    (g : ℕ → ℕ) (from a b : ℕ) → content g from a ++ content g (from + a) b ≡ content g from (a + b)
unfolding content
content-append g from zero b = content_eq g (from + 0) from b (0 + b) (omega arith) (omega arith)
content-append g from (suc a) b =
    ap (λ (l : List ℕ). g from ∷ (content g (from + 1) a ++ l))
      (content_eq g (from + suc a) (from + 1 + a) b b (omega arith) refl)
    ∙ ap (λ (l : List ℕ). g from ∷ l) (content-append g (from + 1) a b)
    ∙ content-suc g from (suc a + b) (a + b) (omega arith)

drop-content :
    (g : ℕ → ℕ) (from k n : ℕ) → k ≤ n → drop k (content g from n) ≡ content g (from + k) (n - k)
unfolding content
drop-content g from zero n h = content_eq g from (from + 0) n (n - 0) (omega arith) (omega arith)
drop-content g from (suc k) zero h = absurd (omega (arith, h))
drop-content g from (suc k) (suc n) h =
    drop-content g (from + 1) k n (omega (arith, h))
    ∙ content_eq g (from + 1 + k) (from + suc k) (n - k) (suc n - suc k) (omega arith) (omega arith)

take-content : (g : ℕ → ℕ) (from k n : ℕ) → k ≤ n → take k (content g from n) ≡ content g from k
unfolding content
take-content g from zero n h = refl
take-content g from (suc k) zero h = absurd (omega (arith, h))
take-content g from (suc k) (suc n) h =
    ap (λ (l : List ℕ). g from ∷ l) (take-content g (from + 1) k n (omega (arith, h)))

-- What is copied out of a frame.
pub slice-content :
    (g : ℕ → ℕ) (at count : ℕ) (frame : StreamFrame)
    → Carries g frame
    → at + count ≤ frame.data_length
    → slice at count frame ≡ content g (frame.data_offset + at) count
unfolding slice Carries
slice-content g at count frame c h =
    let left = drop-content g frame.data_offset at frame.data_length (omega (arith, h)) in
    let some_left =
      take-content g (frame.data_offset + at) count (frame.data_length - at) (omega (arith, h)) in
    rw (c, left) some_left

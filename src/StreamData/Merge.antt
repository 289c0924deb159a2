-- ===== src/StreamData/Merge.antt =====
-- merged_offset_end is the end of what can be read in one piece, and an insertion keeps it so.
use rquic.Base.{
  ℕ, ◌≤◌, ◌<◌, ◌≡◌, max, refl, arith, Bool, true, false, ◌&&◌, ◌||◌, List, [], ◌∷◌, ltb, leb,
  Bool-cases, inl, inr, le→leb, lt→leb, dec_lt,
}
use rquic.StreamData.{
  StreamFrame, StreamDataIn, Scan, Scan.already_recvd, Scan.inserted, Scan.not_inserted, data_end,
  scan, carry, merge, within, contains, settle_scan, insert_stream_frame,
}
use rquic.StreamData.Cover.{
  Fits, Sorted, contains_below, Found, scan-Found, within_in, within_after, within_before,
}

-- What `merged` has reached through the frames of a list.
Carried : ℕ → ℕ → List StreamFrame → Type 0
Carried from to l =
    (from ≤ to) × ((n : ℕ) → from ≤ n → n < to → contains n l ≡ true) × (contains to l ≡ false)

carry_on :
    (m : ℕ) (frame : StreamFrame) (l : List StreamFrame)
    → frame.data_offset ≤ m
    → carry m (frame ∷ l) ≡ carry (max (data_end frame) m) l
unfolding carry
carry_on m frame l h = rw (le→leb _ _ h, carry) refl

carry_stop :
    (m : ℕ) (frame : StreamFrame) (l : List StreamFrame)
    → m < frame.data_offset
    → carry m (frame ∷ l) ≡ m
unfolding carry
carry_stop m frame l h = rw (lt→leb _ _ h, carry) refl

more_Carried :
    (m to : ℕ) (frame : StreamFrame) (l : List StreamFrame)
    → frame.data_offset ≤ m
    → Carried (max (data_end frame) m) to l
    → Carried m to (frame ∷ l)
unfolding Carried contains
more_Carried m to frame l h further = (
  omega (arith, further.0),
  λ n a c. elim (dec_lt n (data_end frame)) [
    | yes e ↦ rw (within_in n frame (omega (arith, a, h)) e) refl
    | no e ↦ rw (further.1 n (omega (arith, a, e)) c) (ground arith)
  ],
  rw (within_after to frame (omega (arith, further.0)), further.2) refl,
)

none_Carried :
    (m : ℕ) (frame : StreamFrame) (l : List StreamFrame)
    → m < frame.data_offset
    → Sorted frame.data_offset l
    → Carried m m (frame ∷ l)
unfolding Carried contains
none_Carried m frame l h s = (
  omega arith,
  λ n a c. absurd (omega (arith, a, c)),
  rw (within_before m frame h, contains_below frame.data_offset m l s h) refl,
)

carry-Carried : (b m : ℕ) (l : List StreamFrame) → Sorted b l → Carried m (carry m l) l
unfolding Sorted
carry-Carried b m [] s =
    unfold carry in
    unfold Carried in unfold contains in (omega arith, λ n a c. absurd (omega (arith, a, c)), refl)
carry-Carried b m (frame ∷ l) s = elim (dec_lt m frame.data_offset) [
  | yes h ↦ rw (carry_stop m frame l h) (none_Carried m frame l h s.2)
  | no h ↦
      let further = carry-Carried frame.data_offset (max (data_end frame) m) l s.2 in
      rw (carry_on m frame l (omega (arith, h)))
        (more_Carried m (carry (max (data_end frame) m) l) frame l (omega (arith, h)) further)
]

-- The bytes from `base` on that have come: in order, in one piece up to `merged_offset_end` and no
-- further. What is below `base` has been read and given back.
unfoldable pub IsValid : ℕ → StreamDataIn → Type 0
IsValid base d =
    Sorted 0 d.frames_tailq
    × (base ≤ d.merged_offset_end)
    × ((n : ℕ) → base ≤ n → n < d.merged_offset_end → contains n d.frames_tailq ≡ true)
    × (contains d.merged_offset_end d.frames_tailq ≡ false)

-- The merge after the new frame has found its place in `l'`.
merged :
    (base merged_end : ℕ) (new : StreamFrame) (l l' following : List StreamFrame)
    → Fits new
    → Sorted new.data_offset following
    → ((n : ℕ) → contains n l' ≡ (contains n l || within n new))
    → ((n : ℕ) → contains n following ≡ true → contains n l ≡ true)
    → ((n m : ℕ)
        → new.data_offset ≤ m
        → m ≤ n
        → contains m l ≡ false
        → contains n l' ≡ (within n new || contains n following))
    → ((n : ℕ) → base ≤ n → n < merged_end → contains n l ≡ true)
    → contains merged_end l ≡ false
    → ((n : ℕ) → base ≤ n → n < merge new following merged_end → contains n l' ≡ true)
      × (contains (merge new following merged_end) l' ≡ false)
      × (merged_end ≤ merge new following merged_end)
unfolding merge Carried
merged base m new l l' following f s all sub past cover hole = elim (Bool-cases (within m new)) [
  | inl t ↦
      let from : new.data_offset ≤ m = reached m new t in
      let below : m < data_end new = unended m new t in
      let c = carry-Carried new.data_offset (data_end new) following s in
      let end : ℕ = carry (data_end new) following in
      let last = past end m from (omega (arith, below, c.0)) hole in
      let t' : (leb new.data_offset m && ltb m (data_end new)) ≡ true = unfold within in t in
      rw t' (
        λ n b u. elim (dec_lt n m) [
          | yes e ↦ rw (all n, cover n b e) refl
          | no e ↦ elim (dec_lt n (data_end new)) [
            | yes e' ↦ rw (all n, within_in n new (omega (arith, from, e)) e') (ground arith)
            | no e' ↦ rw (all n, sub n (c.1 n (omega (arith, e')) u)) refl
          ]
        ],
        rw (last, within_after end new c.0, c.2) refl,
        omega (arith, below, c.0),
      )
  | inr t ↦
      let t' : (leb new.data_offset m && ltb m (data_end new)) ≡ false = unfold within in t in
      rw t' (λ n b u. rw (all n, cover n b u) refl, rw (all m, hole, t) refl, omega arith)
]
  where
    reached : (n : ℕ) (frame : StreamFrame) → within n frame ≡ true → frame.data_offset ≤ n
    reached n frame h = unfold within in ground (arith, h)

    unended : (n : ℕ) (frame : StreamFrame) → within n frame ≡ true → n < data_end frame
    unended n frame h = unfold within in ground (arith, h)

or_swap : (a b : Bool) → (a || b) ≡ (b || a)
or_swap a b = ground arith

or_absorb : (a b : Bool) → (b ≡ true → a ≡ true) → a ≡ (a || b)
or_absorb true b h = refl
or_absorb false true h = absurd (cc (h refl))
or_absorb false false h = refl

-- What the settled scan leaves.
settle_scan-IsValid :
    (base : ℕ) (d : StreamDataIn) (new : StreamFrame) (r : Scan)
    → IsValid base d
    → Fits new
    → Found 0 new d.frames_tailq r
    → IsValid base (settle_scan d new r).1
      × ((n : ℕ)
          → contains n (settle_scan d new r).1.frames_tailq
            ≡ (contains n d.frames_tailq || within n new))
unfolding settle_scan Found IsValid Sorted contains
settle_scan-IsValid base d new already_recvd v f h = (v, λ n. or_absorb _ _ (h n))
settle_scan-IsValid base d new (inserted l' following) v f h =
    let m =
      merged base d.merged_offset_end new d.frames_tailq l' following f h.2 h.3 h.4 h.5 v.2 v.3 in
    ((h.0, omega (arith, v.1, m.2), m.0, m.1), h.3)
settle_scan-IsValid base d new not_inserted v f h =
    let all = λ (n : ℕ). or_swap (within n new) (contains n d.frames_tailq) in
    let m =
      merged base d.merged_offset_end new d.frames_tailq (new ∷ d.frames_tailq) d.frames_tailq f h
        all (λ n c. c) (λ n m o le e. refl) v.2 v.3 in
    (((omega arith, f, h), omega (arith, v.1, m.2), m.0, m.1), all)

pub settled :
    (base : ℕ) (d : StreamDataIn) (new : StreamFrame)
    → IsValid base d
    → Fits new
    → IsValid base (insert_stream_frame d new).1
      × ((n : ℕ)
          → contains n (insert_stream_frame d new).1.frames_tailq
            ≡ (contains n d.frames_tailq || within n new))
unfolding insert_stream_frame
settled base d new v f =
    settle_scan-IsValid base d new (scan new d.frames_tailq) v f
      (scan-Found 0 new d.frames_tailq f (unfold IsValid in v.0))

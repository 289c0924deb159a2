-- ===== src/Stream/Delivery.antt =====
-- A stream from its frames to its reader: frames come in any order, more than once and cut in any
-- way, and are read in between.
mod Tests
use rquic.Base.{
  ℕ, ◌+◌, ◌-◌, ◌^◌, ◌≤◌, ◌<◌, ◌≡◌, min, refl, sym, zero, suc, ap, ap₂, ◌∙◌, arith, Bool, true,
  false, ◌&&◌, not, All, List, [], ◌∷◌, ◌++◌, leb, ltb, ◌==◌, if◌then◌else◌, Bool-cases, inl, inr,
  leb→lt,
}
use rquic.StreamData.{StreamFrame, StreamDataIn}
use rquic.StreamData.Read.Content.{content, content_eq, content-append}
use rquic.StreamData.Read.Arrive.{Waits, IsNew}
use rquic.Stream.{recv_rank, Stream, Conn, Clock}
use rquic.Stream.Recv.{Outcome, received, again, stream_reset, stream_recv}
use rquic.Stream.Recv.Laws.{stream_recv_lem, stream_recv_reset}
use rquic.Stream.Arrival.{process_stream_frame}
use rquic.Stream.Arrival.Waiting.{Kept, process_stream_frame-Kept}

-- What happens to a stream.
pub data Event : Type 0 where
  -- rqc_process_stream_frame
  arrives : StreamFrame → Event
  -- rqc_stream_recv with a buffer of that size
  reads : ℕ → Event

-- The bytes that the application gets.
unfoldable pub outcome_bytes : Outcome → List ℕ
outcome_bytes (received bytes fin) = bytes
outcome_bytes again = []
outcome_bytes stream_reset = []

-- All bytes that the application gets, and the stream and the connection at the end
unfoldable pub run : List (Clock × Event) → Stream → Conn → List ℕ × Stream × Conn
run [] stream conn = ([], stream, conn)
run ((clock, arrives frame) ∷ events) stream conn =
    let after = process_stream_frame clock stream conn frame in run events after.1 after.2
run ((clock, reads size) ∷ events) stream conn =
    let after = stream_recv clock stream conn size in
    let later = run events after.1 after.2 in (outcome_bytes after.0 ++ later.0, later.1, later.2)

-- Every frame carries the bytes of the stream at its place.
unfoldable pub Honest : (ℕ → ℕ) → List (Clock × Event) → Type 0
Honest g [] = Unit
Honest g ((clock, arrives frame) ∷ events) = IsNew g frame × Honest g events
Honest g ((clock, reads size) ∷ events) = Honest g events

-- Nothing, and one piece behind another
content_none : (g : ℕ → ℕ) (n : ℕ) → [] ≡ content g n (n - n)
unfolding content
content_none g n = sym (content_eq g n n (n - n) 0 refl (omega arith))

joined :
    (g : ℕ → ℕ) (a b c : ℕ) (xs ys : List ℕ)
    → a ≤ b
    → b ≤ c
    → xs ≡ content g a (b - a)
    → ys ≡ content g b (c - b)
    → xs ++ ys ≡ content g a (c - a)
joined g a b c xs ys h k e f =
    ap₂ (λ (l m : List ℕ). l ++ m) e
      (f ∙ content_eq g b (a + (b - a)) (c - b) (c - b) (omega (arith, h)) refl)
    ∙ content-append g a (b - a) (c - b)
    ∙ content_eq g a a (b - a + (c - b)) (c - a) refl (omega (arith, h, k))

-- Data that waits, and the bytes given back from a place up to its next_read_offset
Given : (ℕ → ℕ) → ℕ → List ℕ → StreamDataIn → Type 0
Given g from bytes d =
    Waits g d × (from ≤ d.next_read_offset) × (bytes ≡ content g from (d.next_read_offset - from))

nothing-Given :
    (g : ℕ → ℕ) (d d' : StreamDataIn) → d' ≡ d → Waits g d → Given g d.next_read_offset [] d'
unfolding Given
nothing-Given g d d' e w = rw e (w, omega arith, content_none g d.next_read_offset)

some-Given :
    (g : ℕ → ℕ) (from k : ℕ) (d' : StreamDataIn)
    → Waits g d'
    → d'.next_read_offset ≡ from + k
    → Given g from (content g from k) d'
unfolding Given
some-Given g from k d' w e = (
  w,
  omega (arith, e),
  content_eq g from from k (d'.next_read_offset - from) refl (omega (arith, e)),
)

outcome_lem :
    (g : ℕ → ℕ) (from k : ℕ) (fin : Bool)
    → outcome_bytes (if k == 0 && not fin then again else received (content g from k) fin)
      ≡ content g from k
unfolding outcome_bytes
outcome_lem g from zero fin = unfold content in ground arith
outcome_lem g from (suc k) fin = ground arith

Given-Waits :
    (g : ℕ → ℕ) (from : ℕ) (bytes : List ℕ) (d : StreamDataIn) → Given g from bytes d → Waits g d
unfolding Given
Given-Waits g from bytes d v = v.0

later_Given :
    (g : ℕ → ℕ) (from : ℕ) (xs ys : List ℕ) (d d' : StreamDataIn)
    → Given g from xs d
    → Given g d.next_read_offset ys d'
    → Given g from (xs ++ ys) d'
unfolding Given
later_Given g from xs ys d d' v u = (
  u.0,
  omega (arith, v.1, u.1),
  joined g from d.next_read_offset d'.next_read_offset xs ys v.1 u.1 v.2 u.2,
)

-- A read of a stream, whatever its state.
reads_lem :
    (g : ℕ → ℕ) (clock : Clock) (stream : Stream) (conn : Conn) (size : ℕ)
    → Waits g stream.stream_data_in
    → Given g stream.stream_data_in.next_read_offset
        (outcome_bytes (stream_recv clock stream conn size).0)
        (stream_recv clock stream conn size).1.stream_data_in
reads_lem g clock stream conn size w =
    elim (Bool-cases (leb 4 (recv_rank stream.stream_state_recv))) [
      | inl t ↦
          let r = stream_recv_reset clock stream conn size t in
          let d = stream.stream_data_in in
          rw r.0 (unfold outcome_bytes in nothing-Given g d _ r.1 w)
      | inr t ↦
          let r = stream_recv_lem g clock stream conn size (leb→lt _ _ t) w in
          let d = stream.stream_data_in in
          let k : ℕ = min size (d.merged_offset_end - d.next_read_offset) in
          rw
            (ap outcome_bytes r.0
              ∙ outcome_lem g d.next_read_offset k
                  (d.stream_determined && d.next_read_offset + k == d.stream_length))
            (some-Given g d.next_read_offset k _ r.1 r.2)
    ]

Given-of-eq :
    (g : ℕ → ℕ) (n m : ℕ) (bytes : List ℕ) (d : StreamDataIn)
    → n ≡ m
    → Given g n bytes d
    → Given g m bytes d
Given-of-eq g n m bytes d e v = rw (← e) v

run-Given :
    (g : ℕ → ℕ) (events : List (Clock × Event)) (stream : Stream) (conn : Conn)
    → Waits g stream.stream_data_in
    → Honest g events
    → Given g stream.stream_data_in.next_read_offset
        (run events stream conn).0
        (run events stream conn).1.stream_data_in
unfolding run Honest
run-Given g [] stream conn w h = nothing-Given g stream.stream_data_in _ refl w
run-Given g ((clock, arrives frame) ∷ events) stream conn w h =
    let after = process_stream_frame clock stream conn frame in
    let k = arrival g clock stream conn frame w h.0 in
    Given-of-eq g _ _ _ _ k.1 (run-Given g events after.1 after.2 k.0 h.1)
  where
    arrival :
        (g : ℕ → ℕ) (clock : Clock) (stream : Stream) (conn : Conn) (frame : StreamFrame)
        → Waits g stream.stream_data_in
        → IsNew g frame
        → let d = (process_stream_frame clock stream conn frame).1.stream_data_in in
          Waits g d × (d.next_read_offset ≡ stream.stream_data_in.next_read_offset)
    arrival g clock stream conn frame w n =
        unfold Kept in
        process_stream_frame-Kept g stream.stream_data_in.next_read_offset clock stream conn frame
          (w, refl) n
run-Given g ((clock, reads size) ∷ events) stream conn w h =
    let after = stream_recv clock stream conn size in
    let first = reads_lem g clock stream conn size w in
    later_Given g stream.stream_data_in.next_read_offset _ _ _ _ first
      (run-Given g events after.1 after.2 (Given-Waits g _ _ _ first) h)

-- Whatever frames of a stream arrive, in whatever order, overlapping or again, with whatever reads in
-- between: the bytes that the application gets, one read after the other, are those of the stream from
-- the first one that was not yet read up to the new next_read_offset, and the frames that wait are
-- ready to be read from there on.
pub run_lem :
    (g : ℕ → ℕ) (events : List (Clock × Event)) (stream : Stream) (conn : Conn)
    → Waits g stream.stream_data_in
    → Honest g events
    → let after = run events stream conn in
      let d = stream.stream_data_in in
      Waits g after.1.stream_data_in
      × (d.next_read_offset ≤ after.1.stream_data_in.next_read_offset)
      × (after.0
          ≡ content g d.next_read_offset
              (after.1.stream_data_in.next_read_offset - d.next_read_offset))
unfolding Given
run_lem g events stream conn w h = run-Given g events stream conn w h

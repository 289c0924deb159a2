-- ===== src/Stream/Create/Tests.antt =====
-- Streams 0, 4 and 8 of a client are used; 4 is closed.
use rquic.Base.{◌≡◌, refl, arith, true, false, [], ◌∷◌}
use rquic.Stream.Sample.{conn}
use rquic.Stream.Create.{Registry, stream_is_bidi, with_id, destroy_stream, find_or_create}
use rquic.Stream.Create.Gone.{IsUsed}
use rquic.Stream.Create.Closed.{frame_for, destroyed, run, destroyed_stays_closed}

abbrev fresh : Registry
fresh = record {
  conn = conn;
  can_create = true;
  streams_hash = λ i. false;
  passive_streams_hash = λ i. false;
  next_bidi_remote = 0;
  next_uni_remote = 0;
  max_streams_bidi = 4;
  max_streams_uni = 4;
}

abbrev used : Registry
used = record fresh {
  streams_hash = with_id 4 true (with_id 8 true (λ i. false));
  passive_streams_hash = with_id 0 true (with_id 4 true (with_id 8 true (λ i. false)));
  next_bidi_remote = 3;
}

used-IsUsed : IsUsed 4 used
unfolding IsUsed stream_is_bidi
used-IsUsed = omega arith

destroyed_stays_closed_example :
    (find_or_create
      (run (frame_for 0 ∷ frame_for 12 ∷ frame_for 4 ∷ destroyed 8 ∷ []) (destroy_stream used 4))
      4).0
    ≡ false
destroyed_stays_closed_example =
    destroyed_stays_closed 4 used (frame_for 0 ∷ frame_for 12 ∷ frame_for 4 ∷ destroyed 8 ∷ [])
      used-IsUsed

-- A frame for stream 8 opens it; 4 can still be opened then, and 16 is above the limit of 4.
first : (find_or_create fresh 8).0 ≡ true
unfolding find_or_create with_id
first = refl

late : (find_or_create (find_or_create fresh 8).1 4).0 ≡ true
unfolding find_or_create with_id
late = refl

above : (find_or_create fresh 16).0 ≡ false
unfolding find_or_create
above = refl

-- ===== src/Stream/Create/Closed.antt =====
-- A stream of the peer that was closed is not opened again.
use rquic.Base.{ℕ, ◌≡◌, refl, true, false, List, [], ◌∷◌, Bool-cases, inl, inr, ==_self}
use rquic.Stream.Create.{
  Registry, with_id, create_flow_ctl, destroy_stream, passive_create_stream, find_or_create,
  is_peers,
}
use rquic.Stream.Create.Gone.{IsUsed, IsGone, create_flow_ctl-IsGone}
use rquic.Stream.Create.Steps.{
  Leaves, branch, leaves, of_Leaves, enter_id-gone, passive_create-Leaves, destroy_stream-IsGone,
}

find_or_create-Leaves :
    (id other : ℕ) (reg : Registry) → IsGone id reg → Leaves id (find_or_create reg other)
unfolding find_or_create
find_or_create-Leaves id other reg g =
    branch id (reg.streams_hash other) _ _ (λ e. leaves id true reg g)
      (λ e.
        branch id (is_peers reg.conn.is_client other) _ _
          (λ f. passive_create-Leaves id other reg g) (λ f. leaves id false reg g))

passive_create-gone :
    (id : ℕ) (reg : Registry) → IsGone id reg → (passive_create_stream reg id).0 ≡ false
unfolding passive_create_stream
passive_create-gone id reg g =
    let checked = create_flow_ctl reg id in
    let e = enter_id-gone id checked.1 (create_flow_ctl-IsGone id reg id g) in
    elim (Bool-cases checked.0) [ inl t ↦ rw (t, e) refl | inr t ↦ rw t t ]

find_or_create-gone : (id : ℕ) (reg : Registry) → IsGone id reg → (find_or_create reg id).0 ≡ false
unfolding find_or_create
find_or_create-gone id reg g = elim (Bool-cases (is_peers reg.conn.is_client id)) [
  | inl e ↦ rw (g.closed, e) (passive_create-gone id reg g)
  | inr e ↦ rw (g.closed, e) refl
]

-- What happens to the streams of the peer: a frame for a stream comes, or a stream is destroyed.
pub data Event : Type 0 where
  frame_for : ℕ → Event
  destroyed : ℕ → Event

unfoldable pub run : List Event → Registry → Registry
run [] reg = reg
run (frame_for id ∷ events) reg = run events (find_or_create reg id).1
run (destroyed id ∷ events) reg = run events (destroy_stream reg id)

run-IsGone :
    (id : ℕ) (events : List Event) (reg : Registry) → IsGone id reg → IsGone id (run events reg)
unfolding run
run-IsGone id [] reg g = g
run-IsGone id (frame_for other ∷ events) reg g =
    run-IsGone id events (find_or_create reg other).1
      (of_Leaves id (find_or_create reg other) (find_or_create-Leaves id other reg g))
run-IsGone id (destroyed other ∷ events) reg g =
    run-IsGone id events (destroy_stream reg other) (destroy_stream-IsGone id other reg g)

destroyed-IsGone : (id : ℕ) (reg : Registry) → IsUsed id reg → IsGone id (destroy_stream reg id)
unfolding destroy_stream with_id IsUsed
destroyed-IsGone id reg u = record {
  closed = rw (==_self id) refl;
  forgotten = rw (==_self id) refl;
  used = u;
}

-- Once a stream of the peer, whose number is below those not used yet, has been destroyed, then whatever
-- frames for any streams come and whatever streams are destroyed afterwards, a frame for that stream
-- finds no stream and creates none.
pub destroyed_stays_closed :
    (id : ℕ) (reg : Registry) (events : List Event)
    → IsUsed id reg
    → (find_or_create (run events (destroy_stream reg id)) id).0 ≡ false
destroyed_stays_closed id reg events u =
    find_or_create-gone id (run events (destroy_stream reg id))
      (run-IsGone id events (destroy_stream reg id) (destroyed-IsGone id reg u))

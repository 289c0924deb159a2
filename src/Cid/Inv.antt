-- ===== src/Cid/Inv.antt =====
-- The well-formed sets of ids of one path: what the counters mean.
use rquic.Base.{ℕ, ◌+◌, ◌%◌, ◌^◌, ◌≡◌, refl, arith, Bool, true, false, ◌&&◌}
use rquic.Base.{All}
use rquic.Base.{◌==◌}
use rquic.Cid.{CidState, CidInner, CidSetInner, rank, count_in, count_out}
use rquic.Cid.{CidState.unused, CidState.used, CidState.retired, CidState.removed}
use rquic.Base.Count.{bit, count}

unfoldable pub is_in : CidState → CidInner → Bool
is_in state node = rank node.state == rank state

unfoldable pub is_acked_unused : CidInner → Bool
is_acked_unused node = node.acked && (rank node.state == rank unused)

-- The counters of a set agree, as words, with how many nodes pass each test.
unfoldable pub Agrees : ((CidInner → Bool) → ℕ) → CidSetInner → Type 0
Agrees tally s =
    (s.unused_cnt ≡ tally (is_in unused) % 2 ^ 64)
    × (s.used_cnt ≡ tally (is_in used) % 2 ^ 64)
    × (s.retired_cnt ≡ tally (is_in retired) % 2 ^ 64)
    × (s.acked_unused ≡ tally is_acked_unused % 2 ^ 32)

unfoldable pub OnPath : ℕ → CidInner → Type 0
OnPath path_id node = node.cid.path_id ≡ path_id

-- The counters agree with the nodes, and the nodes know their path.
unfoldable pub IsValid : CidSetInner → Type 0
IsValid s =
    Agrees (λ (p : CidInner → Bool). count p s.cid_list) s × All (OnPath s.path_id) s.cid_list

-- What an operation on the set of a path keeps.
unfoldable pub Keeps : CidSetInner → CidSetInner → Type 0
Keeps s t = IsValid t × (t.path_id ≡ s.path_id) × (t.set_state ≡ s.set_state)

pub Keeps-refl : (s : CidSetInner) → IsValid s → Keeps s s
unfolding Keeps
Keeps-refl s v = (v, refl, refl)

-- One more node, for the four tests.
one_more :
    (node : CidInner) (t t' : (CidInner → Bool) → ℕ)
    → ((p : CidInner → Bool) → t' p ≡ t p + bit (p node))
    → (t' (is_in unused) ≡ t (is_in unused) + bit (is_in unused node))
      × (t' (is_in used) ≡ t (is_in used) + bit (is_in used node))
      × (t' (is_in retired) ≡ t (is_in retired) + bit (is_in retired node))
      × (t' is_acked_unused ≡ t is_acked_unused + bit (is_acked_unused node))
one_more node t t' more =
    (more (is_in unused), more (is_in used), more (is_in retired), more is_acked_unused)

-- A node comes in that is not acknowledged and unused at once.
pub count_in-Agrees :
    (state : CidState) (s : CidSetInner) (node : CidInner) (t t' : (CidInner → Bool) → ℕ)
    → Agrees t s
    → node.state ≡ state
    → is_acked_unused node ≡ false
    → ((p : CidInner → Bool) → t' p ≡ t p + bit (p node))
    → Agrees t' (count_in state s)
unfolding Agrees count_in is_in rank bit
count_in-Agrees unused s node t t' h e a more = ground (arith, h, e, a, one_more node t t' more)
count_in-Agrees used s node t t' h e a more = ground (arith, h, e, a, one_more node t t' more)
count_in-Agrees retired s node t t' h e a more = ground (arith, h, e, a, one_more node t t' more)
count_in-Agrees removed s node t t' h e a more = ground (arith, h, e, a, one_more node t t' more)

-- A node leaves.
pub count_out-Agrees :
    (state : CidState) (acked : Bool) (s : CidSetInner) (node : CidInner)
    (t t' : (CidInner → Bool) → ℕ)
    → Agrees t s
    → node.state ≡ state
    → node.acked ≡ acked
    → ((p : CidInner → Bool) → t p ≡ t' p + bit (p node))
    → Agrees t' (count_out state acked s)
unfolding Agrees count_out is_in is_acked_unused rank bit
count_out-Agrees unused true s node t t' h e a more =
    ground (arith, h, e, a, one_more node t' t more)
count_out-Agrees unused false s node t t' h e a more =
    ground (arith, h, e, a, one_more node t' t more)
count_out-Agrees used acked s node t t' h e a more =
    ground (arith, h, e, a, one_more node t' t more)
count_out-Agrees retired acked s node t t' h e a more =
    ground (arith, h, e, a, one_more node t' t more)
count_out-Agrees removed acked s node t t' h e a more =
    ground (arith, h, e, a, one_more node t' t more)

-- Counting leaves the nodes and the path alone.
pub count_in-frame :
    (state : CidState) (s : CidSetInner)
    → ((count_in state s).cid_list ≡ s.cid_list)
      × ((count_in state s).path_id ≡ s.path_id)
      × ((count_in state s).set_state ≡ s.set_state)
unfolding count_in
count_in-frame unused s = (refl, refl, refl)
count_in-frame used s = (refl, refl, refl)
count_in-frame retired s = (refl, refl, refl)
count_in-frame removed s = (refl, refl, refl)

pub count_out-frame :
    (state : CidState) (acked : Bool) (s : CidSetInner)
    → ((count_out state acked s).cid_list ≡ s.cid_list)
      × ((count_out state acked s).path_id ≡ s.path_id)
      × ((count_out state acked s).set_state ≡ s.set_state)
unfolding count_out
count_out-frame unused true s = (refl, refl, refl)
count_out-frame unused false s = (refl, refl, refl)
count_out-frame used acked s = (refl, refl, refl)
count_out-frame retired acked s = (refl, refl, refl)
count_out-frame removed acked s = (refl, refl, refl)

-- ===== src/Cid/Tests.antt =====
-- Concrete runs of the sets of connection ids.
use rquic.Base.{ℕ, ◌≡◌, ◌≤◌, refl, arith, true, false, List, [], ◌∷◌, ◌⊎◌, some, get_elem?}
use rquic.Cid.{Cid, CidInner, CidSetInner, CidState.unused, CidState.used, Status.ok}
use rquic.Cid.{
  Status.econn_no_avail_cid, Status.eactive_cid_limit, get_unused_cid, rank, insert_cid,
}
use rquic.Cid.{SetState.set_used}
use rquic.Base.Count.{bit, count}
use rquic.Cid.Inv
use rquic.Cid.Inv.{Agrees, is_in, is_acked_unused}
use rquic.Cid.Unused.{get_unused_cid_lem}
use rquic.Cid.Sets.{init_cid_set}
use rquic.Cid.Sets.Inv as SetsInv
use rquic.Cid.Sets.Reach.{
  Op, Op.add_path, Op.insert, Op.take_unused, Op.update_state, run, run_init-IsValid,
}

abbrev first_cid : Cid
first_cid = record { cid_buf = 1 ∷ 2 ∷ []; cid_seq_num = 0; path_id = 0 }

abbrev second_cid : Cid
second_cid = record { cid_buf = 1 ∷ 3 ∷ []; cid_seq_num = 1; path_id = 0 }

abbrev first_node : CidInner
first_node = record { cid = first_cid; state = used; retired_ts = 7; acked = false }

abbrev second_node : CidInner
second_node = record { cid = second_cid; state = unused; retired_ts = 7; acked = true }

abbrev two_cids : CidSetInner
two_cids = record {
  cid_list = first_node ∷ second_node ∷ [];
  unused_cnt = 1;
  used_cnt = 1;
  retired_cnt = 0;
  path_id = 0;
  largest_seq_or_rpt = 0;
  set_state = set_used;
  acked_unused = 1;
}

two_cids-IsValid : Inv.IsValid two_cids
unfolding Inv.IsValid Agrees count bit is_in is_acked_unused rank Inv.OnPath
two_cids-IsValid = ((refl, refl, refl, refl), (refl, (refl, tt)))

get_unused_cid_lem_example :
    ((count (is_in unused) two_cids.cid_list ≡ 0)
      × (get_unused_cid first_cid two_cids ≡ (econn_no_avail_cid, first_cid, two_cids)))
    ⊎ ((1 ≤ count (is_in unused) two_cids.cid_list)
        × ((get_unused_cid first_cid two_cids).0 ≡ ok)
        × ((i : ℕ) × (node : CidInner) × (left : CidInner) × (get_elem? two_cids.cid_list i
              ≡ some node)
            × (node.state ≡ unused)
            × ((get_unused_cid first_cid two_cids).1 ≡ node.cid)
            × (get_elem? (get_unused_cid first_cid two_cids).2.cid_list i ≡ some left)
            × (left.state ≡ used)
            × (left.cid.cid_buf ≡ node.cid.cid_buf)))
get_unused_cid_lem_example = get_unused_cid_lem first_cid two_cids two_cids-IsValid (omega arith)

abbrev some_ops : List Op
some_ops =
    add_path 4
    ∷ insert first_cid unused 1 4
    ∷ update_state 4 set_used
    ∷ take_unused second_cid 4
    ∷ add_path 5
    ∷ []

run_init-IsValid_example : SetsInv.IsValid (run some_ops init_cid_set)
run_init-IsValid_example = run_init-IsValid some_ops

abbrev one_cid : CidSetInner
one_cid = record two_cids { cid_list = first_node ∷ []; unused_cnt = 0; acked_unused = 0 }

-- The limit is compared with the number of active ids before the insertion.
two_above_one : (insert_cid second_cid unused 1 one_cid).0 ≡ ok
unfolding insert_cid
two_above_one = refl

none_above_two : (insert_cid second_cid unused 1 two_cids).0 ≡ eactive_cid_limit
unfolding insert_cid
none_above_two = refl

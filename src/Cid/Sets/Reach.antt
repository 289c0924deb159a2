-- ===== src/Cid/Sets/Reach.antt =====
-- The sets of all paths stay well-formed under every operation, in any order.
use rquic.Base.{ℕ, refl}
use rquic.Base.{List, [], ◌∷◌}
use rquic.Cid.{Cid, CidState, CidSet, SetState}
use rquic.Cid.{insert_cid, delete_cid, cid_switch_to_next_state}
use rquic.Base.Count.{count}
use rquic.Cid.Inv
use rquic.Cid.Inv.{Keeps, Agrees}
use rquic.Cid.Ops.{insert_cid-Keeps, delete_cid-Keeps}
use rquic.Cid.Switch.{cid_switch_to_next_state-Keeps, get_unused_cid-Keeps, on_cid_acked-Keeps}
use rquic.Cid.Sets.{
  init_cid_set, cid_set_insert_cid, cid_set_delete_cid, switch_to_next_state, get_unused,
  cid_set_add_path, cid_set_update_state, cid_set_on_cid_acked, cid_set_set_largest_seq_or_rpt,
}
use rquic.Cid.Sets.Inv.{
  IsValid, SetsAgree, Distinct, path_ids, on_path-IsValid, cid_set_add_path-IsValid,
}
use rquic.Cid.Sets.Update.{cid_set_update_state-IsValid}

-- The operations of the sets with their arguments.
pub data Op : Type 0 where
  insert : Cid → CidState → ℕ → ℕ → Op
  delete : Cid → ℕ → Op
  switch : ℕ → CidState → ℕ → Op
  take_unused : Cid → ℕ → Op
  add_path : ℕ → Op
  update_state : ℕ → SetState → Op
  cid_acked : ℕ → ℕ → Op
  set_largest : ℕ → ℕ → Op

pub apply : Op → CidSet → CidSet
apply (insert cid state limit p) c = (cid_set_insert_cid c cid state limit p).1
apply (delete cid p) c = (cid_set_delete_cid c cid p).1
apply (switch i state p) c = (switch_to_next_state c i state p).1
apply (take_unused cid p) c = (get_unused c cid p).1
apply (add_path p) c = cid_set_add_path c p
apply (update_state p state) c = cid_set_update_state c p state
apply (cid_acked p seq) c = cid_set_on_cid_acked c p seq
apply (set_largest p val) c = (cid_set_set_largest_seq_or_rpt c p val).1

pub run : List Op → CidSet → CidSet
unfolding apply
run [] c = c
run (op ∷ ops) c = run ops (apply op c)

apply-IsValid : (op : Op) (c : CidSet) → IsValid c → IsValid (apply op c)
unfolding apply cid_set_insert_cid cid_set_delete_cid switch_to_next_state get_unused
    cid_set_on_cid_acked cid_set_set_largest_seq_or_rpt Inv.IsValid Agrees Keeps
apply-IsValid (insert cid state limit p) c v =
    on_path-IsValid p _ (insert_cid cid state limit) c (insert_cid-Keeps cid state limit) v
apply-IsValid (delete cid p) c v = on_path-IsValid p _ (delete_cid cid) c (delete_cid-Keeps cid) v
apply-IsValid (switch i state p) c v =
    on_path-IsValid p _ (cid_switch_to_next_state i state) c
      (cid_switch_to_next_state-Keeps i state) v
apply-IsValid (take_unused cid p) c v = on_path-IsValid p _ _ c (get_unused_cid-Keeps cid) v
apply-IsValid (add_path p) c v = cid_set_add_path-IsValid c p v
apply-IsValid (update_state p state) c v = cid_set_update_state-IsValid c p state v
apply-IsValid (cid_acked p seq) c v = on_path-IsValid p _ _ c (on_cid_acked-Keeps seq) v
apply-IsValid (set_largest p val) c v = on_path-IsValid p _ _ c (λ s w. (w, refl, refl)) v

run-IsValid : (ops : List Op) (c : CidSet) → IsValid c → IsValid (run ops c)
unfolding run
run-IsValid [] c v = v
run-IsValid (op ∷ ops) c v = run-IsValid ops (apply op c) (apply-IsValid op c v)

-- Whatever operations are done on the sets of ids, from rqc_init_cid_set on and in any order, no
-- path has two sets, the sets of each state are as many as `set_cnt` says, and in each set the
-- counters of unused, used, retired and acknowledged unused ids are the numbers of such nodes; a
-- counter is a word of its width. The ids of a set carry the set's path.
pub run_init-IsValid : (ops : List Op) → IsValid (run ops init_cid_set)
unfolding init_cid_set IsValid SetsAgree Distinct path_ids count
run_init-IsValid ops = run-IsValid ops init_cid_set (tt, tt, (refl, refl, refl))

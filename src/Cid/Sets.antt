-- ===== src/Cid/Sets.antt =====
-- src/transport/rqc_cid.c: the sets of all paths of a connection. A path's set is found by its id,
-- and the operations of the path are done on it in place.
pub mod Inv
pub mod Update
pub mod Reach
use rquic.Base.{ℕ, ◌+◌, ◌-◌, ◌%◌, ◌^◌, Bool, true, false, List, [], ◌∷◌, ◌++◌}
use rquic.Base.{Option, none, some, ltb, ◌==◌, if◌then◌else◌, length}
use rquic.Cid.{Cid, CidState, CidInner, CidSetInner, CidSet, SetState, Status, find_cid, named_as}
use rquic.Cid.{SetState.set_unused, SetState.set_used, SetState.set_abandoned}
use rquic.Cid.{Status.ok, Status.error, Status.econn_cid_not_found, Status.econn_no_avail_cid}
use rquic.Cid.{insert_cid, delete_cid, cid_switch_to_next_state, get_unused_cid, find_seq}
use rquic.Cid.{on_cid_acked, incr_word, decr_word, cid_is_equal, rank}

-- rqc_init_cid_set
pub init_cid_set : CidSet
init_cid_set = record {
  cid_set_list = [];
  unused_set_cnt = 0;
  used_set_cnt = 0;
  abandoned_set_cnt = 0;
}

-- rqc_cid_set_inner_init, and the id of the path
pub inner_init : ℕ → CidSetInner
inner_init path_id = record {
  cid_list = [];
  unused_cnt = 0;
  used_cnt = 0;
  retired_cnt = 0;
  path_id = path_id;
  largest_seq_or_rpt = 0;
  set_state = set_unused;
  acked_unused = 0;
}

pub find_path : List CidSetInner → ℕ → Option CidSetInner
find_path [] path_id = none
find_path (s ∷ next) path_id = if s.path_id == path_id then some s else find_path next path_id

pub get_path_cid_set : CidSet → ℕ → Option CidSetInner
get_path_cid_set cid_set path_id = find_path cid_set.cid_set_list path_id

pub set_rank : SetState → ℕ
set_rank set_unused = 0
set_rank set_used = 1
set_rank set_abandoned = 2

pub find_unused_set : List CidSetInner → Option CidSetInner
find_unused_set [] = none
find_unused_set (s ∷ next) =
    if set_rank s.set_state == set_rank set_unused then some s else find_unused_set next

pub get_next_unused_path_cid_set : CidSet → Option CidSetInner
get_next_unused_path_cid_set cid_set = find_unused_set cid_set.cid_set_list

-- What `inner_set = rqc_get_path_cid_set(...)` and work on `*inner_set` leave; `missing` is the
-- result when there is no such set.
pub at_path :
    {A : Type 0} → ℕ → A → (CidSetInner → A × CidSetInner) → List CidSetInner → A × List CidSetInner
at_path path_id missing f [] = (missing, [])
at_path path_id missing f (s ∷ next) =
    let done = f s in
    let later = at_path path_id missing f next in
    if s.path_id == path_id then (done.0, done.1 ∷ next) else (later.0, s ∷ later.1)

-- The same on the whole.
pub on_path : {A : Type 0} → ℕ → A → (CidSetInner → A × CidSetInner) → CidSet → A × CidSet
on_path path_id missing f cid_set =
    let done = at_path path_id missing f cid_set.cid_set_list in
    (done.0, record cid_set { cid_set_list = done.1 })

-- The four counters of a path; `none` is RQC_ERROR.
pub cid_set_get_unused_cnt : CidSet → ℕ → Option ℕ
cid_set_get_unused_cnt cid_set path_id = elim (get_path_cid_set cid_set path_id) [
  | none ↦ none
  | some s ↦ some s.unused_cnt
]

pub cid_set_get_used_cnt : CidSet → ℕ → Option ℕ
cid_set_get_used_cnt cid_set path_id = elim (get_path_cid_set cid_set path_id) [
  | none ↦ none
  | some s ↦ some s.used_cnt
]

pub cid_set_get_retired_cnt : CidSet → ℕ → Option ℕ
cid_set_get_retired_cnt cid_set path_id = elim (get_path_cid_set cid_set path_id) [
  | none ↦ none
  | some s ↦ some s.retired_cnt
]

pub cid_set_get_largest_seq_or_rpt : CidSet → ℕ → Option ℕ
cid_set_get_largest_seq_or_rpt cid_set path_id = elim (get_path_cid_set cid_set path_id) [
  | none ↦ none
  | some s ↦ some s.largest_seq_or_rpt
]

pub cid_set_set_largest_seq_or_rpt : CidSet → ℕ → ℕ → Status × CidSet
cid_set_set_largest_seq_or_rpt cid_set path_id val =
    on_path path_id error (λ s. (ok, record s { largest_seq_or_rpt = val })) cid_set

pub cid_set_insert_cid : CidSet → Cid → CidState → ℕ → ℕ → Status × CidSet
cid_set_insert_cid cid_set cid state limit path_id =
    on_path path_id econn_cid_not_found (insert_cid cid state limit) cid_set

pub cid_set_delete_cid : CidSet → Cid → ℕ → Status × CidSet
cid_set_delete_cid cid_set cid path_id = on_path path_id error (delete_cid cid) cid_set

-- The node that is found, and `*cid` as it is left.
pub cid_in_cid_set : CidSet → Cid → ℕ → Option CidInner × Cid
cid_in_cid_set cid_set cid path_id = elim (get_path_cid_set cid_set path_id) [
  | none ↦ (none, cid)
  | some s ↦ elim (find_cid cid s.cid_list) [
    | none ↦ (none, cid)
    | some found ↦ (some found, named_as found cid)
  ]
]

-- The two loops of rqc_cid_set_search_cid.
pub search_sets : Cid → List CidSetInner → Option CidInner × Cid
search_sets cid [] = (none, cid)
search_sets cid (s ∷ next) = elim (find_cid cid s.cid_list) [
  | none ↦ search_sets cid next
  | some found ↦ (some found, named_as found cid)
]

pub cid_set_search_cid : CidSet → Cid → Option CidInner × Cid
cid_set_search_cid cid_set cid = search_sets cid cid_set.cid_set_list

-- rqc_cid_switch_to_next_state for the node at `i` of the list of `path_id`
pub switch_to_next_state : CidSet → ℕ → CidState → ℕ → Status × CidSet
switch_to_next_state cid_set i next_state path_id =
    on_path path_id econn_cid_not_found (cid_switch_to_next_state i next_state) cid_set

-- The status and `*cid`, then the sets.
pub get_unused : CidSet → Cid → ℕ → (Status × Cid) × CidSet
get_unused cid_set cid path_id =
    on_path path_id (econn_no_avail_cid, cid)
      (λ s. let done = get_unused_cid cid s in ((done.0, done.1), done.2)) cid_set

pub get_inner_cid_by_seq : CidSet → ℕ → ℕ → Option CidInner
get_inner_cid_by_seq cid_set seq_num path_id = elim (get_path_cid_set cid_set path_id) [
  | none ↦ none
  | some s ↦ find_seq seq_num s.cid_list
]

pub cid_set_add_path : CidSet → ℕ → CidSet
cid_set_add_path cid_set path_id = elim (get_path_cid_set cid_set path_id) [
  | some s ↦ cid_set
  | none ↦ record cid_set {
    cid_set_list = cid_set.cid_set_list ++ inner_init path_id ∷ [];
    unused_set_cnt = incr_word cid_set.unused_set_cnt;
  }
]

-- `cid_set->set_cnt[state]++` and `--`
pub set_cnt_incr : SetState → CidSet → CidSet
set_cnt_incr set_unused c = record c { unused_set_cnt = incr_word c.unused_set_cnt }
set_cnt_incr set_used c = record c { used_set_cnt = incr_word c.used_set_cnt }
set_cnt_incr set_abandoned c = record c { abandoned_set_cnt = incr_word c.abandoned_set_cnt }

pub set_cnt_decr : SetState → CidSet → CidSet
set_cnt_decr set_unused c = record c { unused_set_cnt = decr_word c.unused_set_cnt }
set_cnt_decr set_used c = record c { used_set_cnt = decr_word c.used_set_cnt }
set_cnt_decr set_abandoned c = record c { abandoned_set_cnt = decr_word c.abandoned_set_cnt }

pub cid_set_update_state : CidSet → ℕ → SetState → CidSet
cid_set_update_state cid_set path_id state = elim (get_path_cid_set cid_set path_id) [
  | none ↦ cid_set
  | some s ↦
      if set_rank s.set_state == set_rank state
      then cid_set
      else (on_path path_id tt (λ t. (tt, record t { set_state = state }))
          (set_cnt_incr state (set_cnt_decr s.set_state cid_set))).1
]

pub cid_set_on_cid_acked : CidSet → ℕ → ℕ → CidSet
cid_set_on_cid_acked cid_set path_id cid_seq =
    (on_path path_id tt (λ s. (tt, on_cid_acked cid_seq s)) cid_set).1

-- The node that rqc_cid_set_search_cid returns, with its position in the list of its set.
unfoldable pub find_node : Cid → ℕ → List CidInner → Option (ℕ × CidInner)
find_node cid i [] = none
find_node cid i (inner_cid ∷ next) =
    if cid_is_equal cid inner_cid.cid then some (i, inner_cid) else find_node cid (i + 1) next

unfoldable pub search_node : Cid → List CidSetInner → Option (ℕ × CidInner)
search_node cid [] = none
search_node cid (s ∷ next) = elim (find_node cid 0 s.cid_list) [
  | none ↦ search_node cid next
  | some found ↦ some found
]

-- rqc_conn_check_dcid (src/transport/rqc_conn.c) on the connection's scid_set: the status, `*dcid`
-- as it is left, the sets.
unfoldable pub conn_check_dcid : CidSet → Cid → Status × Cid × CidSet
conn_check_dcid scid_set dcid = elim (search_node dcid scid_set.cid_set_list) [
  | none ↦ (econn_cid_not_found, dcid, scid_set)
  | some (i, scid) ↦
      let switched = switch_to_next_state scid_set i CidState.used scid.cid.path_id in
      if rank scid.state == rank CidState.unused
      then (switched.0, named_as scid dcid, switched.1)
      else (ok, named_as scid dcid, scid_set)
]

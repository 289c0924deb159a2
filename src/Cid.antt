-- ===== src/Cid.antt =====
-- src/transport/rqc_cid.c and .h: connection ids, and the sets of them that a connection keeps for
-- each path. A list is the C list from its head; the two unions of counters are one field each. A
-- node is named by its position where the C code holds a pointer to it.
pub mod Sets
pub mod Inv
pub mod Ops
pub mod Switch
pub mod Unused
mod Tests
use rquic.Base.{ℕ, zero, suc, ◌+◌, ◌-◌, ◌%◌, ◌^◌, Bool, true, false, not, ◌&&◌, List, [], ◌∷◌, ◌++◌}
use rquic.Base.{Option, none, some, ltb, leb, ◌==◌, if◌then◌else◌, set, get_elem?, length}

-- rqc_cid_t: `cid_buf` holds the `cid_len` bytes in use.
pub record Cid : Type 0 where
  pub cid_buf : List ℕ
  pub cid_seq_num : ℕ
  pub path_id : ℕ

-- rqc_cid_state_t
pub data CidState : Type 0 where
  unused used retired removed : CidState

-- The values of the enumeration, which the code compares.
unfoldable pub rank : CidState → ℕ
rank unused = 0
rank used = 1
rank retired = 2
rank removed = 3

-- rqc_cid_set_state_t without its bound
pub data SetState : Type 0 where
  set_unused set_used set_abandoned : SetState

-- rqc_cid_inner_t; `acked` is RQC_CID_ACKED or RQC_CID_UNACKED.
pub record CidInner : Type 0 where
  pub cid : Cid
  pub state : CidState
  pub retired_ts : ℕ
  pub acked : Bool

-- rqc_cid_set_inner_t
pub record CidSetInner : Type 0 where
  pub cid_list : List CidInner
  pub unused_cnt : ℕ
  pub used_cnt : ℕ
  pub retired_cnt : ℕ
  pub path_id : ℕ
  pub largest_seq_or_rpt : ℕ
  pub set_state : SetState
  pub acked_unused : ℕ

-- rqc_cid_set_t without the two unions that only cache an id: `set_cnt` as a field per state.
pub record CidSet : Type 0 where
  pub cid_set_list : List CidSetInner
  pub unused_set_cnt : ℕ
  pub used_set_cnt : ℕ
  pub abandoned_set_cnt : ℕ

-- RQC_ERROR, -RQC_ECONN_CID_NOT_FOUND, -RQC_EACTIVE_CID_LIMIT, -RQC_ECID_STATE,
-- -RQC_ECONN_NO_AVAIL_CID; a failed allocation is not modelled.
pub data Status : Type 0 where
  ok error econn_cid_not_found eactive_cid_limit ecid_state econn_no_avail_cid : Status

-- `n + 1` and `n - 1` on a uint64_t, and on the uint32_t `acked_unused`
abbrev pub incr : ℕ → ℕ
incr n = (n + 1) % 2 ^ 64

abbrev pub decr : ℕ → ℕ
decr n = (n + (2 ^ 64 - 1)) % 2 ^ 64

abbrev pub incr_word : ℕ → ℕ
incr_word n = (n + 1) % 2 ^ 32

abbrev pub decr_word : ℕ → ℕ
decr_word n = (n + (2 ^ 32 - 1)) % 2 ^ 32

-- RQC_MAX_UINT64_VALUE
abbrev pub max_uint64_value : ℕ
max_uint64_value = 2 ^ 64 - 1

unfoldable pub same_bytes : List ℕ → List ℕ → Bool
same_bytes [] [] = true
same_bytes [] (y ∷ ys) = false
same_bytes (x ∷ xs) [] = false
same_bytes (x ∷ xs) (y ∷ ys) = (x == y) && same_bytes xs ys

-- rqc_cid_is_equal: the length, then the bytes.
unfoldable pub cid_is_equal : Cid → Cid → Bool
cid_is_equal dst src =
    (length dst.cid_buf == length src.cid_buf) && same_bytes dst.cid_buf src.cid_buf

-- `cid->cid_seq_num = ...; cid->path_id = ...` from the node that was found.
pub named_as : CidInner → Cid → Cid
named_as inner_cid c = record c {
  cid_seq_num = inner_cid.cid.cid_seq_num;
  path_id = inner_cid.cid.path_id;
}

-- The first node of a list with the bytes of an id.
pub find_cid : Cid → List CidInner → Option CidInner
find_cid c [] = none
find_cid c (inner_cid ∷ next) =
    if cid_is_equal c inner_cid.cid then some inner_cid else find_cid c next

-- The counters when a node in that state comes into the list.
pub count_in : CidState → CidSetInner → CidSetInner
count_in unused s = record s { unused_cnt = incr s.unused_cnt }
count_in used s = record s { used_cnt = incr s.used_cnt }
count_in retired s = record s { retired_cnt = incr s.retired_cnt }
count_in removed s = s

-- The counters when a node leaves its state.
pub count_out : CidState → Bool → CidSetInner → CidSetInner
count_out unused true s = record s {
  unused_cnt = decr s.unused_cnt;
  acked_unused = decr_word s.acked_unused;
}
count_out unused false s = record s { unused_cnt = decr s.unused_cnt }
count_out used acked s = record s { used_cnt = decr s.used_cnt }
count_out retired acked s = record s { retired_cnt = decr s.retired_cnt }
count_out removed acked s = s

-- rqc_cid_set_insert_cid on the set of the path.
pub insert_cid : Cid → CidState → ℕ → CidSetInner → Status × CidSetInner
insert_cid c state limit s =
    let inner_cid : CidInner = record {
      cid = record c { path_id = s.path_id };
      state = state;
      retired_ts = max_uint64_value;
      acked = false;
    } in
    if ltb limit ((s.unused_cnt + s.used_cnt) % 2 ^ 64)
    then (eactive_cid_limit, s)
    else (ok, count_in state (record s { cid_list = s.cid_list ++ inner_cid ∷ [] }))

-- The node that rqc_cid_set_delete_cid frees, and the nodes left.
pub unlink : Cid → List CidInner → Option (CidInner × List CidInner)
unlink c [] = none
unlink c (inner_cid ∷ next) =
    if cid_is_equal c inner_cid.cid then some (inner_cid, next) else (elim (unlink c next) [
      | none ↦ none
      | some (freed, left) ↦ some (freed, inner_cid ∷ left)
    ])

-- rqc_cid_set_delete_cid once its loop has ended: the counters, and the list.
pub settle_delete : CidSetInner → Option (CidInner × List CidInner) → Status × CidSetInner
settle_delete s none = (error, s)
settle_delete s (some (freed, left)) =
    (ok, count_out freed.state freed.acked (record s { cid_list = left }))

-- rqc_cid_set_delete_cid on the set of the path.
pub delete_cid : Cid → CidSetInner → Status × CidSetInner
delete_cid c s = settle_delete s (unlink c s.cid_list)

-- rqc_cid_switch_to_next_state once the node is known to be in the set: the node at `i`.
pub switch_node : ℕ → CidInner → CidState → CidSetInner → Status × CidSetInner
switch_node i node next_state s =
    if rank node.state == rank next_state
    then (ok, s)
    else if ltb (rank next_state) (rank node.state)
    then (ecid_state, s)
    else (
      ok,
      count_in next_state (
          count_out node.state node.acked
            (record s { cid_list = set s.cid_list i (record node { state = next_state }) })),
    )

-- rqc_cid_switch_to_next_state for the node at `i` of the path's list. Its look-up
-- rqc_cid_in_cid_set names the node as the first one with the same bytes.
pub cid_switch_to_next_state : ℕ → CidState → CidSetInner → Status × CidSetInner
cid_switch_to_next_state i next_state s = elim (get_elem? s.cid_list i) [
  | none ↦ (econn_cid_not_found, s)
  | some node ↦ elim (find_cid node.cid s.cid_list) [
    | none ↦ (econn_cid_not_found, s)
    | some found ↦
        let named : CidInner = record node { cid = named_as found node.cid } in
        switch_node i named next_state (record s { cid_list = set s.cid_list i named })
  ]
]

-- The first node in state RQC_CID_UNUSED from position `i` on.
pub first_unused : ℕ → List CidInner → Option (ℕ × CidInner)
first_unused i [] = none
first_unused i (inner_cid ∷ next) =
    if rank inner_cid.state == rank unused then some (i, inner_cid) else first_unused (suc i) next

-- rqc_get_unused_cid on the set of the path: the status, `*cid` as it is left, the set.
pub get_unused_cid : Cid → CidSetInner → Status × Cid × CidSetInner
get_unused_cid c s =
    if s.unused_cnt == 0 then (econn_no_avail_cid, c, s) else (elim (first_unused 0 s.cid_list) [
      | none ↦ (econn_no_avail_cid, c, s)
      | some (i, inner_cid) ↦
          let switched = cid_switch_to_next_state i used s in
          (switched.0, inner_cid.cid, switched.1)
    ])

-- The loop of rqc_get_inner_cid_by_seq.
pub find_seq : ℕ → List CidInner → Option CidInner
find_seq seq_num [] = none
find_seq seq_num (inner_cid ∷ next) =
    if inner_cid.cid.cid_seq_num == seq_num then some inner_cid else find_seq seq_num next

-- rqc_cid_set_on_cid_acked on the set of the path: the nodes and `acked_unused`.
pub ack_nodes : ℕ → List CidInner → ℕ → List CidInner × ℕ
ack_nodes cid_seq [] acked_unused = ([], acked_unused)
ack_nodes cid_seq (inner_cid ∷ next) acked_unused =
    let first = not inner_cid.acked && (rank inner_cid.state == rank unused) in
    let passed = ack_nodes cid_seq next acked_unused in
    let counted = ack_nodes cid_seq next (if first then incr_word acked_unused else acked_unused) in
    if inner_cid.cid.cid_seq_num == cid_seq
    then (record inner_cid { acked = true } ∷ counted.0, counted.1)
    else (inner_cid ∷ passed.0, passed.1)

pub on_cid_acked : ℕ → CidSetInner → CidSetInner
on_cid_acked cid_seq s =
    let acked = ack_nodes cid_seq s.cid_list s.acked_unused in
    record s { cid_list = acked.0; acked_unused = acked.1 }
